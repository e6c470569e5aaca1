-- ===== src/Raft/Start.antt =====
-- A node's start: raftCore/raft.cpp, `init`. The fibers and the thread that it starts are the events
-- of a node. The persister has been made by its constructor.
use rpc_storage_cpp.Common.{
  ltb, if◌then◌else◌, Bytes, replicate, length-replicate, ℕ, ◌≡◌, refl, none, [], arith,
}
use rpc_storage_cpp.Raft.Valid.{IsValid}
use rpc_storage_cpp.Raft.Log.{get_last_log_index, read_persist}
use rpc_storage_cpp.Persister.{read_raft_state, Persister, new_persister}
use rpc_storage_cpp.Raft.State.{follower, Raft, Archive}

-- `m_peers`, `m_persister`, `m_me` and the vectors' zeros, then what the Raft state file restores.
unfoldable pub init : Archive → (peers me : ℕ) → Persister → (now : ℕ) → Raft
init boost peers me persister now =
    let fresh : Raft = record {
      boost = boost;
      persister = persister;
      peers = peers;
      me = me;
      current_term = 0;
      voted_for = none;
      logs = [];
      commit_index = 0;
      last_applied = 0;
      next_index = replicate peers 0;
      match_index = replicate peers 0;
      status = follower;
      last_reset_election_time = now;
      last_reset_hear_beat_time = now;
      last_snapshot_include_index = 0;
      last_snapshot_include_term = 0;
    } in
    let s = read_persist fresh (read_raft_state persister) in
    if ltb 0 s.last_snapshot_include_index
    then record s { last_applied = s.last_snapshot_include_index }
    else s

-- A node that starts on a new persister has term 0 and no vote, an empty log and no snapshot, and is
-- valid, whatever the two files held before: the constructor has emptied them.
pub init-new_persister :
    (boost : Archive) (peers me now : ℕ) (spill : Bytes → ℕ) (raft_state_file snapshot_file : Bytes)
    → let s = init boost peers me (new_persister spill raft_state_file snapshot_file) now in
      (s.current_term ≡ 0)
      × (s.voted_for ≡ none)
      × (s.logs ≡ [])
      × (s.last_snapshot_include_index ≡ 0)
      × IsValid s
unfolding init new_persister read_raft_state read_persist get_last_log_index
init-new_persister boost peers me now spill f g = (
  refl,
  refl,
  refl,
  refl,
  record {
    indexed = tt;
    committed = omega arith;
    applied = omega arith;
    next_size = length-replicate peers 0;
    match_size = length-replicate peers 0;
  },
)
