-- ===== src/Raft/Compact.antt =====
-- Snapshots, raftCore/raft.cpp: `Snapshot`, `InstallSnapshot`, `leaderSendSnapShot` and
-- `CondInstallSnapshot`.
pub mod Truncation
pub mod Install
use rpc_storage_cpp.Common.{
  ℕ, zero, suc, ◌+◌, ◌-◌, Bool, true, false, not, ◌||◌, Option, none, some, List, [], ◌∷◌, ltb, leb,
  ◌==◌, Bytes, if◌then◌else◌, length, get_elem?, set, drop, max, Result, ok, err, ◌>>=◌, ◌>>◌,
  my_assert, at_index,
}
use rpc_storage_cpp.Persister.{save, read_snapshot}
use rpc_storage_cpp.Raft.State.{
  Raft, LogEntry, follower, ApplyMsg, snapshot_msg, InstallSnapshotRequest, InstallSnapshotResponse,
}
use rpc_storage_cpp.Raft.Log.{
  get_last_log_index, get_slices_index_from_log_index, entry_at, persist, persist_data,
}
use rpc_storage_cpp.Raft.Vote.{step_down, is_leader}

-- The loop that copies the entries from index `i` on, with `n` rounds left.
unfoldable pub truncked_logs : Raft → (i n : ℕ) → Result (List LogEntry)
truncked_logs s i zero = ok []
truncked_logs s i (suc n) = do e ← entry_at s i; es ← truncked_logs s (i + 1) n; ok (e ∷ es)

-- `m_persister->Save(persistData(), snapshot)`.
unfoldable pub save_with : Raft → Bytes → Raft
save_with s data_ = record s { persister = save s.persister (persist_data s) data_ }

unfoldable pub snapshot : Raft → (index : ℕ) → Bytes → Result Raft
unfolding save_with
snapshot s index data_ =
    if leb index s.last_snapshot_include_index || ltb s.commit_index index then ok s else do
      e ← entry_at s index
      es ← truncked_logs s (index + 1) (get_last_log_index s - index)
      let t =
          save_with
            (record s {
              last_snapshot_include_index = index;
              last_snapshot_include_term = e.log_term;
              logs = es;
              commit_index = max s.commit_index index;
              last_applied = max s.last_applied index;
            })
            data_
      my_assert (length t.logs + t.last_snapshot_include_index == get_last_log_index s)
      ok t

pub record Installed : Type 0 where
  pub node : Raft
  pub reply : InstallSnapshotResponse
  pub pushed : Option ApplyMsg

-- The part of `InstallSnapshot` for a snapshot that is newer than the node's.
unfoldable pub install : Raft → InstallSnapshotRequest → Result Raft
unfolding save_with
install s args = do
  logs ←
      (if ltb args.last_snapshot_include_index (get_last_log_index s)
        then (do
          slice ← get_slices_index_from_log_index s args.last_snapshot_include_index
          ok (drop (slice + 1) s.logs))
        else ok [])
  ok (
      save_with
        (record s {
          logs = logs;
          commit_index = max s.commit_index args.last_snapshot_include_index;
          last_applied = max s.last_applied args.last_snapshot_include_index;
          last_snapshot_include_index = args.last_snapshot_include_index;
          last_snapshot_include_term = args.last_snapshot_include_term;
        })
        args.snapshot_data)

-- The third part is what a thread pushes to the channel of the key-value server.
unfoldable pub install_snapshot : Raft → (now : ℕ) → InstallSnapshotRequest → Result Installed
install_snapshot s now args =
    if ltb args.term s.current_term
    then ok (record { node = s; reply = record { term = s.current_term }; pushed = none })
    else (let t =
          record (if ltb s.current_term args.term then persist (step_down s args.term) else s) {
            status = follower;
            last_reset_election_time = now;
          } in
        if leb args.last_snapshot_include_index t.last_snapshot_include_index
        then ok (record { node = t; reply = record { term = 0 }; pushed = none })
        else do
          u ← install t args
          ok (record {
            node = u;
            reply = record { term = u.current_term };
            pushed = some (
                snapshot_msg args.snapshot_data args.last_snapshot_include_term
                  args.last_snapshot_include_index);
          }))

-- `leaderSendSnapShot` up to the call. Reading the snapshot changes the persister.
unfoldable pub snapshot_request : Raft → Raft × InstallSnapshotRequest
snapshot_request s =
    let (p, data_) = read_snapshot s.persister in
    (
      record s { persister = p },
      record {
        leader_id = s.me;
        term = s.current_term;
        last_snapshot_include_index = s.last_snapshot_include_index;
        last_snapshot_include_term = s.last_snapshot_include_term;
        snapshot_data = data_;
      },
    )

-- `leaderSendSnapShot` from the return of the call on; `none` is a call that failed.
unfoldable pub leader_send_snap_shot :
    Raft → (server now : ℕ) → InstallSnapshotRequest → Option InstallSnapshotResponse → Result Raft
leader_send_snap_shot s server now args none = ok s
leader_send_snap_shot s server now args (some reply) =
    if not (is_leader s.status) || not (s.current_term == args.term)
    then ok s
    else if ltb s.current_term reply.term
    then ok (record (persist (step_down s reply.term)) { last_reset_election_time = now })
    else (do
      _ ← at_index (get_elem? s.match_index server)
      _ ← at_index (get_elem? s.next_index server)
      ok (record s {
        match_index = set s.match_index server args.last_snapshot_include_index;
        next_index = set s.next_index server (args.last_snapshot_include_index + 1);
      }))
