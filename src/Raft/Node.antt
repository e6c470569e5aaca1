-- ===== src/Raft/Node.antt =====
-- A node among others: every way in which raftCore/raft.cpp changes a node, as one step relation.
-- A step is a call of a handler by another node, the return of a call that the node made, a timer, or
-- a call by the key-value server. Arguments and replies are arbitrary.
pub mod KeepsVote
pub mod VoteOnce
pub mod Election
use rpc_storage_cpp.Raft.Apply.{get_apply_logs}
use rpc_storage_cpp.Raft.Replicate.{start, send_append_entries, do_heart_beat}
use rpc_storage_cpp.Raft.Compact.{
  snapshot, leader_send_snap_shot, snapshot_request, install_snapshot,
}
use rpc_storage_cpp.Raft.Append.{append_entries}
use rpc_storage_cpp.Raft.Vote.{send_request_vote, do_election, request_vote}
use rpc_storage_cpp.Raft.State.{
  InstallSnapshotResponse, AppendEntriesReply, RequestVoteReply, InstallSnapshotRequest,
  AppendEntriesArgs, Raft, RequestVoteArgs,
}
use rpc_storage_cpp.Common.{Bytes, Result, ◌>>=◌, ok, ℕ, Option, List, [], ◌∷◌}

pub data Event : Type 0 where
  on_request_vote : (now : ℕ) → RequestVoteArgs → Event
  on_append_entries : (now : ℕ) → AppendEntriesArgs → Event
  on_install_snapshot : (now : ℕ) → InstallSnapshotRequest → Event
  on_election : (now : ℕ) → Event
  on_vote_reply : (reply : Option RequestVoteReply) (voted_num : ℕ) → Event
  on_heart_beat : (now : ℕ) → Event
  on_append_reply :
      (server : ℕ)
      → AppendEntriesArgs
      → (reply : Option AppendEntriesReply) → (append_nums : ℕ) → Event
  on_snapshot_request : Event
  on_snapshot_reply :
      (server now : ℕ) → InstallSnapshotRequest → (reply : Option InstallSnapshotResponse) → Event
  on_start : (command : Bytes) → Event
  on_snapshot : (index : ℕ) (snapshot_data : Bytes) → Event
  on_apply : Event

abbrev node_of {ℓ} : {A : Type ℓ} → Result (Raft × A) → Result Raft
node_of m = m >>= λ p. ok p.0

-- `err` is the end of the process.
unfoldable pub step : Raft → Event → Result Raft
step s (on_request_vote now args) = node_of (request_vote s now args)
step s (on_append_entries now args) = node_of (append_entries s now args)
step s (on_install_snapshot now args) = install_snapshot s now args >>= λ r. ok r.node
step s (on_election now) = ok (do_election s now).0
step s (on_vote_reply reply n) = send_request_vote s reply n >>= λ r. ok r.node
step s (on_heart_beat now) = node_of (do_heart_beat s now)
step s (on_append_reply server args reply n) = node_of (send_append_entries s server args reply n)
step s on_snapshot_request = ok (snapshot_request s).0
step s (on_snapshot_reply server now args reply) = leader_send_snap_shot s server now args reply
step s (on_start command) = ok (start s command).0
step s (on_snapshot index d) = snapshot s index d
step s on_apply = node_of (get_apply_logs s)

unfoldable pub run : Raft → List Event → Result Raft
unfolding step
run s [] = ok s
run s (e ∷ es) = do t ← step s e; run t es
