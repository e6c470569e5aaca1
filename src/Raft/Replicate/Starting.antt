-- ===== src/Raft/Replicate/Starting.antt =====
-- What `Start` adds to a leader's log: raftCore/raft.cpp.
use rpc_storage_cpp.Common.{
  Bytes, length-append, suc, ◌+◌, ◌≡◌, refl, true, some, [], ◌∷◌, ◌++◌, arith,
}
use rpc_storage_cpp.Raft.Vote.{is_leader}
use rpc_storage_cpp.Raft.Valid.{persist-IsValid, IsValid}
use rpc_storage_cpp.Raft.Log.Indexing.{get_last_log_index-IsIndexed, Contiguous-append, IsIndexed}
use rpc_storage_cpp.Raft.Log.{get_last_log_index, get_new_command_index, persist}
use rpc_storage_cpp.Raft.Replicate.{start}
use rpc_storage_cpp.Raft.State.{LogEntry, Raft}

abbrev pub new_entry : Raft → (command : Bytes) → LogEntry
new_entry s command = record {
  command = command;
  log_term = s.current_term;
  log_index = get_last_log_index s + 1;
}

abbrev extended : Raft → Bytes → Raft
extended s command = record s { logs = s.logs ++ new_entry s command ∷ [] }

extended-IsIndexed : (s : Raft) (command : Bytes) → IsIndexed s → IsIndexed (extended s command)
extended-IsIndexed s command h =
    Contiguous-append (suc s.last_snapshot_include_index) s.logs (new_entry s command ∷ []) h
      (omega (arith, get_last_log_index-IsIndexed s h), tt)

get_last_log_index-extended :
    (s : Raft) (command : Bytes)
    → IsIndexed s
    → get_last_log_index (extended s command) ≡ get_last_log_index s + 1
get_last_log_index-extended s command h = omega (
  arith,
  get_last_log_index-IsIndexed s h,
  get_last_log_index-IsIndexed (extended s command) (extended-IsIndexed s command h),
  length-append s.logs (new_entry s command ∷ []),
)

extended-IsValid : (s : Raft) (command : Bytes) → IsValid s → IsValid (extended s command)
extended-IsValid s command v = record {
  indexed = extended-IsIndexed s command v.indexed;
  committed = omega (arith, v.committed, get_last_log_index-extended s command v.indexed);
  applied = v.applied;
  next_size = v.next_size;
  match_size = v.match_size;
}

start-eq :
    (s : Raft) (command : Bytes)
    → is_leader s.status ≡ true
    → start s command
      ≡ (persist (extended s command), some (get_last_log_index s + 1, s.current_term))
unfolding start get_new_command_index
start-eq s command l = rw l refl

-- `Start` at a valid leader appends the command in the leader's term at the index after its last,
-- which it returns with the term; the new log ends at that index, and the node is valid again.
pub start-IsValid :
    (s : Raft) (command : Bytes)
    → IsValid s
    → is_leader s.status ≡ true
    → ((start s command).1 ≡ some (get_last_log_index s + 1, s.current_term))
      × (get_last_log_index (start s command).0 ≡ get_last_log_index s + 1)
      × ((start s command).0.logs ≡ s.logs ++ new_entry s command ∷ [])
      × IsValid (start s command).0
unfolding persist get_last_log_index
start-IsValid s command v l = rw (start-eq s command l) (
  refl,
  get_last_log_index-extended s command v.indexed,
  refl,
  persist-IsValid (extended-IsValid s command v),
)
