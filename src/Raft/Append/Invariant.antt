-- ===== src/Raft/Append/Invariant.antt =====
-- `AppendEntries1` keeps a node valid: raftCore/raft.cpp.
use native.Mathlib.Decide.{ℕ_discrete, dec_lt}
use rpc_storage_cpp.Common.{drop, Returns, ok, ℕ, suc, ◌≤◌, ◌≡◌, ap, ◌∙◌, true, arith}
use rpc_storage_cpp.Raft.Append.Mismatched.{append_entries_mismatched}
use rpc_storage_cpp.Raft.Append.Matched.{matched_node-IsValid, append_entries_matched}
use rpc_storage_cpp.Raft.Append.Splice.{agrees}
use rpc_storage_cpp.Raft.Append.Outcome.{
  Matches, offset, append_entries_ahead, append_entries_stale,
}
use rpc_storage_cpp.Raft.Log.Indexing.{get_log_term-IsIndexed, Contiguous}
use rpc_storage_cpp.Raft.Append.{append_entries, accept_term}
use rpc_storage_cpp.Raft.Valid.{persist-IsValid, IsValid}
use rpc_storage_cpp.Raft.State.{AppendEntriesArgs, Raft}
use rpc_storage_cpp.Raft.Log.{get_last_log_index}

accept_term-IsValid : {s : Raft} (now term : ℕ) → IsValid s → IsValid (accept_term s now term)
unfolding get_last_log_index
accept_term-IsValid now term v = record {
  indexed = v.indexed;
  committed = v.committed;
  applied = v.applied;
  next_size = v.next_size;
  match_size = v.match_size;
}

-- A request for a valid node in which the entries follow the previous index one by one, the previous
-- index is not below the node's snapshot, and no entry has the term and not the command of the node's
-- entry in its place does not end the process, on no branch of the handler, and leaves the node valid.
pub append_entries-IsValid :
    (s : Raft) (now : ℕ) (args : AppendEntriesArgs)
    → IsValid s
    → Contiguous (suc args.prev_log_index) args.entries
    → s.last_snapshot_include_index ≤ args.prev_log_index
    → agrees (drop (offset s args) s.logs) args.entries ≡ true
    → Returns (append_entries s now args) λ p. IsValid p.0
append_entries-IsValid s now args v c above fine = elim (dec_lt args.term s.current_term) [
  | yes old ↦ rw (append_entries_stale s now args old) v
  | no current ↦ elim (dec_lt (get_last_log_index s) args.prev_log_index) [
    | yes past ↦
        rw (append_entries_ahead s now args (omega arith) past)
          (persist-IsValid (accept_term-IsValid now args.term v))
    | no below ↦
        let (t, e) = get_log_term-IsIndexed s args.prev_log_index v.indexed above (omega arith) in
        elim (ℕ_discrete t args.prev_log_term) [
          | yes same ↦
              let m : Matches s args = record {
                not_stale = omega arith;
                above = above;
                below = omega arith;
                same_term = e ∙ ap ok same;
                follow = c;
              } in
              rw (append_entries_matched s now args v m, fine) (matched_node-IsValid s now args v m)
          | no other ↦
              let (found, q, r) =
                append_entries_mismatched s now t args v (omega arith) above (omega arith) e
                  other in
              rw q (persist-IsValid (accept_term-IsValid now args.term v))
        ]
  ]
]
