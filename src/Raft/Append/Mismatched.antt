-- ===== src/Raft/Append/Mismatched.antt =====
-- The branch of `AppendEntries1` in which the logs differ at `prevlogindex`: raftCore/raft.cpp.
use rpc_storage_cpp.Common.{
  ok, ℕ, zero, suc, ◌+◌, ◌-◌, ◌≤◌, ◌≡◌, refl, ◌∙◌, ◌≢◌, false, Option, some, arith,
}
use rpc_storage_cpp.Raft.Append.Outcome.{append_entries-current}
use rpc_storage_cpp.Raft.Append.BackUp.{back_up-Search, Search-ok, Search}
use rpc_storage_cpp.Raft.Valid.{IsValid}
use rpc_storage_cpp.Raft.State.{app_normal, AppendEntriesArgs, Raft}
use rpc_storage_cpp.Raft.Append.{
  append_entries, or_else, accept_term, failure_reply, append_accepted, back_up,
}
use rpc_storage_cpp.Raft.Log.{
  persist, entry_at, match_log, get_last_log_index, get_log_term_from_log_index,
}

get_log_term-accept_term :
    (s : Raft) (now term i : ℕ)
    → get_log_term_from_log_index (accept_term s now term) i ≡ get_log_term_from_log_index s i
unfolding get_log_term_from_log_index get_last_log_index entry_at
get_log_term-accept_term s now term i = refl

back_up-accept_term :
    (s : Raft) (now term t i n : ℕ) → back_up (accept_term s now term) t i n ≡ back_up s t i n
unfolding back_up
back_up-accept_term s now term t i zero = refl
back_up-accept_term s now term t i (suc n) =
    rw (get_log_term-accept_term s now term i, back_up-accept_term s now term t (i - 1) n)

append_accepted-mismatch :
    (s : Raft) (now t : ℕ) (args : AppendEntriesArgs) (found : Option ℕ)
    → s.last_snapshot_include_index ≤ args.prev_log_index
    → args.prev_log_index ≤ get_last_log_index s
    → get_log_term_from_log_index s args.prev_log_index ≡ ok t
    → t ≢ args.prev_log_term
    → back_up s t args.prev_log_index (args.prev_log_index + 1 - s.last_snapshot_include_index)
      ≡ ok found
    → append_accepted s args ≡ ok (s, failure_reply s (or_else found args.prev_log_index))
unfolding append_accepted match_log
append_accepted-mismatch s now t args found lo hi p ne b = ground arith

-- At a valid node, if the request's term is not older and `prevlogindex` lies between the snapshot and
-- the end of the log and has another term there than the request says, the node becomes a
-- follower of the request's term, persists with its log unchanged, and refuses. The hint is the lowest
-- index from which on, up to `prevlogindex`, all its entries have the term of that entry, if another
-- term stands below it, and `prevlogindex` if not.
pub append_entries_mismatched :
    (s : Raft) (now t : ℕ) (args : AppendEntriesArgs)
    → IsValid s
    → s.current_term ≤ args.term
    → s.last_snapshot_include_index ≤ args.prev_log_index
    → args.prev_log_index ≤ get_last_log_index s
    → get_log_term_from_log_index s args.prev_log_index ≡ ok t
    → t ≢ args.prev_log_term
    → (found : Option ℕ) × (append_entries s now args
        ≡ ok (
          persist (accept_term s now args.term),
          record {
            term = args.term;
            success = false;
            update_next_index = some (or_else found args.prev_log_index);
            app_state = app_normal;
          },
        ))
      × Search s t args.prev_log_index (ok found)
unfolding failure_reply
append_entries_mismatched s now t args v h lo hi p ne =
    let (found, b, q) = Search-ok (
      back_up-Search s t args.prev_log_index
        (args.prev_log_index + 1 - s.last_snapshot_include_index) v.indexed (omega arith) hi) in
    (
      found,
      append_entries-current s now args h
          ∙ rw (
              append_accepted-mismatch (accept_term s now args.term) now t args found lo
                (unfold get_last_log_index in hi)
                (get_log_term-accept_term s now args.term args.prev_log_index ∙ p) ne
                (back_up-accept_term s now args.term t args.prev_log_index
                    (args.prev_log_index + 1 - s.last_snapshot_include_index)
                  ∙ b)),
      q,
    )
