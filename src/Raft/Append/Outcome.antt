-- ===== src/Raft/Append/Outcome.antt =====
-- What `AppendEntries1` does on each of its ways: raftCore/raft.cpp.
use rpc_storage_cpp.Common.{
  ℕ, suc, ◌+◌, ◌-◌, ◌≤◌, ◌<◌, ◌≡◌, ◌∙◌, false, none, some, arith, ok, err, assert_failed, ◌>>=◌,
}
use native.Mathlib.Nat.{le_refl}
use rpc_storage_cpp.Raft.State.{Raft, AppendEntriesArgs, app_normal}
use rpc_storage_cpp.Raft.Log.{
  entry_at, get_last_log_index, get_log_term_from_log_index, match_log, persist,
}
use rpc_storage_cpp.Raft.Log.Indexing.{Contiguous, get_last_log_index-IsIndexed}
use rpc_storage_cpp.Raft.Valid.{IsValid, splice}
use rpc_storage_cpp.Raft.Append.{
  append_entries, append_accepted, append_matched, persist_reply, accept_term, failure_reply,
}

-- With a term that is not older the handler goes on as a follower of that term.
pub append_entries-current :
    (s : Raft) (now : ℕ) (args : AppendEntriesArgs)
    → s.current_term ≤ args.term
    → append_entries s now args
      ≡ (append_accepted (accept_term s now args.term) args >>= λ p. ok (persist_reply p))
unfolding append_entries
append_entries-current s now args h = ground arith

-- A term that is older than the node's changes nothing, and the reply has the node's term and no
-- hint.
pub append_entries_stale :
    (s : Raft) (now : ℕ) (args : AppendEntriesArgs)
    → args.term < s.current_term
    → append_entries s now args
      ≡ ok (
        s,
        record {
          term = s.current_term;
          success = false;
          update_next_index = none;
          app_state = app_normal;
        },
      )
unfolding append_entries
append_entries_stale s now args h = ground arith

-- At a valid node, a request of a term that is not older with a `prevlogindex` below the snapshot ends
-- the process, although the code has set a refusal for it.
pub append_entries_behind_snapshot :
    (s : Raft) (now : ℕ) (args : AppendEntriesArgs)
    → IsValid s
    → s.current_term ≤ args.term
    → args.prev_log_index < s.last_snapshot_include_index
    → append_entries s now args ≡ err assert_failed
unfolding append_accepted match_log get_last_log_index
append_entries_behind_snapshot s now args v h lo =
    append_entries-current s now args h ∙ ground (arith, get_last_log_index-IsIndexed s v.indexed)

-- A `prevlogindex` behind the end of the log is refused, with the index after the end as the hint.
-- The node has become a follower of the request's term and has persisted, and its log is as before.
pub append_entries_ahead :
    (s : Raft) (now : ℕ) (args : AppendEntriesArgs)
    → s.current_term ≤ args.term
    → get_last_log_index s < args.prev_log_index
    → append_entries s now args
      ≡ ok (
        persist (accept_term s now args.term),
        record {
          term = args.term;
          success = false;
          update_next_index = some (get_last_log_index s + 1);
          app_state = app_normal;
        },
      )
unfolding append_accepted get_last_log_index failure_reply
append_entries_ahead s now args h hi = append_entries-current s now args h ∙ ground arith

-- The premises under which the logs match: the previous index lies between the snapshot and the end
-- of the log, its entry has the term of the request, and the new entries follow it.
pub record Matches (s : Raft) (args : AppendEntriesArgs) : Type 0 where
  pub not_stale : s.current_term ≤ args.term
  pub above : s.last_snapshot_include_index ≤ args.prev_log_index
  pub below : args.prev_log_index ≤ get_last_log_index s
  pub same_term : get_log_term_from_log_index s args.prev_log_index ≡ ok args.prev_log_term
  pub follow : Contiguous (suc args.prev_log_index) args.entries

abbrev pub offset : Raft → AppendEntriesArgs → ℕ
offset s args = args.prev_log_index - s.last_snapshot_include_index

-- The node with its new log.
abbrev pub with_entries : Raft → (now : ℕ) → AppendEntriesArgs → Raft
with_entries s now args = record (accept_term s now args.term) {
  logs = splice (offset s args) args.entries s.logs;
}

pub append_accepted-match :
    (s : Raft) (args : AppendEntriesArgs)
    → Matches s args
    → append_accepted s args ≡ append_matched s args
unfolding append_accepted match_log
append_accepted-match s args m = ground (arith, m.same_term, m.above, m.below)

pub Matches-accept_term :
    {s : Raft} {args : AppendEntriesArgs} (now : ℕ)
    → Matches s args
    → Matches (accept_term s now args.term) args
unfolding get_log_term_from_log_index get_last_log_index entry_at
Matches-accept_term {args} now m = record {
  not_stale = le_refl args.term;
  above = m.above;
  below = m.below;
  same_term = m.same_term;
  follow = m.follow;
}
