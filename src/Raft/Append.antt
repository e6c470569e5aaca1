-- ===== src/Raft/Append.antt =====
-- The follower's side of replication, raftCore/raft.cpp: `AppendEntries1`.
pub mod Splice
pub mod Outcome
pub mod Matched
pub mod BackUp
pub mod Mismatched
pub mod Invariant
use rpc_storage_cpp.Common.{
  ℕ, zero, suc, ◌+◌, ◌-◌, Bool, true, false, not, ◌&&◌, Option, none, some, List, [], ◌∷◌, ◌++◌,
  ltb, leb, ◌==◌, bytes_eq, if◌then◌else◌, length, get_elem?, set, min, Result, ok, err, ◌>>=◌,
  ◌>>◌, my_assert, at_index,
}
use rpc_storage_cpp.Raft.State.{
  Raft, LogEntry, follower, AppendEntriesArgs, AppendEntriesReply, AppState, app_normal,
}
use rpc_storage_cpp.Raft.Log.{
  get_last_log_index, get_slices_index_from_log_index, entry_at, get_log_term_from_log_index,
  match_log, persist,
}
use rpc_storage_cpp.Raft.Vote.{step_down}

-- The same index and term with another command.
abbrev pub clashes : LogEntry → LogEntry → Bool
clashes old log = old.log_term == log.log_term && not (bytes_eq old.command log.command)

-- One round of the loop over `args->entries()`. An entry of another term is overwritten; what stands
-- behind it stays.
unfoldable pub accept_entry : Raft → LogEntry → Result Raft
unfolding entry_at
accept_entry s log =
    if ltb (get_last_log_index s) log.log_index
    then ok (record s { logs = s.logs ++ log ∷ [] })
    else do
      slice ← get_slices_index_from_log_index s log.log_index
      old ← at_index (get_elem? s.logs slice)
      my_assert (not (clashes old log))
      ok (if old.log_term == log.log_term then s else record s { logs = set s.logs slice log })

unfoldable pub accept_entries : Raft → List LogEntry → Result Raft
unfolding accept_entry
accept_entries s [] = ok s
accept_entries s (e ∷ es) = do s' ← accept_entry s e; accept_entries s' es

-- The loop that looks for `updatenextindex`: from `index` down to the snapshot, `rounds` rounds left,
-- for the first entry of another term than `term`.
unfoldable pub back_up : Raft → (term index rounds : ℕ) → Result (Option ℕ)
back_up s term index zero = ok none
back_up s term index (suc rounds) =
    let rest = back_up s term (index - 1) rounds in
    do t ← get_log_term_from_log_index s index; if t == term then rest else ok (some (index + 1))

abbrev pub or_else : Option ℕ → ℕ → ℕ
or_else none d = d
or_else (some i) d = i

unfoldable pub failure_reply : Raft → ℕ → AppendEntriesReply
failure_reply s next = record {
  term = s.current_term;
  success = false;
  update_next_index = some next;
  app_state = app_normal;
}

unfoldable pub advance_commit : Raft → ℕ → Raft
advance_commit s leader_commit =
    if ltb s.commit_index leader_commit
    then record s { commit_index = min leader_commit (get_last_log_index s) }
    else s

-- The branch in which the logs match at `prevlogindex`.
unfoldable pub append_matched : Raft → AppendEntriesArgs → Result (Raft × AppendEntriesReply)
unfolding advance_commit
append_matched s args = do
  t ← accept_entries s args.entries
  my_assert (leb (args.prev_log_index + length args.entries) (get_last_log_index t))
  let u = advance_commit t args.leader_commit
  my_assert (leb u.commit_index (get_last_log_index u))
  ok (
    u,
    record {
      term = u.current_term;
      success = true;
      update_next_index = some 0;
      app_state = app_normal;
    },
  )

-- The branch in which they do not.
unfoldable pub append_mismatched : Raft → AppendEntriesArgs → Result (Raft × AppendEntriesReply)
unfolding failure_reply
append_mismatched s args = do
  term ← get_log_term_from_log_index s args.prev_log_index
  found ←
      back_up s term args.prev_log_index (args.prev_log_index + 1 - s.last_snapshot_include_index)
  ok (s, failure_reply s (or_else found args.prev_log_index))

-- The handler once the term has been accepted. A `prevlogindex` below the snapshot sets a refusal in
-- the reply and goes on to `matchLog`.
unfoldable pub append_accepted : Raft → AppendEntriesArgs → Result (Raft × AppendEntriesReply)
unfolding failure_reply append_matched append_mismatched
append_accepted s args =
    if ltb (get_last_log_index s) args.prev_log_index
    then ok (s, failure_reply s (get_last_log_index s + 1))
    else do
      matched ← match_log s args.prev_log_index args.prev_log_term
      if matched then append_matched s args else append_mismatched s args

abbrev pub persist_reply : Raft × AppendEntriesReply → Raft × AppendEntriesReply
persist_reply (s, reply) = (persist s, reply)

-- What the node does with a term that is not older than its own.
abbrev pub accept_term : Raft → (now term : ℕ) → Raft
accept_term s now term = record s {
  status = follower;
  current_term = term;
  voted_for = if ltb s.current_term term then none else s.voted_for;
  last_reset_election_time = now;
}

unfoldable pub append_entries :
    Raft → (now : ℕ) → AppendEntriesArgs → Result (Raft × AppendEntriesReply)
unfolding append_accepted
append_entries s now args =
    if ltb args.term s.current_term
    then ok (
      s,
      record {
        term = s.current_term;
        success = false;
        update_next_index = none;
        app_state = app_normal;
      },
    )
    else do
      let s' = if ltb s.current_term args.term then step_down s args.term else s
      my_assert (args.term == s'.current_term)
      p ← append_accepted (record s' { status = follower; last_reset_election_time = now }) args
      ok (persist_reply p)
