-- ===== src/Raft/Append/Matched.antt =====
-- The branch of `AppendEntries1` in which the logs match: raftCore/raft.cpp.
use rpc_storage_cpp.Common.{
  if-bind, ℕ, suc, ◌+◌, ◌≤◌, ◌≡◌, refl, ◌∙◌, true, some, arith, length, take, drop, if◌then◌else◌,
  min, max, subst, Bool-cases, inl, inr, ok, err, assert_failed,
}
use rpc_storage_cpp.Raft.State.{Raft, AppendEntriesArgs, AppendEntriesReply, app_normal}
use rpc_storage_cpp.Raft.Log.{get_last_log_index, persist}
use rpc_storage_cpp.Raft.Log.Indexing.{Contiguous, IsIndexed, get_last_log_index-IsIndexed}
use rpc_storage_cpp.Raft.Valid.{persist-IsValid, IsValid, length-splice, Contiguous-splice}
use rpc_storage_cpp.Raft.Append.{
  accept_entries, append_entries, append_matched, persist_reply, accept_term, advance_commit,
}
use rpc_storage_cpp.Raft.Append.Splice.{agrees, spliced, accept_entries-splice}
use rpc_storage_cpp.Raft.Append.Outcome.{
  Matches-accept_term, Matches, offset, with_entries, append_entries-current, append_accepted-match,
}

abbrev pub with_commit : Raft → ℕ → Raft
with_commit s leader_commit = record s {
  commit_index = max s.commit_index (min leader_commit (get_last_log_index s));
}

advance_commit-eq :
    (s : Raft) (c : ℕ)
    → s.commit_index ≤ get_last_log_index s
    → advance_commit s c ≡ with_commit s c
unfolding advance_commit
advance_commit-eq s c h = ground arith

pub get_last_log_index-with_commit :
    (s : Raft) (c : ℕ) → get_last_log_index (with_commit s c) ≡ get_last_log_index s
unfolding get_last_log_index
get_last_log_index-with_commit s c = refl

with_commit-IsValid : {s : Raft} (c : ℕ) → IsValid s → IsValid (with_commit s c)
with_commit-IsValid {s} c v = record {
  indexed = v.indexed;
  committed = omega (arith, get_last_log_index-with_commit s c, v.committed);
  applied = v.applied;
  next_size = v.next_size;
  match_size = v.match_size;
}

-- Once the entries are taken, the rest of the branch goes through.
append_matched-from :
    (s w : Raft) (args : AppendEntriesArgs)
    → accept_entries s args.entries ≡ ok w
    → args.prev_log_index + length args.entries ≤ get_last_log_index w
    → w.commit_index ≤ get_last_log_index w
    → append_matched s args
      ≡ ok (
        with_commit w args.leader_commit,
        record {
          term = w.current_term;
          success = true;
          update_next_index = some 0;
          app_state = app_normal;
        },
      )
unfolding append_matched
append_matched-from s w args e long committed =
    rw (e, advance_commit-eq w args.leader_commit committed)
      (ground (arith, get_last_log_index-with_commit w args.leader_commit))

append_matched-fails :
    (s : Raft) (args : AppendEntriesArgs)
    → accept_entries s args.entries ≡ err assert_failed
    → append_matched s args ≡ err assert_failed
unfolding append_matched
append_matched-fails s args e = rw e

module _ (s : Raft) (now : ℕ) (args : AppendEntriesArgs) (v : IsValid s) (m : Matches s args) where
  offset-le : offset s args ≤ length s.logs
  offset-le = omega (arith, get_last_log_index-IsIndexed s v.indexed, m.below, m.above)

  with_entries-IsIndexed : IsIndexed (with_entries s now args)
  with_entries-IsIndexed =
      Contiguous-splice (suc s.last_snapshot_include_index) (offset s args) args.entries s.logs
        offset-le v.indexed
        (subst (λ k. Contiguous k args.entries) (omega (arith, m.above)) m.follow)

  -- The log ends where it did, or with the last of the new entries.
  pub get_last_log_index-with_entries :
      get_last_log_index (with_entries s now args)
      ≡ max (get_last_log_index s) (args.prev_log_index + length args.entries)
  get_last_log_index-with_entries = omega (
    arith,
    get_last_log_index-IsIndexed s v.indexed,
    get_last_log_index-IsIndexed (with_entries s now args) with_entries-IsIndexed,
    length-splice (offset s args) args.entries s.logs offset-le,
    m.above,
  )

  -- The node that a match leaves, before it persists.
  abbrev pub matched_node : Raft
  matched_node = with_commit (with_entries s now args) args.leader_commit

  abbrev pub success_reply : AppendEntriesReply
  success_reply = record {
    term = args.term;
    success = true;
    update_next_index = some 0;
    app_state = app_normal;
  }

  accepted :
      accept_entries (accept_term s now args.term) args.entries
      ≡ spliced
          (accept_term s now args.term)
          (take (offset s args) s.logs)
          (drop (offset s args) s.logs)
          args.entries
  unfolding get_last_log_index
  accepted =
      accept_entries-splice (accept_term s now args.term) args.prev_log_index args.entries v.indexed
        m.above m.below m.follow

  append_matched-eq : append_matched (accept_term s now args.term) args ≡ (
      if agrees (drop (offset s args) s.logs) args.entries
      then ok (matched_node, success_reply)
      else err assert_failed)
  append_matched-eq = elim (Bool-cases (agrees (drop (offset s args) s.logs) args.entries)) [
    | inr clash ↦ rw clash (append_matched-fails _ args (accepted ∙ rw clash))
    | inl fine ↦ rw fine (
        append_matched-from _ (with_entries s now args) args (accepted ∙ rw fine)
          (omega (arith, get_last_log_index-with_entries))
          (omega (arith, get_last_log_index-with_entries, v.committed)))
  ]

  -- At a valid node, if the request's term is not older, its previous index lies between the snapshot
  -- and the end of the log and has the request's term there, and its entries follow that index, the
  -- entries are put in their place of the log, which keeps what stands in front of them and behind
  -- them, the commit index follows the leader's up to the end of the log, and the node persists and
  -- reports success; if an entry has the term and not the command of the one in its place, the
  -- process ends.
  pub append_entries_matched : append_entries s now args ≡ (
      if agrees (drop (offset s args) s.logs) args.entries
      then ok (persist matched_node, success_reply)
      else err assert_failed)
  append_entries_matched =
      append_entries-current s now args m.not_stale
      ∙ rw
          (
            append_accepted-match (accept_term s now args.term) args (Matches-accept_term now m),
            append_matched-eq,
          )
          (if-bind (agrees (drop (offset s args) s.logs) args.entries) _ _
            (λ p. ok (persist_reply p)))

  -- That node is valid again.
  pub matched_node-IsValid : IsValid (persist matched_node)
  matched_node-IsValid = persist-IsValid (
      with_commit-IsValid args.leader_commit (record {
        indexed = with_entries-IsIndexed;
        committed = omega (arith, get_last_log_index-with_entries, v.committed);
        applied = v.applied;
        next_size = v.next_size;
        match_size = v.match_size;
      }))
