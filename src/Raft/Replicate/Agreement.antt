-- ===== src/Raft/Replicate/Agreement.antt =====
-- From a leader's heartbeat to the follower's log: raftCore/raft.cpp, `doHeartBeat` and
-- `AppendEntries1`.
use rpc_storage_cpp.Common.{
  length, get_elem?, drop, length-drop, get_elem?-drop, Returns, ok, ℕ, suc, ◌+◌, ◌-◌, ◌≤◌, ◌<◌,
  max, ◌≡◌, refl, sym, ap, ◌∙◌, subst, true, arith,
}
use rpc_storage_cpp.Raft.Append.{append_entries}
use rpc_storage_cpp.Raft.Append.Splice.{agrees}
use rpc_storage_cpp.Raft.Append.Matched.{
  get_last_log_index-with_entries, append_entries_matched, get_last_log_index-with_commit,
  matched_node-IsValid, matched_node,
}
use rpc_storage_cpp.Raft.Append.Outcome.{with_entries, offset, Matches}
use rpc_storage_cpp.Raft.Replicate.{send_entries}
use rpc_storage_cpp.Raft.Replicate.Sending.{Sends}
use rpc_storage_cpp.Raft.Log.{persist, get_log_term_from_log_index, entry_at, get_last_log_index}
use rpc_storage_cpp.Raft.Valid.{get_elem?-splice, get_last_log_index-persist, splice, IsValid}
use rpc_storage_cpp.Raft.Log.Indexing.{
  get_last_log_index-IsIndexed, Contiguous-drop, Contiguous, entry_at-IsIndexed, IsIndexed,
}
use rpc_storage_cpp.Raft.State.{AppendEntriesArgs, Raft}

Sends-Contiguous :
    (l : Raft) (server next : ℕ) (args : AppendEntriesArgs)
    → IsValid l
    → next ≤ get_last_log_index l + 1
    → Sends l server next (send_entries server args)
    → Contiguous (suc args.prev_log_index) args.entries
Sends-Contiguous l server next args v hi sent =
    subst (Contiguous (suc args.prev_log_index)) (sym sent.4) (
      subst (λ k. Contiguous k (drop (args.prev_log_index - l.last_snapshot_include_index) l.logs))
        (omega arith)
        (Contiguous-drop (suc l.last_snapshot_include_index)
          (args.prev_log_index - l.last_snapshot_include_index) l.logs
          (omega (arith, get_last_log_index-IsIndexed l v.indexed)) v.indexed))

-- Two nodes hold the same entry at an index that lies in both logs.
same_entry_at :
    (a b : Raft) (i : ℕ)
    → IsIndexed a
    → IsIndexed b
    → a.last_snapshot_include_index < i
    → i ≤ get_last_log_index a
    → b.last_snapshot_include_index < i
    → i ≤ get_last_log_index b
    → get_elem? a.logs (i - a.last_snapshot_include_index - 1)
      ≡ get_elem? b.logs (i - b.last_snapshot_include_index - 1)
    → entry_at a i ≡ entry_at b i
same_entry_at a b i ha hb la ra lb rb e =
    let (x, p, q) = entry_at-IsIndexed a i ha la ra in
    let (y, r, t) = entry_at-IsIndexed b i hb lb rb in p ∙ ap ok (cc (sym q ∙ e ∙ t)) ∙ sym r

module _ (l f : Raft) (server next now : ℕ) (args : AppendEntriesArgs) (vl : IsValid l)
    (vf : IsValid f) (sent : Sends l server next (send_entries server args))
    (hi : next ≤ get_last_log_index l + 1) (not_stale : f.current_term ≤ l.current_term)
    (above : f.last_snapshot_include_index ≤ args.prev_log_index)
    (below : args.prev_log_index ≤ get_last_log_index f)
    (same_term : get_log_term_from_log_index f args.prev_log_index ≡ ok args.prev_log_term) where
  sent-Matches : Matches f args
  sent-Matches = record {
    not_stale = omega (arith, sent.5);
    above = above;
    below = below;
    same_term = same_term;
    follow = Sends-Contiguous l server next args vl hi sent;
  }

  after : Raft
  after = persist (matched_node f now args vf sent-Matches)

  length-sent : args.prev_log_index + length args.entries ≡ get_last_log_index l
  length-sent = omega (
    arith,
    ap length sent.4,
    length-drop (args.prev_log_index - l.last_snapshot_include_index) l.logs,
    get_last_log_index-IsIndexed l vl.indexed,
  )

  logs-after :
      (after.logs ≡ splice (offset f args) args.entries f.logs)
      × (after.last_snapshot_include_index ≡ f.last_snapshot_include_index)
  unfolding after persist
  logs-after = (refl, refl)

  last-after :
      get_last_log_index after
      ≡ max (get_last_log_index f) (args.prev_log_index + length args.entries)
  unfolding after
  last-after =
      get_last_log_index-persist (matched_node f now args vf sent-Matches)
      ∙ get_last_log_index-with_commit (with_entries f now args) args.leader_commit
      ∙ get_last_log_index-with_entries f now args vf sent-Matches

  after-IsValid : IsValid after
  unfolding after
  after-IsValid = matched_node-IsValid f now args vf sent-Matches

  -- The same position of the new entries, seen from either log.
  get_elem?-after :
      (i : ℕ)
      → next ≤ i
      → i ≤ get_last_log_index l
      → get_elem? after.logs (i - after.last_snapshot_include_index - 1)
        ≡ get_elem? l.logs (i - l.last_snapshot_include_index - 1)
  get_elem?-after i lo up =
      let j = i - args.prev_log_index - 1 in
      let here : i - f.last_snapshot_include_index - 1 ≡ offset f args + j = omega arith in
      let there : i - l.last_snapshot_include_index - 1
          ≡ args.prev_log_index - l.last_snapshot_include_index + j =
        omega arith in
      rw (logs-after.0, logs-after.1, here, there)
        (get_elem?-splice (offset f args) j args.entries f.logs
            (omega (arith, get_last_log_index-IsIndexed f vf.indexed)) (omega (arith, length-sent))
          ∙ ap (λ es. get_elem? es j) sent.4
          ∙ get_elem?-drop (args.prev_log_index - l.last_snapshot_include_index) j l.logs)

  entry_at-after : (i : ℕ) → next ≤ i → i ≤ get_last_log_index l → entry_at after i ≡ entry_at l i
  entry_at-after i lo up =
      same_entry_at after l i after-IsValid.indexed vl.indexed (omega (arith, logs-after.1))
        (omega (arith, last-after, length-sent)) (omega arith) up (get_elem?-after i lo up)

  -- A valid follower of no larger term, whose log has the request's previous index, at or above its
  -- snapshot, with the leader's term there, and no entry that has the term and not the command of a
  -- new one in its place, accepts the entries that a valid leader's heartbeat sends it from an index
  -- at most one above its last: it reports success, is valid again, and at every index from that one
  -- to the end of the leader's log it then holds the leader's entry.
  pub append_entries-agreement :
      agrees (drop (offset f args) f.logs) args.entries ≡ true
      → Returns (append_entries f now args) λ p.
        (p.1.success ≡ true)
        × IsValid p.0
        × ((i : ℕ) → next ≤ i → i ≤ get_last_log_index l → entry_at p.0 i ≡ entry_at l i)
  unfolding after
  append_entries-agreement fine =
      rw (append_entries_matched f now args vf sent-Matches, fine)
        (refl, after-IsValid, entry_at-after)
