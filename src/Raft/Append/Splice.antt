-- ===== src/Raft/Append/Splice.antt =====
-- What the loop of `AppendEntries1` over the entries does to the log: raftCore/raft.cpp.
use rpc_storage_cpp.Common.{
  drop_all, take, take-append-drop, length-take, ℕ, suc, ◌+◌, ◌-◌, ◌≤◌, ◌≡◌, refl, ap, sym, ◌∙◌,
  Bool, true, false, not, ◌&&◌, List, [], ◌∷◌, ◌++◌, some, arith, length, length-append, get_elem?,
  set, drop, if◌then◌else◌, Bool-cases, inl, inr, bytes_eq, bytes_eq→eq, ◌==◌, Result, ok, err,
  assert_failed, subst,
}
use mathlib.Core.List.{append-nil, append_assoc}
use rpc_storage_cpp.Raft.State.{Raft, LogEntry}
use rpc_storage_cpp.Raft.Log.{get_last_log_index}
use rpc_storage_cpp.Raft.Log.Indexing.{
  Contiguous, IsIndexed, get_last_log_index-IsIndexed, Contiguous-append, Contiguous-split,
}
use rpc_storage_cpp.Raft.Append.{accept_entry, accept_entries, clashes}

-- No entry has the term and not the command of the one that stands in its place.
abbrev pub agrees : List LogEntry → List LogEntry → Bool
agrees xs [] = true
agrees [] (e ∷ es) = true
agrees (x ∷ xs) (e ∷ es) = not (clashes x e) && agrees xs es

get_elem?-append :
    (xs ys : List LogEntry) (y : LogEntry) → get_elem? (xs ++ y ∷ ys) (length xs) ≡ some y
get_elem?-append [] ys y = refl
get_elem?-append (x ∷ xs) ys y = get_elem?-append xs ys y

set-append :
    (xs ys : List LogEntry) (y e : LogEntry) → set (xs ++ y ∷ ys) (length xs) e ≡ xs ++ e ∷ ys
set-append [] ys y e = refl
set-append (x ∷ xs) ys y e = ap (λ r. x ∷ r) (set-append xs ys y e)

-- Behind the last entry the new one is appended.
accept_entry-end :
    (s : Raft) (e : LogEntry)
    → IsIndexed s
    → e.log_index ≡ suc s.last_snapshot_include_index + length s.logs
    → accept_entry s e ≡ ok (record s { logs = s.logs ++ e ∷ [] })
unfolding accept_entry
accept_entry-end s e h i = ground (arith, get_last_log_index-IsIndexed s h)

same_entry :
    (x e : LogEntry)
    → x.log_index ≡ e.log_index
    → (x.log_term == e.log_term) ≡ true
    → clashes x e ≡ false
    → x ≡ e
same_entry x e i t c = ground (arith, bytes_eq→eq x.command e.command)

-- In the middle the new entry takes the place of the old one, or the process ends.
accept_entry-middle :
    (s : Raft) (pre post : List LogEntry) (x e : LogEntry)
    → s.logs ≡ pre ++ x ∷ post
    → IsIndexed s
    → e.log_index ≡ suc s.last_snapshot_include_index + length pre
    → accept_entry s e
      ≡ (if clashes x e then err assert_failed else ok (record s { logs = pre ++ e ∷ post }))
unfolding accept_entry
accept_entry-middle s pre post x e eq h i =
    let found : get_elem? s.logs (length pre) ≡ some x = rw eq (get_elem?-append pre post x) in
    let placed : set s.logs (length pre) e ≡ pre ++ e ∷ post = rw eq (set-append pre post x e) in
    let size : length s.logs ≡ length pre + suc (length post) =
      rw eq (length-append pre (x ∷ post)) in
    let slice : e.log_index - s.last_snapshot_include_index - 1 ≡ length pre = omega arith in
    let index : x.log_index ≡ suc s.last_snapshot_include_index + length pre =
      (Contiguous-split (suc s.last_snapshot_include_index) pre (x ∷ post)
        (subst (Contiguous (suc s.last_snapshot_include_index)) eq h)).1.0 in
    elim (Bool-cases (x.log_term == e.log_term)) [
      | inr other ↦ ground (arith, get_last_log_index-IsIndexed s h, found, placed, size, slice)
      | inl same ↦ elim (Bool-cases (bytes_eq x.command e.command)) [
        | inr clash ↦ ground (arith, get_last_log_index-IsIndexed s h, found, size, slice)
        | inl equal ↦
            let x_is_e : x ≡ e = same_entry x e (omega arith) same (ground arith) in
            let kept : record s { logs = pre ++ e ∷ post } ≡ s =
              ap (λ l. record s { logs = l }) (ap (λ y. pre ++ y ∷ post) (sym x_is_e) ∙ sym eq) in
            ground (arith, get_last_log_index-IsIndexed s h, found, size, slice, kept)
      ]
    ]

agrees-nil : (es : List LogEntry) → agrees [] es ≡ true
agrees-nil [] = refl
agrees-nil (e ∷ es) = refl

drop-nil : (n : ℕ) → ◌≡◌ {A = List LogEntry} (drop n []) []
drop-nil n = drop_all n [] (omega arith)

extended :
    (pre es rest : List LogEntry) (e : LogEntry)
    → (pre ++ e ∷ []) ++ es ++ rest ≡ pre ++ (e ∷ es) ++ rest
extended pre es rest e = ap (λ l. l ++ rest) (append_assoc pre (e ∷ []) es)

-- What the loop leaves at a position of the log, or the end of the process.
abbrev pub spliced : Raft → (pre post es : List LogEntry) → Result Raft
spliced s pre post es =
    if agrees post es
    then ok (record s { logs = pre ++ es ++ drop (length es) post })
    else err assert_failed

-- The loop from a position of the log on.
accept_entries-from :
    (s : Raft) (pre post es : List LogEntry)
    → s.logs ≡ pre ++ post
    → IsIndexed s
    → Contiguous (suc s.last_snapshot_include_index + length pre) es
    → accept_entries s es ≡ spliced s pre post es
unfolding accept_entries
accept_entries-from s pre post [] eq h c =
    ap ok (ap (λ l. record s { logs = l }) (eq ∙ ap (λ r. r ++ post) (sym (append-nil pre))))
accept_entries-from s pre [] (e ∷ es) eq h c =
    let whole : s.logs ≡ pre = eq ∙ append-nil pre in
    let size : length s.logs ≡ length pre = ap length whole in
    let t : Raft = record s { logs = s.logs ++ e ∷ [] } in
    let split : t.logs ≡ (pre ++ e ∷ []) ++ [] =
      ap (λ l. l ++ e ∷ []) whole ∙ sym (append-nil (pre ++ e ∷ [])) in
    let indexed : IsIndexed t =
      Contiguous-append (suc s.last_snapshot_include_index) s.logs (e ∷ []) h
        (subst (λ k. Contiguous k (e ∷ [])) (omega arith) (c.0, tt)) in
    let rest =
      accept_entries-from t (pre ++ e ∷ []) [] es split indexed
        (subst (λ k. Contiguous k es) (omega (arith, length-append pre (e ∷ []))) c.1) in
    rw (accept_entry-end s e h (omega arith))
      (rest ∙ rw (agrees-nil es, drop-nil (length es), extended pre es [] e))
accept_entries-from s pre (x ∷ post) (e ∷ es) eq h c =
    let t : Raft = record s { logs = pre ++ e ∷ post } in
    let parts =
      Contiguous-split (suc s.last_snapshot_include_index) pre (x ∷ post)
        (subst (Contiguous (suc s.last_snapshot_include_index)) eq h) in
    let indexed : IsIndexed t =
      Contiguous-append (suc s.last_snapshot_include_index) pre (e ∷ post) parts.0
        (c.0, parts.1.1) in
    let rest =
      accept_entries-from t (pre ++ e ∷ []) post es (sym (append_assoc pre (e ∷ []) post)) indexed
        (subst (λ k. Contiguous k es) (omega (arith, length-append pre (e ∷ []))) c.1) in
    elim (Bool-cases (clashes x e)) [
      | inl clash ↦ rw (accept_entry-middle s pre post x e eq h c.0, clash)
      | inr fine ↦
          rw (accept_entry-middle s pre post x e eq h c.0, fine)
            (rest ∙ rw (extended pre es (drop (length es) post) e))
    ]

-- In a log whose indices follow the snapshot's one by one, if the entries follow one another from
-- behind an index between the snapshot and the end of the log, the loop puts them in the place of
-- as many entries there, appends what goes beyond the end, and keeps what stands behind them; if one
-- of them has the term and not the command of the entry in its place, the process ends.
pub accept_entries-splice :
    (s : Raft) (prev : ℕ) (es : List LogEntry)
    → IsIndexed s
    → s.last_snapshot_include_index ≤ prev
    → prev ≤ get_last_log_index s
    → Contiguous (suc prev) es
    → accept_entries s es
      ≡ spliced s
          (take (prev - s.last_snapshot_include_index) s.logs)
          (drop (prev - s.last_snapshot_include_index) s.logs)
          es
accept_entries-splice s prev es h lo hi c =
    accept_entries-from s _ _ es
      (sym (take-append-drop (prev - s.last_snapshot_include_index) s.logs)) h
      (subst (λ k. Contiguous k es)
        (omega (
          arith,
          get_last_log_index-IsIndexed s h,
          length-take (prev - s.last_snapshot_include_index) s.logs,
        ))
        c)
