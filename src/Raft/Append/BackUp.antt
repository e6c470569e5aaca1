-- ===== src/Raft/Append/BackUp.antt =====
-- The hint of a refusal in `AppendEntries1`, where the logs differ at `prevlogindex`:
-- raftCore/raft.cpp.
use native.Mathlib.Decide.{dec_le}
use rpc_storage_cpp.Common.{
  refl, ◌==◌, Bool-cases, Result, ok, ℕ, zero, suc, ◌+◌, ◌-◌, ◌≤◌, ◌≡◌, ap, ◌∙◌, subst, ◌≢◌, inl,
  inr, Option, none, some, arith,
}
use rpc_storage_cpp.Raft.Log.Indexing.{get_log_term-IsIndexed, IsIndexed}
use rpc_storage_cpp.Raft.Log.{get_last_log_index, get_log_term_from_log_index}
use rpc_storage_cpp.Raft.Append.{back_up}
use rpc_storage_cpp.Raft.State.{Raft}

-- The indices from `lo` to `hi` all have the term `t`.
abbrev pub AllOfTerm : Raft → (t lo hi : ℕ) → Type 0
AllOfTerm s t lo hi = (i : ℕ) → lo ≤ i → i ≤ hi → get_log_term_from_log_index s i ≡ ok t

-- The loop ends without a find, or at the first index, from above, of another term.
pub data Search (s : Raft) (t index : ℕ) : Result (Option ℕ) → Type 0 where
  nowhere : AllOfTerm s t s.last_snapshot_include_index index → Search s t index (ok none)
  at_ :
      (j u : ℕ)
      → s.last_snapshot_include_index ≤ j
      → j ≤ index
      → get_log_term_from_log_index s j ≡ ok u
      → u ≢ t
      → AllOfTerm s t (j + 1) index
      → Search s t index (ok (some (j + 1)))

AllOfTerm-extend :
    (s : Raft) (t index lo : ℕ)
    → get_log_term_from_log_index s index ≡ ok t
    → AllOfTerm s t lo (index - 1)
    → AllOfTerm s t lo index
AllOfTerm-extend s t index lo0 p all i lo hi = elim (dec_le i (index - 1)) [
  | yes q ↦ all i lo q
  | no q ↦ subst (λ k. get_log_term_from_log_index s k ≡ ok t) (omega arith) p
]

Search-extend :
    (s : Raft) (t index : ℕ) {r : Result (Option ℕ)}
    → get_log_term_from_log_index s index ≡ ok t
    → Search s t (index - 1) r
    → Search s t index r
Search-extend s t index p (nowhere all) = nowhere (AllOfTerm-extend s t index _ p all)
Search-extend s t index p (at_ j u lo hi q ne all) =
    at_ j u lo (omega arith) q ne (AllOfTerm-extend s t index _ p all)

pub back_up-Search :
    (s : Raft) (t index rounds : ℕ)
    → IsIndexed s
    → index + 1 ≡ s.last_snapshot_include_index + rounds
    → index ≤ get_last_log_index s
    → Search s t index (back_up s t index rounds)
unfolding back_up
back_up-Search s t index zero h e hi = nowhere (λ i lo up. absurd (omega arith))
back_up-Search s t index (suc zero) h e hi =
    let (u, p) = get_log_term-IsIndexed s index h (omega arith) hi in
    elim (Bool-cases (u == t)) [
      | inl same ↦
          rw (p, same)
            (nowhere (λ i lo up.
              subst (λ k. get_log_term_from_log_index s k ≡ ok t) (omega arith)
                (p ∙ ap ok (ground arith))))
      | inr other ↦
          rw (p, other)
            (at_ index u (omega arith) (omega arith) p (ground arith)
              (λ i lo up. absurd (omega arith)))
    ]
back_up-Search s t index (suc (suc n)) h e hi =
    let (u, p) = get_log_term-IsIndexed s index h (omega arith) hi in
    let rest = back_up-Search s t (index - 1) (suc n) h (omega arith) (omega arith) in
    elim (Bool-cases (u == t)) [
      | inl same ↦ rw (p, same) (Search-extend s t index (p ∙ ap ok (ground arith)) rest)
      | inr other ↦
          rw (p, other)
            (at_ index u (omega arith) (omega arith) p (ground arith)
              (λ i lo up. absurd (omega arith)))
    ]

pub Search-ok :
    {s : Raft} {t index : ℕ} {r : Result (Option ℕ)}
    → Search s t index r
    → (found : Option ℕ) × (r ≡ ok found) × Search s t index (ok found)
Search-ok (nowhere all) = (none, refl, nowhere all)
Search-ok (at_ j u lo hi p ne all) = (some (j + 1), refl, at_ j u lo hi p ne all)
