-- ===== src/Raft/Log/Indexing.antt =====
-- A log whose indices follow one another is read at a position: raftCore/raft.cpp.
use rpc_storage_cpp.Common.{
  zero, ◌++◌, drop, subst, ◌==◌, Bool-cases, inl, inr, ℕ, suc, ◌+◌, ◌-◌, ◌≤◌, ◌<◌, ◌≡◌, refl, List,
  [], ◌∷◌, some, arith, length, get_elem?, get_elem?-lt, ok,
}
use rpc_storage_cpp.Raft.State.{Raft, LogEntry}
use rpc_storage_cpp.Raft.Log.{get_log_term_from_log_index, last_of, get_last_log_index, entry_at}

-- The entries' indices are n, n + 1, and so on.
abbrev pub Contiguous : ℕ → List LogEntry → Type 0
Contiguous n [] = Unit {0}
Contiguous n (e ∷ es) = (e.log_index ≡ n) × Contiguous (suc n) es

-- The log starts just above the snapshot.
abbrev pub IsIndexed : Raft → Type 0
IsIndexed s = Contiguous (suc s.last_snapshot_include_index) s.logs

last_of-Contiguous :
    (n i t : ℕ) (es : List LogEntry)
    → i ≡ n
    → Contiguous (suc n) es
    → (last_of (i, t) es).0 ≡ n + length es
last_of-Contiguous n i t [] e h = omega arith
last_of-Contiguous n i t (x ∷ es) e h =
    omega (arith, last_of-Contiguous (suc n) x.log_index x.log_term es h.0 h.1)

pub get_last_log_index-IsIndexed :
    (s : Raft) → IsIndexed s → get_last_log_index s ≡ s.last_snapshot_include_index + length s.logs
unfolding get_last_log_index
get_last_log_index-IsIndexed s h = last_of-Contiguous _ _ s.last_snapshot_include_term s.logs refl h

-- In an indexed log the entry of index i stands at position i - snapshot index - 1.
pub entry_at-IsIndexed :
    (s : Raft) (i : ℕ)
    → IsIndexed s
    → s.last_snapshot_include_index < i
    → i ≤ get_last_log_index s
    → (e : LogEntry) × (entry_at s i ≡ ok e)
      × (get_elem? s.logs (i - s.last_snapshot_include_index - 1) ≡ some e)
unfolding entry_at
entry_at-IsIndexed s i h lo hi =
    let (e, p) =
      get_elem?-lt s.logs (i - s.last_snapshot_include_index - 1)
        (omega (arith, get_last_log_index-IsIndexed s h)) in
    (e, ground arith, p)

pub Contiguous-append :
    (n : ℕ) (xs ys : List LogEntry)
    → Contiguous n xs
    → Contiguous (n + length xs) ys
    → Contiguous n (xs ++ ys)
Contiguous-append n [] ys hx hy = subst (λ k. Contiguous k ys) (omega arith) hy
Contiguous-append n (x ∷ xs) ys hx hy =
    (hx.0, Contiguous-append (suc n) xs ys hx.1 (subst (λ k. Contiguous k ys) (omega arith) hy))

pub Contiguous-split :
    (n : ℕ) (xs ys : List LogEntry)
    → Contiguous n (xs ++ ys)
    → Contiguous n xs × Contiguous (n + length xs) ys
Contiguous-split n [] ys h = (tt, subst (λ k. Contiguous k ys) (omega arith) h)
Contiguous-split n (x ∷ xs) ys h =
    let (p, q) = Contiguous-split (suc n) xs ys h.1 in
    ((h.0, p), subst (λ k. Contiguous k ys) (omega arith) q)

pub Contiguous-drop :
    (n k : ℕ) (xs : List LogEntry)
    → k ≤ length xs
    → Contiguous n xs
    → Contiguous (n + k) (drop k xs)
Contiguous-drop n zero xs b h = subst (λ j. Contiguous j xs) (omega arith) h
Contiguous-drop n (suc k) [] b h = absurd (omega arith)
Contiguous-drop n (suc k) (x ∷ xs) b h =
    subst (λ j. Contiguous j (drop k xs)) (omega arith)
      (Contiguous-drop (suc n) k xs (omega arith) h.1)

pub get_elem?-Contiguous :
    (n k : ℕ) (xs : List LogEntry) (e : LogEntry)
    → Contiguous n xs
    → get_elem? xs k ≡ some e
    → e.log_index ≡ n + k
get_elem?-Contiguous n k [] e h p = cc
get_elem?-Contiguous n zero (x ∷ xs) e h p = ground arith
get_elem?-Contiguous n (suc k) (x ∷ xs) e h p =
    omega (arith, get_elem?-Contiguous (suc n) k xs e h.1 p)

-- Between the snapshot and the last entry, the term of an index is found.
pub get_log_term-IsIndexed :
    (s : Raft) (i : ℕ)
    → IsIndexed s
    → s.last_snapshot_include_index ≤ i
    → i ≤ get_last_log_index s
    → (t : ℕ) × (get_log_term_from_log_index s i ≡ ok t)
unfolding get_log_term_from_log_index
get_log_term-IsIndexed s i h lo hi = elim (Bool-cases (i == s.last_snapshot_include_index)) [
  | inl e ↦ (s.last_snapshot_include_term, ground arith)
  | inr e ↦
      let (x, p, q) = entry_at-IsIndexed s i h (ground arith) hi in (x.log_term, ground (arith, p))
]
