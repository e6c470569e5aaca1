-- ===== src/SkipList/Nodes/Unlink.antt =====
-- The loops of `delete_element` that take a node out and lower the highest level:
-- skipList/include/skipList.h.
use native.Mathlib.Decide.{ℕ_discrete}
use rpc_storage_cpp.Common.{
  ltb, leb, ◌==◌, if◌then◌else◌, Bool-cases, Option-cases, get_elem?, ok, ℕ, zero, suc, ◌+◌, ◌≤◌,
  ◌<◌, ◌≡◌, refl, ◌∙◌, ◌≢◌, inl, inr, true, false, ◌&&◌, Option, none, some, List, [], ◌∷◌, arith,
}
use rpc_storage_cpp.SkipList.Nodes.Link.{set_forward-Reaches, forward_at-Reaches, Reaches}
use rpc_storage_cpp.SkipList.Nodes.Shape.{All, first_at, Cell}
use rpc_storage_cpp.SkipList.Nodes.{
  set_forward, header, points_to, forward_at, SkipList, lower, unlink, write,
}

-- The pointers after some rounds.
abbrev pub unlinked : (ℕ → ℕ → Option ℕ) → (update : ℕ → ℕ) → (a i n : ℕ) → ℕ → ℕ → Option ℕ
unlinked f update a i zero = f
unlinked f update a i (suc n) = unlinked (write f (update i) i (f a i)) update a (i + 1) n

stop_round :
    (s : SkipList) (us : List ℕ) (a i n u : ℕ) (p : Option ℕ)
    → get_elem? us i ≡ some u
    → forward_at s u i ≡ ok p
    → points_to p a ≡ false
    → unlink s us a i (suc n) ≡ ok s
unfolding unlink
stop_round s us a i n u p e f g = ground (arith, e, f, g)

go_round :
    (s t : SkipList) (us : List ℕ) (a i n u : ℕ) (p q : Option ℕ)
    → get_elem? us i ≡ some u
    → forward_at s u i ≡ ok p
    → points_to p a ≡ true
    → forward_at s a i ≡ ok q
    → set_forward s u i q ≡ ok t
    → unlink s us a i (suc n) ≡ unlink t us a (i + 1) n
unfolding unlink
go_round s t us a i n u p q e f g k l = ground (arith, e, f, g, k, l)

-- The loop stops at the first level on which the node is not pointed to, which is `m` levels up.
pub unlink-unlinked :
    (s : SkipList) (us : List ℕ) (update : ℕ → ℕ) (a i m n : ℕ)
    → m ≤ n
    → ((j : ℕ) → j < i + n → get_elem? us j ≡ some (update j))
    → ((j : ℕ) → j < i + n → Reaches s (update j) j)
    → ((j : ℕ) → j < i + m → Reaches s a j)
    → ((j : ℕ) → i ≤ j → j < i + m → s.forward (update j) j ≡ some a)
    → ((j : ℕ) → j ≡ i + m → j < i + n → points_to (s.forward (update j) j) a ≡ false)
    → unlink s us a i n ≡ ok (record s { forward = unlinked s.forward update a i m })
unfolding unlink
unlink-unlinked s us update a i zero zero l e h k p q = refl
unlink-unlinked s us update a i zero (suc n) l e h k p q =
    stop_round s us a i n (update i) (s.forward (update i) i) (e i (omega arith))
      (forward_at-Reaches s (update i) i (h i (omega arith))) (q i (omega arith) (omega arith))
unlink-unlinked s us update a i (suc m) zero l e h k p q = absurd (omega arith)
unlink-unlinked s us update a i (suc m) (suc n) l e h k p q =
    let t : SkipList = record s { forward = write s.forward (update i) i (s.forward a i) } in
    let here : points_to (s.forward (update i) i) a ≡ true =
      ground (arith, p i (omega arith) (omega arith)) in
    go_round s t us a i n (update i) (s.forward (update i) i) (s.forward a i) (e i (omega arith))
      (forward_at-Reaches s (update i) i (h i (omega arith))) here
      (forward_at-Reaches s a i (k i (omega arith)))
      (set_forward-Reaches s (update i) i (s.forward a i) (h i (omega arith)))
    ∙ unlink-unlinked t us update a (i + 1) m n (omega arith) (λ j x. e j (omega arith))
        (λ j x. h j (omega arith)) (λ j x. k j (omega arith))
        (λ j x y. ground (arith, p j (omega arith) (omega arith)))
        (λ j x y. ground (arith, q j (omega arith) (omega arith)))

-- What the pointers are afterwards.
pub unlinked-at :
    (f : ℕ → ℕ → Option ℕ) (update : ℕ → ℕ) (a i n b j : ℕ)
    → ((k : ℕ) → update k ≢ a)
    → unlinked f update a i n b j
      ≡ (if (leb i j && ltb j (i + n)) && b == update j then f a j else f b j)
unlinked-at f update a i zero b j h = ground arith
unlinked-at f update a i (suc n) b j h =
    unlinked-at (write f (update i) i (f a i)) update a (i + 1) n b j h ∙ elim (ℕ_discrete i j) [
      | yes e ↦ ground (arith, e, h i)
      | no ne ↦ ground (arith, ne, h i, h j)
    ]

first_at-none : (i : ℕ) (cs : List Cell) → first_at (suc i) cs ≡ none → All (λ c. c.level ≤ i) cs
first_at-none i [] e = tt
first_at-none i (c ∷ cs) e = elim (Bool-cases (leb (suc i) c.level)) [
  | inl up ↦ absurd (ground (arith, e, up))
  | inr low ↦ (ground arith, first_at-none i cs (ground (arith, e, low)))
]

-- The new highest level is still not below any cell.
pub lower-le :
    (s : SkipList) (cs : List Cell) (n : ℕ)
    → ((i : ℕ) → i ≤ n → forward_at s header i ≡ ok (first_at i cs))
    → All (λ c. c.level ≤ n) cs
    → (k : ℕ) × (lower s n ≡ ok k) × (k ≤ n) × All (λ c. c.level ≤ k) cs
unfolding lower
lower-le s cs zero p h = (0, refl, omega arith, h)
lower-le s cs (suc n) p h = elim (Option-cases (first_at (suc n) cs)) [
  | inl e ↦
      let (k, q, l, g) = lower-le s cs n (λ i m. p i (omega arith)) (first_at-none n cs e) in
      (k, rw (p (suc n) (omega arith), e) q, omega arith, g)
  | inr (a, e) ↦ (suc n, rw (p (suc n) (omega arith), e) refl, omega arith, h)
]
