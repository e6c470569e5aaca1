-- ===== src/SkipList/Nodes/Descend.antt =====
-- The array `update` that the loops over the levels fill: skipList/include/skipList.h.
use native.Mathlib.Decide.{dec_le}
use rpc_storage_cpp.Common.{
  leb, if◌then◌else◌, Bool-cases, Bytes, length, get_elem?, length-append, get_elem?-append_right,
  get_elem?-append_left, ok, ℕ, zero, suc, ◌+◌, ◌≤◌, ◌<◌, ◌≡◌, refl, sym, ap, ◌∙◌, subst, ◌⊎◌, inl,
  inr, true, some, List, [], ◌∷◌, ◌++◌, arith,
}
use rpc_storage_cpp.SkipList.Nodes.Walk.{Stands-of_Chain, walk-last_at}
use rpc_storage_cpp.SkipList.Nodes.Shape.{NotBelow, Below, All, first_at, Chain, last_at, Cell}
use rpc_storage_cpp.SkipList.Nodes.{SkipList, descend}

-- What is behind the last cell that is high enough, if there is one.
pub record Picked (i : ℕ) (as_ : List Cell) (e : Cell) (rest : List Cell) : Type 0 where
  pub last : (c : Cell) → last_at i c as_ ≡ e
  pub lower : (j : ℕ) (c : Cell) → j ≤ i → last_at j c as_ ≡ last_at j e rest
  pub high : i ≤ e.level
  pub first : (bs cs : List Cell) → first_at i (as_ ++ bs) ≡ first_at i (as_ ++ cs)
  pub chain : (s : SkipList) (bs : List Cell) → Chain s (as_ ++ bs) → Chain s (e ∷ rest ++ bs)
  pub below : (key : Bytes) → All (Below key) as_ → All (Below key) rest
  pub shorter : length rest ≤ length as_

-- No cell is high enough.
pub record Missed (i : ℕ) (as_ : List Cell) : Type 0 where
  pub last : (c : Cell) → last_at i c as_ ≡ c
  pub first : (bs : List Cell) → first_at i (as_ ++ bs) ≡ first_at i bs

pub pick :
    (i : ℕ) (as_ : List Cell)
    → Missed i as_ ⊎ ((e : Cell) × (rest : List Cell) × Picked i as_ e rest)
pick i [] = inl (record { last = λ c. refl; first = λ bs. refl })
pick i (a ∷ as_) = elim (pick i as_) [
  | inr (e, rest, p) ↦ inr (
    e,
    rest,
    record {
      last = λ c. p.last (if leb i a.level then a else c);
      lower = λ j c h. p.lower j (if leb j a.level then a else c) h;
      high = p.high;
      first = λ bs cs. ap (λ r. if leb i a.level then some a.address else r) (p.first bs cs);
      chain = λ s bs h. p.chain s bs h.2;
      below = λ key h. p.below key h.1;
      shorter = omega (arith, p.shorter);
    },
  )
  | inl m ↦ elim (Bool-cases (leb i a.level)) [
    | inl e ↦ inr (
      a,
      as_,
      record {
        last = λ c. m.last (if leb i a.level then a else c) ∙ rw e refl;
        lower = λ j c h.
            let up : leb j a.level ≡ true = ground arith in
            ap (λ b. last_at j (if b then a else c) as_) up;
        high = ground arith;
        first = λ bs cs. rw e refl;
        chain = λ s bs h. h;
        below = λ key h. h.1;
        shorter = omega arith;
      },
    )
    | inr e ↦ inl (record {
      last = λ c. m.last (if leb i a.level then a else c) ∙ rw e refl;
      first = λ bs. ap (λ b. if b then some a.address else first_at i (as_ ++ bs)) e ∙ m.first bs;
    })
  ]
]

-- The addresses of the last cells of levels 0 to n.
abbrev pub lasts : (n : ℕ) → Cell → List Cell → List ℕ
lasts zero c as_ = (last_at 0 c as_).address ∷ []
lasts (suc n) c as_ = lasts n c as_ ++ (last_at (suc n) c as_).address ∷ []

lasts-eq :
    (n : ℕ) (c e : Cell) (as_ rest : List Cell)
    → ((j : ℕ) → j ≤ n → last_at j c as_ ≡ last_at j e rest)
    → lasts n e rest ≡ lasts n c as_
lasts-eq zero c e as_ rest h = ap (λ (d : Cell). d.address ∷ []) (sym (h 0 (omega arith)))
lasts-eq (suc n) c e as_ rest h =
    ap (λ us. us ++ (last_at (suc n) e rest).address ∷ [])
      (lasts-eq n c e as_ rest (λ j l. h j (omega arith)))
    ∙ ap (λ (d : Cell). lasts n c as_ ++ d.address ∷ []) (sym (h (suc n) (omega arith)))

pub descend-lasts :
    (s : SkipList) (key : Bytes) (fuel n : ℕ) (c : Cell) (as_ bs : List Cell)
    → Chain s (c ∷ as_ ++ bs)
    → n ≤ c.level
    → All (Below key) as_
    → All (NotBelow key) bs
    → length as_ < fuel
    → descend s key fuel n c.address ≡ ok (lasts n c as_)
unfolding descend
descend-lasts s key fuel zero c as_ bs k l lo hi f =
    rw (walk-last_at s key 0 fuel c as_ bs (Stands-of_Chain s 0 c (as_ ++ bs) k l) k.2 lo hi f) refl
descend-lasts s key fuel (suc n) c as_ bs k l lo hi f =
    let first =
      walk-last_at s key (suc n) fuel c as_ bs (Stands-of_Chain s (suc n) c (as_ ++ bs) k l) k.2 lo
        hi f in
    elim (pick (suc n) as_) [
      | inl m ↦
          rw (first, m.last c, descend-lasts s key fuel n c as_ bs k (omega arith) lo hi f) refl
      | inr (e, rest, p) ↦
          let same = lasts-eq n c e as_ rest (λ j h. p.lower j c (omega arith)) in
          let below_ =
            descend-lasts s key fuel n e rest bs (p.chain s bs k.2) (omega (arith, p.high))
              (p.below key lo) hi (omega (arith, p.shorter)) in
          rw (first, p.last c, below_, same) refl
    ]

pub length-lasts : (n : ℕ) (c : Cell) (as_ : List Cell) → length (lasts n c as_) ≡ n + 1
length-lasts zero c as_ = omega arith
length-lasts (suc n) c as_ =
    length-append (lasts n c as_) ((last_at (suc n) c as_).address ∷ [])
    ∙ omega (arith, length-lasts n c as_)

pub get_elem?-lasts :
    (n i : ℕ) (c : Cell) (as_ : List Cell)
    → i ≤ n
    → get_elem? (lasts n c as_) i ≡ some (last_at i c as_).address
get_elem?-lasts zero i c as_ h = let e : i ≡ 0 = omega arith in rw e refl
get_elem?-lasts (suc n) i c as_ h = elim (dec_le i n) [
  | yes l ↦
      get_elem?-append_left (lasts n c as_) ((last_at (suc n) c as_).address ∷ []) i
        (omega (arith, length-lasts n c as_))
      ∙ get_elem?-lasts n i c as_ l
  | no m ↦
      let e : i ≡ length (lasts n c as_) + 0 = omega (arith, length-lasts n c as_) in
      let f : i ≡ suc n = omega arith in
      subst
        (λ k.
          get_elem? (lasts n c as_ ++ (last_at (suc n) c as_).address ∷ []) k
          ≡ some (last_at (suc n) c as_).address)
        (sym e) (get_elem?-append_right (lasts n c as_) ((last_at (suc n) c as_).address ∷ []) 0)
      ∙ rw f refl
]
