-- ===== src/SkipList/Nodes/Search.antt =====
-- What a search and a dump return: skipList/include/skipList.h, `search_element` and `dump_file`.
use rpc_storage_cpp.Common.{
  Bool-cases, Bytes, bytes_eq, bytes_eq→eq, length, length-append, ok, ℕ, zero, suc, ◌+◌, ◌≤◌, ◌≡◌,
  refl, ap, subst, inl, inr, false, none, some, List, [], ◌∷◌, ◌++◌, map, arith,
}
use rpc_storage_cpp.SkipList.Nodes.Walk.{
  last_at-Stands, Stands-of_Chain, forward_at-Stands, Chain-right,
}
use rpc_storage_cpp.SkipList.Nodes.Descend.{get_elem?-lasts, descend-lasts, lasts}
use rpc_storage_cpp.SkipList.Order.{bytes_lt_trans, bytes_lt-eq, bytes_lt}
use rpc_storage_cpp.SkipList.{lookup}
use rpc_storage_cpp.SkipList.Nodes.{found, SkipList, entries, collect, search_element, load, find}
use rpc_storage_cpp.SkipList.Nodes.Shape.{
  last_at, Pairs-right, header_cell, All-map, Chain, Shape, Before, Below, first_at, Pairs,
  NotBelow, All, Cell,
}

-- The keys and values in order.
abbrev pub pairs : List Cell → List (Bytes × Bytes)
pairs cs = map (λ (c : Cell). (c.key, c.value)) cs

-- The cells below a key stand in front of all others.
pub record Split (key : Bytes) (cs as_ bs : List Cell) : Type 0 where
  pub whole : cs ≡ as_ ++ bs
  pub low : All (Below key) as_
  pub high : All (NotBelow key) bs

NotBelow-after : (key : Bytes) (c d : Cell) → NotBelow key c → Before c d → NotBelow key d
NotBelow-after key c d h k = elim (Bool-cases (bytes_lt d.key key)) [
  | inl e ↦ absurd (cc (h, bytes_lt_trans c.key d.key key k.0 e))
  | inr e ↦ e
]

pub split :
    (key : Bytes) (cs : List Cell)
    → Pairs Before cs
    → (as_ : List Cell) × (bs : List Cell) × Split key cs as_ bs
split key [] h = ([], [], record { whole = refl; low = tt; high = tt })
split key (c ∷ cs) h = elim (Bool-cases (bytes_lt c.key key)) [
  | inl e ↦
      let (as_, bs, p) = split key cs h.1 in
      (c ∷ as_, bs, record { whole = ap (λ r. c ∷ r) p.whole; low = (e, p.low); high = p.high })
  | inr e ↦ (
    [],
    c ∷ cs,
    record {
      whole = refl;
      low = tt;
      high = (e, All-map (Before c) (NotBelow key) cs (λ d k. NotBelow-after key c d e k) h.0);
    },
  )
]

-- `update` and the pointer behind the cells below the key.
pub find-lasts :
    (s : SkipList) (key : Bytes) (as_ bs : List Cell)
    → Shape s (as_ ++ bs)
    → All (Below key) as_
    → All (NotBelow key) bs
    → find s key ≡ ok (lasts s.skip_list_level (header_cell s) as_, first_at 0 bs)
unfolding find
find-lasts s key as_ bs h lo hi =
    let c = header_cell s in
    let update =
      descend-lasts s key (s.element_count + 1) s.skip_list_level c as_ bs h.chain h.highest lo hi
        (omega (arith, h.counted, length-append as_ bs)) in
    let stands =
      last_at-Stands s 0 c as_ bs (Stands-of_Chain s 0 c (as_ ++ bs) h.chain (omega arith))
        h.chain.2 in
    rw
      (
        update,
        get_elem?-lasts s.skip_list_level 0 c as_ (omega arith),
        forward_at-Stands s 0 (last_at 0 c as_) bs stands,
      )
      refl

pub first_at-zero : (b : Cell) (bs : List Cell) → first_at 0 (b ∷ bs) ≡ some b.address
first_at-zero b bs = ground arith

pub lookup-low :
    (key : Bytes) (as_ bs : List Cell)
    → All (Below key) as_
    → lookup key (pairs (as_ ++ bs)) ≡ lookup key (pairs bs)
unfolding lookup
lookup-low key [] bs h = refl
lookup-low key (a ∷ as_) bs h = rw (bytes_lt-eq a.key key h.0) (lookup-low key as_ bs h.1)

pub lookup-none :
    (key : Bytes) (bs : List Cell)
    → All (λ b. bytes_eq b.key key ≡ false) bs
    → lookup key (pairs bs) ≡ none
unfolding lookup
lookup-none key [] h = refl
lookup-none key (b ∷ bs) h = rw (h.0) (lookup-none key bs h.1)

pub other-key :
    (key : Bytes) (c d : Cell) → NotBelow key c → Before c d → bytes_eq d.key key ≡ false
other-key key c d h k = elim (Bool-cases (bytes_eq d.key key)) [
  | inl e ↦ absurd (cc (h, k.0, bytes_eq→eq d.key key e))
  | inr e ↦ e
]

found-lookup :
    (s : SkipList) (key : Bytes) (bs : List Cell)
    → Chain s bs
    → Pairs Before bs
    → All (NotBelow key) bs
    → found s key (first_at 0 bs) ≡ ok (lookup key (pairs bs))
unfolding load lookup
found-lookup s key [] h o k = refl
found-lookup s key (b ∷ bs) h o k = elim (Bool-cases (bytes_eq b.key key)) [
  | inl e ↦ rw (first_at-zero b bs, h.0, e) refl
  | inr e ↦
      let rest = lookup-none key bs (
        All-map (Before b) (λ d. bytes_eq d.key key ≡ false) bs (λ d r. other-key key b d k.0 r)
          o.0) in
      rw (first_at-zero b bs, h.0, e, rest) refl
]

-- A search in a list of a given shape reads no memory outside it, ends, and returns what the list of
-- the shape's keys and values holds for the key.
pub search_element-lookup :
    (s : SkipList) (cs : List Cell) (key : Bytes)
    → Shape s cs
    → search_element s key ≡ ok (lookup key (pairs cs))
unfolding search_element
search_element-lookup s cs key h =
    let (as_, bs, p) = split key cs h.ordered in
    let shape : Shape s (as_ ++ bs) = subst (Shape s) p.whole h in
    rw (p.whole, find-lasts s key as_ bs shape p.low p.high, lookup-low key as_ bs p.low)
      (found-lookup s key bs (Chain-right s as_ bs shape.chain.2)
        (Pairs-right Before as_ bs shape.ordered) p.high)

collect-pairs :
    (s : SkipList) (cs : List Cell) (fuel : ℕ)
    → Chain s cs
    → length cs ≤ fuel
    → collect s fuel (first_at 0 cs) ≡ ok (pairs cs)
unfolding collect load
collect-pairs s [] zero h l = refl
collect-pairs s [] (suc fuel) h l = refl
collect-pairs s (c ∷ cs) zero h l = absurd (omega arith)
collect-pairs s (c ∷ cs) (suc fuel) h l =
    rw
      (
        first_at-zero c cs,
        h.0,
        forward_at-Stands s 0 c cs (Stands-of_Chain s 0 c cs h (omega arith)),
        collect-pairs s cs fuel h.2 (omega arith),
      )
      refl

-- A dump of a list of a given shape has all its keys and values, in the order of the keys.
pub entries-pairs : (s : SkipList) (cs : List Cell) → Shape s cs → entries s ≡ ok (pairs cs)
unfolding entries
entries-pairs s cs h =
    rw
      (forward_at-Stands s 0 (header_cell s) cs
        (Stands-of_Chain s 0 (header_cell s) cs h.chain (omega arith)))
      (collect-pairs s cs s.element_count h.chain.2 (omega (arith, h.counted)))
