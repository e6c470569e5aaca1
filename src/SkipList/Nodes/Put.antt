-- ===== src/SkipList/Nodes/Put.antt =====
-- `insert_element` against insertion into an association list in the order of its keys:
-- skipList/include/skipList.h.
use rpc_storage_cpp.Common.{
  if◌then◌else◌, Bool-cases, Bytes, bytes_eq, Returns, ok, ℕ, ◌≤◌, ◌≡◌, refl, sym, ap, ◌∙◌, subst,
  ◌≢◌, inl, inr, true, false, none, some, List, [], ◌∷◌, ◌++◌, arith,
}
use rpc_storage_cpp.SkipList.Nodes.Insert.{inserted-unused, inserted-Shape, insert_node-inserted}
use rpc_storage_cpp.SkipList.Nodes.Walk.{Chain-right}
use rpc_storage_cpp.SkipList.{lookup}
use rpc_storage_cpp.SkipList.Laws.{is_some}
use rpc_storage_cpp.SkipList.Nodes.Search.{
  other-key, lookup-none, split, lookup-low, find-lasts, first_at-zero, pairs,
}
use rpc_storage_cpp.SkipList.Nodes.Shape.{
  Pairs-right, All-map, NotBelow, first_at, Before, Below, Shape, Pairs, Chain, All, Cell,
}
use rpc_storage_cpp.SkipList.Nodes.{insert_element, holds_key, SkipList, load, get_random_level}
use rpc_storage_cpp.SkipList.Order.{bytes_lt_trans, bytes_lt_total, bytes_lt}

-- The pair in its place, unless the key is there.
unfoldable pub put_new : Bytes → Bytes → List (Bytes × Bytes) → List (Bytes × Bytes)
put_new key value [] = (key, value) ∷ []
put_new key value ((j, w) ∷ r) =
    let rest = put_new key value r in
    if bytes_lt j key
    then (j, w) ∷ rest
    else if bytes_eq j key
    then (j, w) ∷ r
    else (key, value) ∷ (j, w) ∷ r

-- No random level is above the highest.
pub get_random_level-le : (s : SkipList) (odds : ℕ) → get_random_level s odds ≤ s.max_level
unfolding get_random_level
get_random_level-le s odds = ground arith

put_new-low :
    (key value : Bytes) (as_ bs : List Cell) (r : List Cell)
    → All (Below key) as_
    → put_new key value (pairs bs) ≡ pairs r
    → put_new key value (pairs (as_ ++ bs)) ≡ pairs (as_ ++ r)
unfolding put_new
put_new-low key value [] bs r h e = e
put_new-low key value (a ∷ as_) bs r h e = rw (h.0, put_new-low key value as_ bs r h.1 e) refl

pub holds_key-head :
    (s : SkipList) (key : Bytes) (b : Cell) (bs : List Cell)
    → Chain s (b ∷ bs)
    → holds_key s key (first_at 0 (b ∷ bs)) ≡ ok (bytes_eq b.key key)
unfolding load
holds_key-head s key b bs h = rw (first_at-zero b bs, h.0) refl

-- A key that is not that of the first cell behind the place is below all of them.
above-head :
    (key : Bytes) (c : Cell) (bs : List Cell)
    → Pairs Before (c ∷ bs)
    → NotBelow key c
    → bytes_eq c.key key ≡ false
    → All (λ d. bytes_lt key d.key ≡ true) (c ∷ bs)
above-head key c bs o n e =
    let lt = bytes_lt_total c.key key n e in
    (
      lt,
      All-map (Before c) (λ d. bytes_lt key d.key ≡ true) bs
          (λ d k. bytes_lt_trans key c.key d.key lt k.0) o.0,
    )

-- The outcome of an insertion.
pub record Inserted (s : SkipList) (cs : List Cell) (address : ℕ) (key value : Bytes)
    (r : SkipList × ℕ) : Type 0 where
  pub cells : List Cell
  pub shape : Shape r.0 cells
  pub pairs_eq : pairs cells ≡ put_new key value (pairs cs)
  pub unused : (a : ℕ) → a ≢ address → s.nodes a ≡ none → r.0.nodes a ≡ none
  pub code : r.1 ≡ (if is_some (lookup key (pairs cs)) then 1 else 0)

module _ (s : SkipList) (odds address : ℕ) (key value : Bytes) (as_ bs : List Cell)
    (h : Shape s (as_ ++ bs)) (low : All (Below key) as_) (high : All (NotBelow key) bs)
    (free : s.nodes address ≡ none) where
  new_cell : Cell
  new_cell = record { address = address; key = key; value = value; level = get_random_level s odds }

  -- The key is not there.
  put_fresh :
      holds_key s key (first_at 0 bs) ≡ ok false
      → All (λ d. bytes_lt key d.key ≡ true) bs
      → put_new key value (pairs bs) ≡ pairs (new_cell ∷ bs)
      → lookup key (pairs bs) ≡ none
      → Returns (insert_element s odds address key value) (Inserted s (as_ ++ bs) address key value)
  unfolding insert_element new_cell
  put_fresh missing above put unknown =
      rw
        (
          find-lasts s key as_ bs h low high,
          missing,
          insert_node-inserted s as_ bs h new_cell free (get_random_level-le s odds) low above,
        )
        (record {
          cells = as_ ++ new_cell ∷ bs;
          shape = inserted-Shape s as_ bs h new_cell free (get_random_level-le s odds) low above;
          pairs_eq = sym (put_new-low key value as_ bs (new_cell ∷ bs) low put);
          unused = λ a n e.
              inserted-unused s as_ bs h new_cell free (get_random_level-le s odds) low above a n
              ∙ e;
          code = rw (lookup-low key as_ bs low, unknown) refl;
        })

  -- The key is there.
  put_known :
      (b : Cell) (rest : List Cell)
      → bs ≡ b ∷ rest
      → bytes_eq b.key key ≡ true
      → Returns (insert_element s odds address key value) (Inserted s (as_ ++ bs) address key value)
  unfolding insert_element put_new lookup
  put_known b rest e same =
      let chain : Chain s (b ∷ rest) = subst (Chain s) e (Chain-right s as_ bs h.chain.2) in
      let known : holds_key s key (first_at 0 bs) ≡ ok true =
        ap (λ r. holds_key s key (first_at 0 r)) e
        ∙ holds_key-head s key b rest chain
        ∙ ap ok same in
      let not_low : NotBelow key b = (subst (All (NotBelow key)) e high).0 in
      let put : put_new key value (pairs bs) ≡ pairs bs = rw e (rw (not_low, same) refl) in
      let value_ : lookup key (pairs bs) ≡ some b.value = rw (e, same) refl in
      rw (find-lasts s key as_ bs h low high, known)
        (record {
          cells = as_ ++ bs;
          shape = h;
          pairs_eq = sym (put_new-low key value as_ bs bs low put);
          unused = λ a n e. e;
          code = rw (lookup-low key as_ bs low, value_) refl;
        })

Inserted-at :
    (s : SkipList) (odds address : ℕ) (key value : Bytes) (as_ bs : List Cell)
    → Shape s (as_ ++ bs)
    → All (Below key) as_
    → All (NotBelow key) bs
    → s.nodes address ≡ none
    → Returns (insert_element s odds address key value) (Inserted s (as_ ++ bs) address key value)
unfolding put_new lookup new_cell
Inserted-at s odds address key value as_ [] h low high free =
    put_fresh s odds address key value as_ [] h low high free refl tt refl refl
Inserted-at s odds address key value as_ (b ∷ bs) h low high free =
    let chain = Chain-right s as_ (b ∷ bs) h.chain.2 in
    let ordered = Pairs-right Before as_ (b ∷ bs) h.ordered in
    elim (Bool-cases (bytes_eq b.key key)) [
      | inl e ↦ put_known s odds address key value as_ (b ∷ bs) h low high free b bs refl e
      | inr e ↦
          let rest = lookup-none key bs (
            All-map (Before b) (λ d. bytes_eq d.key key ≡ false) bs
              (λ d r. other-key key b d high.0 r) ordered.0) in
          put_fresh s odds address key value as_ (b ∷ bs) h low high free
            (holds_key-head s key b bs chain ∙ ap ok e) (above-head key b bs ordered high.0 e)
            (rw (high.0, e) refl) (rw e rest)
    ]

-- An insertion into a list of a given shape, at an address where no node is, reads and writes no memory
-- outside it, ends, and leaves a list of a shape whose keys and values are the old ones with the new
-- pair in its place, or the old ones if the key is there; it returns 1 then, and 0 otherwise.
pub insert_element-put_new :
    (s : SkipList) (cs : List Cell) (odds address : ℕ) (key value : Bytes)
    → Shape s cs
    → s.nodes address ≡ none
    → Returns (insert_element s odds address key value) (Inserted s cs address key value)
insert_element-put_new s cs odds address key value h free =
    let (as_, bs, p) = split key cs h.ordered in
    rw (p.whole)
      (Inserted-at s odds address key value as_ bs (subst (Shape s) p.whole h) p.low p.high free)
