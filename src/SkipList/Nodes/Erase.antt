-- ===== src/SkipList/Nodes/Erase.antt =====
-- `delete_element` against deletion from an association list in the order of its keys, and the list
-- that the constructor makes: skipList/include/skipList.h.
use rpc_storage_cpp.Common.{
  if◌then◌else◌, Bool-cases, Bytes, bytes_eq, Returns, ℕ, ◌≡◌, refl, sym, subst, inl, inr, false,
  none, List, [], ◌∷◌, ◌++◌, arith,
}
use rpc_storage_cpp.SkipList.Nodes.Delete.{removed-unused, removed-Shape, remove_node-removed}
use rpc_storage_cpp.SkipList.Nodes.Put.{holds_key-head}
use rpc_storage_cpp.SkipList.Nodes.Walk.{Chain-right}
use rpc_storage_cpp.SkipList.Order.{bytes_lt-eq}
use rpc_storage_cpp.SkipList.Nodes.Search.{other-key, first_at-zero, find-lasts, split, pairs}
use rpc_storage_cpp.SkipList.Nodes.Shape.{
  All-map, Before, Pairs-right, NotBelow, Below, All, Shape, Cell,
}
use rpc_storage_cpp.SkipList.Nodes.{delete_element, SkipList, new_skip_list}

-- The first pair with the key is left out.
unfoldable pub erase_key : Bytes → List (Bytes × Bytes) → List (Bytes × Bytes)
erase_key key [] = []
erase_key key ((j, w) ∷ r) =
    let rest = erase_key key r in if bytes_eq j key then r else (j, w) ∷ rest

-- A list that the constructor makes has the shape of the empty list.
pub new_skip_list-Shape : (max_level : ℕ) → Shape (new_skip_list max_level) []
unfolding new_skip_list
new_skip_list-Shape max_level = record {
  chain = (refl, (λ i l. refl), tt);
  ordered = tt;
  headless = tt;
  levels = tt;
  highest = omega arith;
  counted = refl;
}

pub erase_key-low :
    (key : Bytes) (as_ bs r : List Cell)
    → All (Below key) as_
    → erase_key key (pairs bs) ≡ pairs r
    → erase_key key (pairs (as_ ++ bs)) ≡ pairs (as_ ++ r)
unfolding erase_key
erase_key-low key [] bs r h e = e
erase_key-low key (a ∷ as_) bs r h e =
    rw (bytes_lt-eq a.key key h.0, erase_key-low key as_ bs r h.1 e) refl

erase_key-none :
    (key : Bytes) (bs : List Cell)
    → All (λ b. bytes_eq b.key key ≡ false) bs
    → erase_key key (pairs bs) ≡ pairs bs
unfolding erase_key
erase_key-none key [] h = refl
erase_key-none key (b ∷ bs) h = rw (h.0, erase_key-none key bs h.1) refl

-- The outcome of a deletion.
pub record Deleted (s : SkipList) (cs : List Cell) (key : Bytes) (r : SkipList) : Type 0 where
  pub cells : List Cell
  pub shape : Shape r cells
  pub pairs_eq : pairs cells ≡ erase_key key (pairs cs)
  pub unused : (a : ℕ) → s.nodes a ≡ none → r.nodes a ≡ none

Deleted-at :
    (s : SkipList) (key : Bytes) (as_ bs : List Cell)
    → Shape s (as_ ++ bs)
    → All (Below key) as_
    → All (NotBelow key) bs
    → Returns (delete_element s key) (Deleted s (as_ ++ bs) key)
unfolding delete_element erase_key
Deleted-at s key as_ [] h low high = rw (find-lasts s key as_ [] h low high) (record {
  cells = as_ ++ [];
  shape = h;
  pairs_eq = sym (erase_key-low key as_ [] [] low refl);
  unused = λ a e. e;
})
Deleted-at s key as_ (b ∷ bs) h low high =
    let chain = Chain-right s as_ (b ∷ bs) h.chain.2 in
    let ordered = Pairs-right Before as_ (b ∷ bs) h.ordered in
    elim (Bool-cases (bytes_eq b.key key)) [
      | inl e ↦
          let gone : erase_key key (pairs (b ∷ bs)) ≡ pairs bs = rw e refl in
          rw
            (
              find-lasts s key as_ (b ∷ bs) h low high,
              holds_key-head s key b bs chain,
              e,
              first_at-zero b bs,
              remove_node-removed s as_ bs b h,
            )
            (record {
              cells = as_ ++ bs;
              shape = removed-Shape s as_ bs b h;
              pairs_eq = sym (erase_key-low key as_ (b ∷ bs) bs low gone);
              unused = removed-unused s as_ bs b h;
            })
      | inr e ↦
          let rest = erase_key-none key (b ∷ bs) (
            e,
            All-map (Before b) (λ d. bytes_eq d.key key ≡ false) bs
                (λ d r. other-key key b d high.0 r) ordered.0,
          ) in
          rw
            (
              find-lasts s key as_ (b ∷ bs) h low high,
              holds_key-head s key b bs chain,
              e,
              first_at-zero b bs,
            )
            (record {
              cells = as_ ++ b ∷ bs;
              shape = h;
              pairs_eq = sym (erase_key-low key as_ (b ∷ bs) (b ∷ bs) low rest);
              unused = λ a e. e;
            })
    ]

-- A deletion from a list of a given shape reads and writes no memory outside it, ends, and leaves a
-- list of a shape whose keys and values are the old ones without the key.
pub delete_element-erase_key :
    (s : SkipList) (cs : List Cell) (key : Bytes)
    → Shape s cs
    → Returns (delete_element s key) (Deleted s cs key)
delete_element-erase_key s cs key h =
    let (as_, bs, p) = split key cs h.ordered in
    rw (p.whole) (Deleted-at s key as_ bs (subst (Shape s) p.whole h) p.low p.high)
