-- ===== src/SkipList/Nodes/Delete.antt =====
-- `delete_element` of skipList/include/skipList.h takes a cell out of its place.
use rpc_storage_cpp.Common.{
  leb, ◌==◌, if◌then◌else◌, Bool-cases, ok, ℕ, ◌+◌, ◌-◌, ◌≤◌, ◌<◌, ◌≡◌, refl, sym, ap, ◌∙◌, ◌≢◌,
  inl, inr, false, ◌&&◌, none, some, List, [], ◌∷◌, ◌++◌, arith,
}
use rpc_storage_cpp.SkipList.Nodes.Relink.{relinked-Chain, kept-Chain, Redirected, Differ}
use rpc_storage_cpp.SkipList.Nodes.Places.{last_at-bs, Shape-Differ, last_at-Reaches}
use rpc_storage_cpp.SkipList.Nodes.Unlink.{unlinked-at, lower-le, unlink-unlinked, unlinked}
use rpc_storage_cpp.SkipList.Nodes.Walk.{
  Stands-of_Chain, forward_at-Stands, Chain-right, last_at-Apart,
}
use rpc_storage_cpp.SkipList.Nodes.Descend.{get_elem?-lasts, lasts}
use rpc_storage_cpp.SkipList.Nodes.Shape.{
  Pairs-left, node_of, length-insert, Before, All-left, Pairs-erase, All-append, Chain,
  Pairs-before, first_at, Pairs-right, All-map, Apart, header_cell, All, Pairs, All-right, last_at,
  Shape, Cell,
}
use rpc_storage_cpp.SkipList.Nodes.{header, remove_node, lower, unlink, points_to, SkipList}

module _ (s : SkipList) (as_ bs : List Cell) (d : Cell) (h : Shape s (as_ ++ d ∷ bs)) where
  update : ℕ → ℕ
  update j = (last_at j (header_cell s) as_).address

  us : List ℕ
  us = lasts s.skip_list_level (header_cell s) as_

  d_level : d.level ≤ s.skip_list_level
  d_level = (All-right (λ c. c.level ≤ s.skip_list_level) as_ (d ∷ bs) h.levels).0

  differ : Pairs Differ (header_cell s ∷ as_ ++ d ∷ bs)
  differ = Shape-Differ s (as_ ++ d ∷ bs) h

  before : All (Apart d.address) (header_cell s ∷ as_)
  before =
      All-map (λ a. Differ a d) (Apart d.address) (header_cell s ∷ as_) (λ a n e. n (sym e))
        (Pairs-before Differ (header_cell s ∷ as_) d bs differ)

  behind : All (Apart d.address) bs
  behind = (Pairs-right Differ (header_cell s ∷ as_) (d ∷ bs) differ).0

  update-Apart : (j : ℕ) → update j ≢ d.address
  unfolding update
  update-Apart j = last_at-Apart d.address j (header_cell s) as_ before.0 before.1

  -- The list with the node out of the chain, still in memory.
  bridged : SkipList
  bridged = record s { forward = unlinked s.forward update d.address 0 (d.level + 1) }

  first_at-Apart :
      (j : ℕ) (cs : List Cell)
      → All (Apart d.address) cs
      → points_to (first_at j cs) d.address ≡ false
  first_at-Apart j [] k = refl
  first_at-Apart j (c ∷ cs) k = elim (Bool-cases (leb j c.level)) [
    | inl e ↦ ground (arith, e, k.0)
    | inr e ↦ ground (arith, e, first_at-Apart j cs k.1)
  ]

  to_d : (j : ℕ) → j ≤ d.level → s.forward (update j) j ≡ some d.address
  unfolding update
  to_d j l =
      (last_at-Reaches s as_ (d ∷ bs) j h (omega (arith, d_level, h.highest))).1 ∙ ground arith

  over_d :
      (j : ℕ) → d.level < j → j ≤ s.max_level → points_to (s.forward (update j) j) d.address ≡ false
  unfolding update
  over_d j l m =
      let low : leb j d.level ≡ false = ground arith in
      rw ((last_at-Reaches s as_ (d ∷ bs) j h m).1, low) (first_at-Apart j bs behind)

  unlink-bridged : unlink s us d.address 0 (s.skip_list_level + 1) ≡ ok bridged
  unfolding us bridged update
  unlink-bridged =
      unlink-unlinked s us update d.address 0 (d.level + 1) (s.skip_list_level + 1)
        (omega (arith, d_level))
        (λ j l. get_elem?-lasts s.skip_list_level j (header_cell s) as_ (omega arith))
        (λ j l. (last_at-Reaches s as_ (d ∷ bs) j h (omega (arith, h.highest))).0)
        (λ j l. (node_of d, (Chain-right s as_ (d ∷ bs) h.chain.2).0, omega arith))
        (λ j l m. to_d j (omega arith)) (λ j l m. over_d j (omega arith) (omega (arith, h.highest)))

  bridged-forward :
      (b j : ℕ)
      → bridged.forward b j
        ≡ (if leb j d.level && b == update j then s.forward d.address j else s.forward b j)
  unfolding bridged
  bridged-forward b j =
      unlinked-at s.forward update d.address 0 (d.level + 1) b j update-Apart ∙ ground arith

  d-forward : (j : ℕ) → j ≤ d.level → s.forward d.address j ≡ first_at j bs
  d-forward j l = (Chain-right s as_ (d ∷ bs) h.chain.2).1 j l

  -- Any list with these pointers and without the node is linked along the remaining cells.
  bridged-Chain :
      (t : SkipList)
      → ((a : ℕ) → a ≢ d.address → t.nodes a ≡ s.nodes a)
      → t.forward ≡ bridged.forward
      → Chain t (header_cell s ∷ as_ ++ bs)
  unfolding update
  bridged-Chain t same e =
      let r : Redirected s t d.address d.level update (λ j. s.forward d.address j) = record {
        nodes = same;
        forward = λ b j n. ap (λ f. f b j) e ∙ bridged-forward b j;
      } in
      relinked-Chain r (header_cell s) as_ (d ∷ bs) bs h.chain before
        (Pairs-left Differ (header_cell s ∷ as_) (d ∷ bs) differ) (λ j. header_cell s) (λ j i. refl)
        (λ j. refl) (λ j. ground (arith, d-forward j))
        (kept-Chain r bs (Chain-right s as_ (d ∷ bs) h.chain.2).2 behind
          (λ j l. (last_at-bs j (header_cell s) as_ (d ∷ bs) differ).1))

  remaining : All (λ c. c.level ≤ s.skip_list_level) (as_ ++ bs)
  remaining =
      let P : Cell → Type 0 = λ c. c.level ≤ s.skip_list_level in
      All-append P as_ bs (All-left P as_ (d ∷ bs) h.levels) (All-right P as_ (d ∷ bs) h.levels).1

  -- The highest level is found on the pointers of the header.
  lowered :
      (k : ℕ) × (lower bridged s.skip_list_level ≡ ok k)
      × (k ≤ s.skip_list_level)
      × All (λ c. c.level ≤ k) (as_ ++ bs)
  unfolding bridged
  lowered =
      let chain = bridged-Chain bridged (λ a n. refl) refl in
      lower-le bridged (as_ ++ bs) s.skip_list_level
        (λ i l.
          forward_at-Stands bridged i (header_cell s) (as_ ++ bs) (
            Stands-of_Chain bridged i (header_cell s) (as_ ++ bs) chain (omega (arith, h.highest))))
        remaining

  -- The list that the function leaves.
  pub removed : SkipList
  removed = record bridged {
    skip_list_level = lowered.0;
    nodes = λ a. if a == d.address then none else s.nodes a;
    element_count = s.element_count - 1;
  }

  pub remove_node-removed :
      remove_node s (lasts s.skip_list_level (header_cell s) as_) d.address ≡ ok removed
  unfolding remove_node removed us bridged
  remove_node-removed = rw (unlink-bridged, lowered.1) refl

  pub removed-Shape : Shape removed (as_ ++ bs)
  unfolding removed bridged
  removed-Shape = record {
    chain = bridged-Chain removed (λ a n. ground (arith, n)) refl;
    ordered = Pairs-erase Before as_ d bs h.ordered;
    headless =
        All-append (Apart header) as_ bs (All-left (Apart header) as_ (d ∷ bs) h.headless)
          (All-right (Apart header) as_ (d ∷ bs) h.headless).1;
    levels = lowered.3;
    highest = omega (arith, lowered.2, h.highest);
    counted = omega (arith, length-insert as_ d bs, h.counted);
  }

  pub removed-unused : (a : ℕ) → s.nodes a ≡ none → removed.nodes a ≡ none
  unfolding removed
  removed-unused a e = ground (arith, e)
