-- ===== src/SkipList/Nodes/Insert.antt =====
-- `insert_element` of skipList/include/skipList.h puts a new cell in its place.
use native.Mathlib.Decide.{dec_le}
use rpc_storage_cpp.Common.{
  ltb, ◌==◌, if◌then◌else◌, Bool-cases, length, get_elem?, replicate, get_elem?-append_right,
  get_elem?-replicate, get_elem?-append_left, ok, ℕ, ◌+◌, ◌-◌, ◌≤◌, ◌≡◌, refl, sym, ap, ◌∙◌, subst,
  ◌≢◌, inl, inr, true, none, some, List, ◌∷◌, ◌++◌, arith,
}
use rpc_storage_cpp.SkipList.Nodes.Places.{
  last_at-bs, Shape-Differ, last_at-low, last_at-Reaches, free-Apart,
}
use rpc_storage_cpp.SkipList.Nodes.Relink.{Differ, relinked-Chain, kept-Chain, Redirected}
use rpc_storage_cpp.SkipList.Nodes.Walk.{Chain-right, last_at-Apart}
use rpc_storage_cpp.SkipList.Nodes.Link.{linked-at, link-linked, Reaches, linked}
use rpc_storage_cpp.SkipList.Nodes.Descend.{get_elem?-lasts, length-lasts, lasts}
use rpc_storage_cpp.SkipList.Nodes.Shape.{
  length-insert, All-append, All-right, All-both, Before, Pairs-insert, All-map, Pairs-left, Chain,
  first_at, node_of, All-left, Points, header_cell, Apart, last_at, Below, All, Shape, Cell,
}
use rpc_storage_cpp.SkipList.Nodes.{header, link, insert_node, create_node, SkipList}

module _ (s : SkipList) (as_ bs : List Cell) (h : Shape s (as_ ++ bs)) (c : Cell)
    (free : s.nodes c.address ≡ none) (fits : c.level ≤ s.max_level)
    (low : All (λ a. Below c.key a) as_) (high : All (λ b. Below b.key c) bs) where
  update : ℕ → ℕ
  update j = (last_at j (header_cell s) as_).address

  outside : All (Apart c.address) (header_cell s ∷ as_ ++ bs)
  outside = free-Apart s c.address (header_cell s ∷ as_ ++ bs) h.chain free

  new_level : ℕ
  new_level = if ltb s.skip_list_level c.level then c.level else s.skip_list_level

  us : List ℕ
  us =
      if ltb s.skip_list_level c.level
      then lasts s.skip_list_level (header_cell s) as_
        ++ replicate (c.level - s.skip_list_level) header
      else lasts s.skip_list_level (header_cell s) as_

  us-update : (j : ℕ) → j ≤ c.level → get_elem? us j ≡ some (update j)
  unfolding us update
  us-update j l =
      let old = lasts s.skip_list_level (header_cell s) as_ in
      let size = length-lasts s.skip_list_level (header_cell s) as_ in
      elim (dec_le j s.skip_list_level) [
        | yes m ↦
            let here = get_elem?-lasts s.skip_list_level j (header_cell s) as_ m in
            elim (Bool-cases (ltb s.skip_list_level c.level)) [
              | inl e ↦ rw e (get_elem?-append_left old _ j (omega (arith, size)) ∙ here)
              | inr e ↦ rw e here
            ]
        | no m ↦
            let e : ltb s.skip_list_level c.level ≡ true = ground arith in
            let k : length old + (j - length old) ≡ j = omega (arith, size) in
            let top =
              last_at-low j s.skip_list_level (header_cell s) as_
                (All-left (λ d. d.level ≤ s.skip_list_level) as_ bs h.levels) (omega arith) in
            rw e (
              subst
                (λ i.
                  get_elem? (old ++ replicate (c.level - s.skip_list_level) header) i ≡ some header)
                k
                (get_elem?-append_right old _ (j - length old)
                  ∙ get_elem?-replicate (c.level - s.skip_list_level) (j - length old) header
                      (omega (arith, size)))
              ∙ ap (λ (d : Cell). some d.address) (sym top))
      ]

  -- The list with the new node in memory, its pointers null.
  created : SkipList
  created = create_node (record s { skip_list_level = new_level }) c.address c.key c.value c.level

  -- The list that the function leaves.
  pub inserted : SkipList
  inserted = record created {
    forward = linked created.forward update c.address 0 (c.level + 1);
    element_count = s.element_count + 1;
  }

  update-Apart : (j : ℕ) → update j ≢ c.address
  unfolding update
  update-Apart j =
      last_at-Apart c.address j (header_cell s) as_ outside.0
        (All-left (Apart c.address) as_ bs outside.1)

  created-Reaches : (j : ℕ) → j ≤ c.level → Reaches created (update j) j
  unfolding created create_node update
  created-Reaches j l =
      let (m, e, k) = (last_at-Reaches s as_ bs j h (omega (arith, fits))).0 in
      (m, ground (arith, e, update-Apart j), k)

  new-Reaches : (j : ℕ) → j ≤ c.level → Reaches created c.address j
  unfolding created create_node
  new-Reaches j l = (node_of c, ground arith, l)

  pub insert_node-inserted :
      insert_node s (lasts s.skip_list_level (header_cell s) as_) c.address c.key c.value c.level
      ≡ ok inserted
  unfolding insert_node inserted us new_level created
  insert_node-inserted =
      let linking : link created us c.address 0 (c.level + 1)
          ≡ ok (record created {
            forward = linked created.forward update c.address 0 (c.level + 1);
          }) =
        link-linked created us update c.address 0 (c.level + 1) (λ j a b. us-update j (omega arith))
          (λ j a b. created-Reaches j (omega arith)) (λ j a b. new-Reaches j (omega arith)) in
      rw linking refl

  created-forward :
      (b j : ℕ) → created.forward b j ≡ (if b == c.address then none else s.forward b j)
  unfolding created create_node
  created-forward b j = refl

  inserted-Redirected : Redirected s inserted c.address c.level update (λ j. some c.address)
  unfolding inserted created create_node
  inserted-Redirected = record {
    nodes = λ b n. ground arith;
    forward = λ b j n.
        linked-at _ update c.address 0 (c.level + 1) b j update-Apart
        ∙ ground (arith, n, update-Apart j);
  }

  update-forward : (j : ℕ) → j ≤ c.level → s.forward (update j) j ≡ first_at j bs
  unfolding update
  update-forward j l = (last_at-Reaches s as_ bs j h (omega (arith, fits))).1

  new-Points : Points inserted c.address c.level bs
  unfolding inserted
  new-Points j l =
      linked-at created.forward update c.address 0 (c.level + 1) c.address j update-Apart
      ∙ ground (arith, update-Apart j, l, created-forward (update j) j, update-forward j l)

  inserted-Chain : Chain inserted (header_cell s ∷ as_ ++ c ∷ bs)
  unfolding inserted update created create_node
  inserted-Chain =
      let r = inserted-Redirected in
      let differ = Shape-Differ s (as_ ++ bs) h in
      relinked-Chain r (header_cell s) as_ bs (c ∷ bs) h.chain
        (outside.0, All-left (Apart c.address) as_ bs outside.1)
        (Pairs-left Differ (header_cell s ∷ as_) bs differ) (λ j. header_cell s) (λ j i. refl)
        (λ j. refl) (λ j. ground arith)
        (
          ground arith,
          new-Points,
          kept-Chain r bs (Chain-right s as_ bs h.chain.2)
              (All-right (Apart c.address) as_ bs outside.1)
              (λ j l. last_at-bs j (header_cell s) as_ bs differ),
        )

  raised :
      (cs : List Cell)
      → All (λ d. d.level ≤ s.skip_list_level) cs
      → All (λ d. d.level ≤ new_level) cs
  unfolding new_level
  raised cs =
      All-map (λ d. d.level ≤ s.skip_list_level) (λ d. d.level ≤ new_level) cs (λ d l. ground arith)

  -- The list that is left has the shape with the new cell in its place.
  pub inserted-Shape : Shape inserted (as_ ++ c ∷ bs)
  unfolding inserted created create_node new_level
  inserted-Shape = record {
    chain = inserted-Chain;
    ordered =
        Pairs-insert Before as_ c bs h.ordered
          (All-both (λ a. Below c.key a) (λ a. Apart a.address c) as_ low
            (All-map (Apart c.address) (λ a. Apart a.address c) as_ (λ a n e. n (sym e))
              (All-left (Apart c.address) as_ bs outside.1)))
          (All-both (λ b. Below b.key c) (Apart c.address) bs high
            (All-right (Apart c.address) as_ bs outside.1));
    headless =
        All-append (Apart header) as_ (c ∷ bs) (All-left (Apart header) as_ bs h.headless)
          ((λ e. outside.0 (sym e)), All-right (Apart header) as_ bs h.headless);
    levels =
        All-append (λ d. d.level ≤ new_level) as_ (c ∷ bs)
          (raised as_ (All-left (λ d. d.level ≤ s.skip_list_level) as_ bs h.levels))
          (ground arith, raised bs (All-right (λ d. d.level ≤ s.skip_list_level) as_ bs h.levels));
    highest = ground (arith, fits, h.highest);
    counted = omega (arith, length-insert as_ c bs, h.counted);
  }

  pub inserted-unused : (a : ℕ) → a ≢ c.address → inserted.nodes a ≡ s.nodes a
  inserted-unused a n = inserted-Redirected.nodes a n
