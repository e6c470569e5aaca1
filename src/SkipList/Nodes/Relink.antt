-- ===== src/SkipList/Nodes/Relink.antt =====
-- A list whose pointers are redirected at the last cells of each level in front of one place:
-- what insertion and deletion in skipList/include/skipList.h have in common.
use rpc_storage_cpp.Common.{
  leb, ◌==◌, if◌then◌else◌, ℕ, ◌≤◌, ◌≡◌, sym, ap, ◌∙◌, subst, ◌≢◌, inl, inr, ◌&&◌, Option, List, [],
  ◌∷◌, ◌++◌, arith,
}
use rpc_storage_cpp.SkipList.Nodes.Walk.{last_at-Apart}
use rpc_storage_cpp.SkipList.Nodes.Descend.{pick}
use rpc_storage_cpp.SkipList.Nodes.{SkipList}
use rpc_storage_cpp.SkipList.Nodes.Shape.{first_at, Pairs, last_at, All, Points, Chain, Apart, Cell}

-- The two cells have different addresses.
abbrev pub Differ : Cell → Cell → Type 0
Differ c d = Apart c.address d

-- All memory is as before but for the node at one address, and for the pointers of the levels up to
-- `top` at the addresses `update`, which are now `to`.
pub record Redirected (s t : SkipList) (address top : ℕ) (update : ℕ → ℕ) (to : ℕ → Option ℕ)
    : Type 0 where
  pub nodes : (b : ℕ) → b ≢ address → t.nodes b ≡ s.nodes b
  pub forward :
      (b j : ℕ)
      → b ≢ address
      → t.forward b j ≡ (if leb j top && b == update j then to j else s.forward b j)

module _ {s t : SkipList} {address top : ℕ} {update : ℕ → ℕ} {to : ℕ → Option ℕ}
    (r : Redirected s t address top update to) where
  -- Cells that stand apart from all these addresses keep their pointers.
  pub kept-Chain :
      (bs : List Cell)
      → Chain s bs
      → All (Apart address) bs
      → ((j : ℕ) → j ≤ top → All (Apart (update j)) bs)
      → Chain t bs
  kept-Chain [] h k l = tt
  kept-Chain (b ∷ bs) h k l = (
    r.nodes b.address k.0 ∙ h.0,
    λ j i. r.forward b.address j k.0 ∙ ground (arith, h.1 j i, λ (m : j ≤ top). (l j m).0),
    kept-Chain bs h.2 k.1 (λ j m. (l j m).1),
  )

  abbrev spare : Cell
  spare = record { address = address; key = []; value = []; level = 0 }

  -- The pointers of one cell in front of the place.
  relinked-Points :
      (c : Cell) (as_ xs ys : List Cell)
      → Points s c.address c.level (as_ ++ xs)
      → Apart address c
      → All (Differ c) as_
      → (last : ℕ → Cell) → ((j : ℕ) → j ≤ c.level → last j ≡ c)
      → ((j : ℕ) → update j ≡ (last_at j (last j) as_).address)
      → ((j : ℕ) → (if leb j top then to j else first_at j xs) ≡ first_at j ys)
      → Points t c.address c.level (as_ ++ ys)
  relinked-Points c as_ xs ys h out apart last self up tails j i = elim (pick j as_) [
    | inl m ↦
        let here : update j ≡ c.address =
          up j ∙ ap (λ (d : Cell). d.address) (m.last (last j) ∙ self j i) in
        let old : s.forward c.address j ≡ first_at j xs = h j i ∙ m.first xs in
        r.forward c.address j out ∙ ground (arith, here, old, tails j, m.first ys)
    | inr (e, rest, p) ↦
        let there : update j ≡ e.address = up j ∙ ap (λ (d : Cell). d.address) (p.last (last j)) in
        let far : e.address ≢ c.address =
          subst (Apart c.address) (p.last spare)
            (last_at-Apart c.address j spare as_ (λ q. out (sym q)) apart) in
        r.forward c.address j out ∙ ground (arith, there, far, h j i, p.first xs ys)
  ]

  -- The cells in front of the place lead along the new tail. `last` is the last cell of each level up
  -- to `c`.
  pub relinked-Chain :
      (c : Cell) (as_ xs ys : List Cell)
      → Chain s (c ∷ as_ ++ xs)
      → All (Apart address) (c ∷ as_)
      → Pairs Differ (c ∷ as_)
      → (last : ℕ → Cell) → ((j : ℕ) → j ≤ c.level → last j ≡ c)
      → ((j : ℕ) → update j ≡ (last_at j (last j) as_).address)
      → ((j : ℕ) → (if leb j top then to j else first_at j xs) ≡ first_at j ys)
      → Chain t ys
      → Chain t (c ∷ as_ ++ ys)
  relinked-Chain c [] xs ys h out apart last self up tails k = (
    r.nodes c.address out.0 ∙ h.0,
    relinked-Points c [] xs ys h.1 out.0 apart.0 last self up tails,
    k,
  )
  relinked-Chain c (a ∷ as_) xs ys h out apart last self up tails k = (
    r.nodes c.address out.0 ∙ h.0,
    relinked-Points c (a ∷ as_) xs ys h.1 out.0 apart.0 last self up tails,
    relinked-Chain a as_ xs ys h.2 out.1 apart.1 (λ j. if leb j a.level then a else last j)
        (λ j i. ground arith) up tails k,
  )
