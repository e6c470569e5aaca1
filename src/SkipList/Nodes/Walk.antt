-- ===== src/SkipList/Nodes/Walk.antt =====
-- Where the loops over the levels end: skipList/include/skipList.h.
use rpc_storage_cpp.Common.{
  leb, Bool-cases, Bytes, length, Result, ok, ℕ, zero, suc, ◌≤◌, ◌<◌, ◌≡◌, refl, ◌∙◌, inl, inr,
  some, List, [], ◌∷◌, ◌++◌, arith,
}
use rpc_storage_cpp.SkipList.Nodes.{advance, walk, load, forward_at, SkipList}
use rpc_storage_cpp.SkipList.Nodes.Shape.{
  Below, NotBelow, last_at, All, first_at, node_of, Chain, Apart, Cell,
}

-- The address of a cell is not among those that stand apart from it.
pub last_at-Apart :
    (a i : ℕ) (c : Cell) (cs : List Cell) → Apart a c → All (Apart a) cs → Apart a (last_at i c cs)
last_at-Apart a i c [] h k = h
last_at-Apart a i c (d ∷ ds) h k = elim (Bool-cases (leb i d.level)) [
  | inl e ↦ rw (e, last_at) (last_at-Apart a i d ds k.0 k.1)
  | inr e ↦ rw (e, last_at) (last_at-Apart a i c ds h k.1)
]

-- A cell that is high enough stands in a list at an address where the list is reached.
pub Chain-right : (s : SkipList) (as_ bs : List Cell) → Chain s (as_ ++ bs) → Chain s bs
Chain-right s [] bs h = h
Chain-right s (a ∷ as_) bs h = Chain-right s as_ bs h.2

-- What stands at the address of a cell, as far as one level goes.
abbrev pub Stands : SkipList → ℕ → Cell → List Cell → Type 0
Stands s i c cs =
    (s.nodes c.address ≡ some (node_of c)) × (i ≤ c.level) × (s.forward c.address i ≡ first_at i cs)

pub Stands-of_Chain :
    (s : SkipList) (i : ℕ) (c : Cell) (cs : List Cell)
    → Chain s (c ∷ cs)
    → i ≤ c.level
    → Stands s i c cs
Stands-of_Chain s i c cs h l = (h.0, l, h.1 i l)

pub forward_at-Stands :
    (s : SkipList) (i : ℕ) (c : Cell) (cs : List Cell)
    → Stands s i c cs
    → forward_at s c.address i ≡ ok (first_at i cs)
unfolding forward_at load
forward_at-Stands s i c cs h = ground (arith, h.0, h.1, h.2)

-- The last cell that is high enough points behind the list.
pub last_at-Stands :
    (s : SkipList) (i : ℕ) (c : Cell) (as_ bs : List Cell)
    → Stands s i c (as_ ++ bs)
    → Chain s (as_ ++ bs)
    → Stands s i (last_at i c as_) bs
last_at-Stands s i c [] bs h k = h
last_at-Stands s i c (a ∷ as_) bs h k = elim (Bool-cases (leb i a.level)) [
  | inl e ↦
      rw (e, last_at) (last_at-Stands s i a as_ bs (k.0, ground arith, k.1 i (ground arith)) k.2)
  | inr e ↦
      let skipped : s.forward c.address i ≡ first_at i (as_ ++ bs) = h.2 ∙ rw (e, last_at) refl in
      rw (e, last_at) (last_at-Stands s i c as_ bs (h.0, h.1, skipped) k.2)
]

advance-on :
    (s : SkipList) (key : Bytes) (current : ℕ) (c : Cell) (go_on : ℕ → Result ℕ)
    → s.nodes c.address ≡ some (node_of c)
    → Below key c
    → advance s key go_on current (some c.address) ≡ go_on c.address
unfolding load
advance-on s key current c go_on h k = ground (arith, h, k)

advance-back :
    (s : SkipList) (key : Bytes) (current : ℕ) (c : Cell) (go_on : ℕ → Result ℕ)
    → s.nodes c.address ≡ some (node_of c)
    → NotBelow key c
    → advance s key go_on current (some c.address) ≡ ok current
unfolding load
advance-back s key current c go_on h k = ground (arith, h, k)

-- What the first pointer leads to, if all cells are not below the key.
advance-stop :
    (s : SkipList) (key : Bytes) (i current : ℕ) (go_on : ℕ → Result ℕ) (bs : List Cell)
    → Chain s bs
    → All (NotBelow key) bs
    → advance s key go_on current (first_at i bs) ≡ ok current
unfolding load
advance-stop s key i current go_on [] h k = refl
advance-stop s key i current go_on (b ∷ bs) h k = elim (Bool-cases (leb i b.level)) [
  | inl e ↦ rw e (advance-back s key current b go_on h.0 k.0)
  | inr e ↦ rw e (advance-stop s key i current go_on bs h.2 k.1)
]

-- The walk on a level ends at the last cell below the key that is high enough.
pub walk-last_at :
    (s : SkipList) (key : Bytes) (i fuel : ℕ) (c : Cell) (as_ bs : List Cell)
    → Stands s i c (as_ ++ bs)
    → Chain s (as_ ++ bs)
    → All (Below key) as_
    → All (NotBelow key) bs
    → length as_ < fuel
    → walk s key i fuel c.address ≡ ok (last_at i c as_).address
unfolding walk
walk-last_at s key i zero c as_ bs h k lo hi f = absurd (omega arith)
walk-last_at s key i (suc fuel) c [] bs h k lo hi f =
    rw (forward_at-Stands s i c bs h) (advance-stop s key i c.address (walk s key i fuel) bs k hi)
walk-last_at s key i (suc fuel) c (a ∷ as_) bs h k lo hi f = elim (Bool-cases (leb i a.level)) [
  | inl e ↦
      let next : forward_at s c.address i ≡ ok (some a.address) =
        forward_at-Stands s i c (a ∷ as_ ++ bs) h ∙ rw (e, last_at) refl in
      rw (next, advance-on s key c.address a (walk s key i fuel) k.0 lo.0)
        (walk-last_at s key i fuel a as_ bs (k.0, ground arith, k.1 i (ground arith)) k.2 lo.1 hi
            (omega arith)
          ∙ rw (e, last_at) refl)
  | inr e ↦
      let skipped : s.forward c.address i ≡ first_at i (as_ ++ bs) = h.2 ∙ rw (e, last_at) refl in
      walk-last_at s key i (suc fuel) c as_ bs (h.0, h.1, skipped) k.2 lo.1 hi (omega arith)
      ∙ rw (e, last_at) refl
]
