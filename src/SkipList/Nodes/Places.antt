-- ===== src/SkipList/Nodes/Places.antt =====
-- Where the last cells of the levels stand, and which addresses differ: skipList/include/skipList.h.
use rpc_storage_cpp.Common.{
  leb, if◌then◌else◌, ℕ, ◌≤◌, ◌<◌, ◌≡◌, refl, sym, ap, ◌∙◌, false, none, List, [], ◌∷◌, ◌++◌, arith,
}
use rpc_storage_cpp.SkipList.Nodes.Walk.{Stands-of_Chain, last_at-Stands, last_at-Apart}
use rpc_storage_cpp.SkipList.Nodes.Link.{Reaches}
use rpc_storage_cpp.SkipList.Nodes.Relink.{Differ}
use rpc_storage_cpp.SkipList.Nodes.Shape.{
  node_of, first_at, Before, header_cell, All-right, All-map, last_at, Apart, Shape, Pairs, All,
  Chain, Cell,
}
use rpc_storage_cpp.SkipList.Nodes.{SkipList}

-- Where no node is, none of a list's nodes is.
pub free-Apart :
    (s : SkipList) (a : ℕ) (cs : List Cell) → Chain s cs → s.nodes a ≡ none → All (Apart a) cs
free-Apart s a [] h k = tt
free-Apart s a (c ∷ cs) h k = ((λ e. cc (h.0, k, ap s.nodes e)), free-Apart s a cs h.2 k)

pub last_at-low :
    (j n : ℕ) (c : Cell) (cs : List Cell) → All (λ d. d.level ≤ n) cs → n < j → last_at j c cs ≡ c
last_at-low j n c [] h l = refl
last_at-low j n c (d ∷ ds) h l =
    let low : leb j d.level ≡ false = ground (arith, h.0) in
    ap (λ b. last_at j (if b then d else c) ds) low ∙ last_at-low j n c ds h.1 l

-- Each cell of the second part stands behind all of the first.
pub Pairs-cross :
    (R : Cell → Cell → Type 0) (as_ bs : List Cell)
    → Pairs R (as_ ++ bs)
    → All (λ b. All (λ a. R a b) as_) bs
Pairs-cross R [] bs h = All-map (λ b. Unit {0}) _ bs (λ b k. tt) (trivial bs)
  where
    trivial : (cs : List Cell) → All (λ b. Unit {0}) cs
    trivial [] = tt
    trivial (c ∷ cs) = (tt, trivial cs)
Pairs-cross R (a ∷ as_) bs h = both bs (All-right (R a) as_ bs h.0) (Pairs-cross R as_ bs h.1)
  where
    both :
        (cs : List Cell)
        → All (R a) cs
        → All (λ b. All (λ x. R x b) as_) cs
        → All (λ b. R a b × All (λ x. R x b) as_) cs
    both [] k l = tt
    both (c ∷ cs) k l = ((k.0, l.0), both cs k.1 l.1)

-- The last cells of the levels stand apart from all cells behind them.
pub last_at-bs :
    (j : ℕ) (h : Cell) (as_ bs : List Cell)
    → Pairs Differ (h ∷ as_ ++ bs)
    → All (Apart (last_at j h as_).address) bs
last_at-bs j h as_ bs p =
    All-map (λ b. All (λ a. Differ a b) (h ∷ as_)) (Apart (last_at j h as_).address) bs
      (λ b k e.
        last_at-Apart b.address j h as_ (λ q. k.0 (sym q))
          (All-map (λ a. Differ a b) (Apart b.address) as_ (λ a l q. l (sym q)) k.1) (sym e))
      (Pairs-cross Differ (h ∷ as_) bs p)

pub Pairs-map :
    (P Q : Cell → Cell → Type 0) (cs : List Cell)
    → ((c d : Cell) → P c d → Q c d)
    → Pairs P cs
    → Pairs Q cs
Pairs-map P Q [] f h = tt
Pairs-map P Q (c ∷ cs) f h = (All-map (P c) (Q c) cs (f c) h.0, Pairs-map P Q cs f h.1)

-- All addresses differ, the header's too.
pub Shape-Differ : (s : SkipList) (cs : List Cell) → Shape s cs → Pairs Differ (header_cell s ∷ cs)
Shape-Differ s cs h = (h.headless, Pairs-map Before Differ cs (λ c d k. k.1) h.ordered)

-- Where the last cells of the levels are in memory.
pub last_at-Reaches :
    (s : SkipList) (as_ bs : List Cell) (j : ℕ)
    → Shape s (as_ ++ bs)
    → j ≤ s.max_level
    → Reaches s (last_at j (header_cell s) as_).address j
      × (s.forward (last_at j (header_cell s) as_).address j ≡ first_at j bs)
last_at-Reaches s as_ bs j h l =
    let c = header_cell s in
    let stands =
      last_at-Stands s j c as_ bs (Stands-of_Chain s j c (as_ ++ bs) h.chain l) h.chain.2 in
    ((node_of (last_at j c as_), stands.0, stands.1), stands.2)
