-- ===== src/SkipList/Nodes/Shape.antt =====
-- The shape of a skip list: the cells that stand for its nodes, in order, and where the pointers of
-- each level lead. skipList/include/skipList.h.
use rpc_storage_cpp.Common.{
  leb, if◌then◌else◌, Bytes, length, ℕ, ◌+◌, ◌≤◌, ◌≡◌, ◌≢◌, true, false, Option, none, some, List,
  [], ◌∷◌, ◌++◌, arith,
}
use rpc_storage_cpp.SkipList.Order.{bytes_lt}
use rpc_storage_cpp.SkipList.Nodes.{header, SkipList, Node}

-- A node at its address.
pub record Cell : Type 0 where
  pub address : ℕ
  pub key : Bytes
  pub value : Bytes
  pub level : ℕ

abbrev pub node_of : Cell → Node
node_of c = record { key = c.key; value = c.value; node_level = c.level }

-- The first cell that is at least `i` high, and the last one, from a cell on.
abbrev pub first_at : ℕ → List Cell → Option ℕ
first_at i [] = none
first_at i (c ∷ cs) = let rest = first_at i cs in if leb i c.level then some c.address else rest

abbrev pub last_at : ℕ → Cell → List Cell → Cell
last_at i c [] = c
last_at i c (d ∷ ds) = last_at i (if leb i d.level then d else c) ds

-- A property of all cells.
abbrev pub All : (Cell → Type 0) → List Cell → Type 0
All P [] = Unit {0}
All P (c ∷ cs) = P c × All P cs

-- A relation of each cell to all behind it.
abbrev pub Pairs : (Cell → Cell → Type 0) → List Cell → Type 0
Pairs R [] = Unit {0}
Pairs R (c ∷ cs) = All (R c) cs × Pairs R cs

-- The pointers at an address, up to a level, lead to the first cell that is high enough.
abbrev pub Points : SkipList → (address level : ℕ) → List Cell → Type 0
Points s a n cs = (i : ℕ) → i ≤ n → s.forward a i ≡ first_at i cs

-- The cells are in memory, and each one's pointers lead along those behind it.
abbrev pub Chain : SkipList → List Cell → Type 0
Chain s [] = Unit {0}
Chain s (c ∷ cs) =
    (s.nodes c.address ≡ some (node_of c)) × Points s c.address c.level cs × Chain s cs

abbrev pub Below : Bytes → Cell → Type 0
Below key c = bytes_lt c.key key ≡ true

abbrev pub NotBelow : Bytes → Cell → Type 0
NotBelow key c = bytes_lt c.key key ≡ false

abbrev pub Apart : ℕ → Cell → Type 0
Apart a c = c.address ≢ a

-- The keys ascend, and the addresses differ.
abbrev pub Before : Cell → Cell → Type 0
Before c d = Below d.key c × Apart c.address d

abbrev pub header_cell : SkipList → Cell
header_cell s = record { address = header; key = []; value = []; level = s.max_level }

-- The list stands for some cells: they hang together behind the header, are in order, and are
-- counted; no level is above the highest that is used, and that not above `max_level`.
pub record Shape (s : SkipList) (cs : List Cell) : Type 0 where
  pub chain : Chain s (header_cell s ∷ cs)
  pub ordered : Pairs Before cs
  pub headless : All (Apart header) cs
  pub levels : All (λ c. c.level ≤ s.skip_list_level) cs
  pub highest : s.skip_list_level ≤ s.max_level
  pub counted : s.element_count ≡ length cs

pub All-append : (P : Cell → Type 0) (as_ bs : List Cell) → All P as_ → All P bs → All P (as_ ++ bs)
All-append P [] bs h k = k
All-append P (a ∷ as_) bs h k = (h.0, All-append P as_ bs h.1 k)

pub All-left : (P : Cell → Type 0) (as_ bs : List Cell) → All P (as_ ++ bs) → All P as_
All-left P [] bs h = tt
All-left P (a ∷ as_) bs h = (h.0, All-left P as_ bs h.1)

pub All-right : (P : Cell → Type 0) (as_ bs : List Cell) → All P (as_ ++ bs) → All P bs
All-right P [] bs h = h
All-right P (a ∷ as_) bs h = All-right P as_ bs h.1

pub All-map :
    (P Q : Cell → Type 0) (cs : List Cell) → ((c : Cell) → P c → Q c) → All P cs → All Q cs
All-map P Q [] f h = tt
All-map P Q (c ∷ cs) f h = (f c h.0, All-map P Q cs f h.1)

pub All-both :
    (P Q : Cell → Type 0) (cs : List Cell) → All P cs → All Q cs → All (λ c. P c × Q c) cs
All-both P Q [] h k = tt
All-both P Q (c ∷ cs) h k = ((h.0, k.0), All-both P Q cs h.1 k.1)

module _ (R : Cell → Cell → Type 0) where
  pub Pairs-left : (as_ bs : List Cell) → Pairs R (as_ ++ bs) → Pairs R as_
  Pairs-left [] bs h = tt
  Pairs-left (a ∷ as_) bs h = (All-left (R a) as_ bs h.0, Pairs-left as_ bs h.1)

  pub Pairs-right : (as_ bs : List Cell) → Pairs R (as_ ++ bs) → Pairs R bs
  Pairs-right [] bs h = h
  Pairs-right (a ∷ as_) bs h = Pairs-right as_ bs h.1

  pub Pairs-insert :
      (as_ : List Cell) (c : Cell) (bs : List Cell)
      → Pairs R (as_ ++ bs)
      → All (λ a. R a c) as_
      → All (R c) bs
      → Pairs R (as_ ++ c ∷ bs)
  Pairs-insert [] c bs h k l = (l, h)
  Pairs-insert (a ∷ as_) c bs h k l = (
    All-append (R a) as_ (c ∷ bs) (All-left (R a) as_ bs h.0) (k.0, All-right (R a) as_ bs h.0),
    Pairs-insert as_ c bs h.1 k.1 l,
  )

  pub Pairs-erase :
      (as_ : List Cell) (c : Cell) (bs : List Cell) → Pairs R (as_ ++ c ∷ bs) → Pairs R (as_ ++ bs)
  Pairs-erase [] c bs h = h.1
  Pairs-erase (a ∷ as_) c bs h = (
    All-append (R a) as_ bs (All-left (R a) as_ (c ∷ bs) h.0) (All-right (R a) as_ (c ∷ bs) h.0).1,
    Pairs-erase as_ c bs h.1,
  )

  -- The cells in front of one are related to it.
  pub Pairs-before :
      (as_ : List Cell) (c : Cell) (bs : List Cell) → Pairs R (as_ ++ c ∷ bs) → All (λ a. R a c) as_
  Pairs-before [] c bs h = tt
  Pairs-before (a ∷ as_) c bs h = ((All-right (R a) as_ (c ∷ bs) h.0).0, Pairs-before as_ c bs h.1)

pub length-insert :
    (as_ : List Cell) (c : Cell) (bs : List Cell) → length (as_ ++ c ∷ bs) ≡ length (as_ ++ bs) + 1
length-insert [] c bs = omega arith
length-insert (a ∷ as_) c bs = omega (arith, length-insert as_ c bs)
