-- ===== src/SkipList/Nodes/Link.antt =====
-- The loop of `insert_element` that links a node: skipList/include/skipList.h.
use native.Mathlib.Decide.{ℕ_discrete}
use rpc_storage_cpp.Common.{
  ltb, leb, ◌==◌, if◌then◌else◌, get_elem?, ok, ℕ, zero, suc, ◌+◌, ◌≤◌, ◌<◌, ◌≡◌, refl, ◌∙◌, ◌≢◌,
  true, ◌&&◌, Option, some, List, arith,
}
use rpc_storage_cpp.SkipList.Nodes.{load, Node, link, set_forward, forward_at, SkipList, write}

-- The pointers after one round, and after all rounds.
abbrev pub linked_once : (ℕ → ℕ → Option ℕ) → (u a i : ℕ) → ℕ → ℕ → Option ℕ
linked_once f u a i = write (write f a i (f u i)) u i (some a)

abbrev pub linked : (ℕ → ℕ → Option ℕ) → (update : ℕ → ℕ) → (a i n : ℕ) → ℕ → ℕ → Option ℕ
linked f update a i zero = f
linked f update a i (suc n) = linked (linked_once f (update i) a i) update a (i + 1) n

-- There is a node at an address that is at least `j` high.
abbrev pub Reaches : SkipList → (address j : ℕ) → Type 0
Reaches s address j = (m : Node) × (s.nodes address ≡ some m) × (j ≤ m.node_level)

pub forward_at-Reaches :
    (s : SkipList) (a i : ℕ) → Reaches s a i → forward_at s a i ≡ ok (s.forward a i)
unfolding forward_at load
forward_at-Reaches s a i (m, e, l) = ground (arith, e, l)

pub set_forward-Reaches :
    (s : SkipList) (a i : ℕ) (p : Option ℕ)
    → Reaches s a i
    → set_forward s a i p ≡ ok (record s { forward = write s.forward a i p })
unfolding set_forward load
set_forward-Reaches s a i p (m, e, l) =
    let up : leb i m.node_level ≡ true = ground arith in rw (e, up) refl

-- The loop reads no memory outside, and writes the pointers of its levels.
pub link-linked :
    (s : SkipList) (us : List ℕ) (update : ℕ → ℕ) (a i n : ℕ)
    → ((j : ℕ) → i ≤ j → j < i + n → get_elem? us j ≡ some (update j))
    → ((j : ℕ) → i ≤ j → j < i + n → Reaches s (update j) j)
    → ((j : ℕ) → i ≤ j → j < i + n → Reaches s a j)
    → link s us a i n ≡ ok (record s { forward = linked s.forward update a i n })
unfolding link
link-linked s us update a i zero e h k = refl
link-linked s us update a i (suc n) e h k =
    let first : i < i + suc n = omega arith in
    let f = linked_once s.forward (update i) a i in
    let t : SkipList = record s { forward = write s.forward a i (s.forward (update i) i) } in
    rw
      (
        e i (omega arith) first,
        forward_at-Reaches s (update i) i (h i (omega arith) first),
        set_forward-Reaches s a i (s.forward (update i) i) (k i (omega arith) first),
        set_forward-Reaches t (update i) i (some a) (h i (omega arith) first),
        link-linked (record s { forward = f }) us update a (i + 1) n
            (λ j l m. e j (omega arith) (omega arith)) (λ j l m. h j (omega arith) (omega arith))
            (λ j l m. k j (omega arith) (omega arith)),
      )
      refl

-- What the pointers are afterwards.
pub linked-at :
    (f : ℕ → ℕ → Option ℕ) (update : ℕ → ℕ) (a i n b j : ℕ)
    → ((k : ℕ) → update k ≢ a)
    → linked f update a i n b j ≡ (
        if leb i j && ltb j (i + n)
        then (if b == a then f (update j) j else if b == update j then some a else f b j)
        else f b j)
linked-at f update a i zero b j h = ground arith
linked-at f update a i (suc n) b j h =
    linked-at (linked_once f (update i) a i) update a (i + 1) n b j h ∙ elim (ℕ_discrete i j) [
      | yes e ↦ ground (arith, e, h i)
      | no ne ↦ ground (arith, ne, h i, h j)
    ]
