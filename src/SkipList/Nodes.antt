-- ===== src/SkipList/Nodes.antt =====
-- skipList/include/skipList.h: class `SkipList` over its nodes and their arrays of pointers. Memory
-- maps an address to a node, or to nothing where none is or one has been deleted, and an address and a
-- level to the pointer in that node's array, which has the levels up to `node_level`; a read or write
-- outside is `out_of_range`. A null pointer is `none`; the header stands at address 0. What `new` and
-- `rand` return are arguments.
pub mod Shape
pub mod Walk
pub mod Descend
pub mod Search
pub mod Relink
pub mod Link
pub mod Places
pub mod Insert
pub mod Put
pub mod Unlink
pub mod Delete
pub mod Erase
use rpc_storage_cpp.Common.{
  ◌>>=◌, ◌>>◌, ltb, leb, ◌==◌, if◌then◌else◌, Bytes, bytes_eq, get_elem?, replicate, Result,
  at_index, out_of_range, out_of_fuel, err, ok, ℕ, zero, suc, ◌+◌, ◌-◌, Bool, true, false, ◌&&◌,
  Option, none, some, List, [], ◌∷◌, ◌++◌,
}
use rpc_storage_cpp.SkipList.Order.{bytes_lt}

-- `Node`, without its array.
pub record Node : Type 0 where
  pub key : Bytes
  pub value : Bytes
  pub node_level : ℕ

-- The fields of class `SkipList`, and the memory.
pub record SkipList : Type 0 where
  pub max_level : ℕ
  pub skip_list_level : ℕ
  pub element_count : ℕ
  pub nodes : ℕ → Option Node
  pub forward : ℕ → ℕ → Option ℕ

abbrev pub header : ℕ
header = 0

unfoldable pub load : SkipList → (address : ℕ) → Result Node
load s address = at_index (s.nodes address)

-- `p->forward[level]`, read and written.
unfoldable pub forward_at : SkipList → (address level : ℕ) → Result (Option ℕ)
unfolding load
forward_at s address level = do
  n ← load s address
  if leb level n.node_level then ok (s.forward address level) else err out_of_range

abbrev pub write : (ℕ → ℕ → Option ℕ) → (address level : ℕ) → Option ℕ → ℕ → ℕ → Option ℕ
write f address level p b j = if b == address && j == level then p else f b j

unfoldable pub set_forward : SkipList → (address level : ℕ) → Option ℕ → Result SkipList
unfolding load
set_forward s address level p = do
  n ← load s address
  if leb level n.node_level
      then ok (record s { forward = write s.forward address level p })
      else err out_of_range

-- The constructor.
unfoldable pub new_skip_list : (max_level : ℕ) → SkipList
new_skip_list max_level = record {
  max_level = max_level;
  skip_list_level = 0;
  element_count = 0;
  nodes = λ a.
      if a == header then some (record { key = []; value = []; node_level = max_level }) else none;
  forward = λ a i. none;
}

-- `odds` is how many odd numbers `rand` returns before an even one.
unfoldable pub get_random_level : SkipList → (odds : ℕ) → ℕ
get_random_level s odds = let k = 1 + odds in if ltb k s.max_level then k else s.max_level

-- The test of the loop on one level: on to the next node, or stop.
abbrev pub advance : SkipList → Bytes → (ℕ → Result ℕ) → (current : ℕ) → Option ℕ → Result ℕ
advance s key go_on current none = ok current
advance s key go_on current (some next) = do
  n ← load s next
  elim (bytes_lt n.key key) [ true ↦ go_on next | false ↦ ok current ]

-- The `while` loop on one level.
unfoldable pub walk : SkipList → Bytes → (level fuel current : ℕ) → Result ℕ
unfolding forward_at
walk s key level zero current = err out_of_fuel
walk s key level (suc fuel) current = do
  next ← forward_at s current level
  advance s key (walk s key level fuel) current next

-- The `for` loop from a level down to 0: the array `update`.
unfoldable pub descend : SkipList → Bytes → (fuel level current : ℕ) → Result (List ℕ)
unfolding walk
descend s key fuel zero current = do c ← walk s key 0 fuel current; ok (c ∷ [])
descend s key fuel (suc level) current = do
  c ← walk s key (suc level) fuel current
  update ← descend s key fuel level c
  ok (update ++ c ∷ [])

-- `update`, and `update[0]->forward[0]`. No walk is longer than the list.
unfoldable pub find : SkipList → Bytes → Result (List ℕ × Option ℕ)
unfolding descend
find s key = do
  update ← descend s key (s.element_count + 1) s.skip_list_level header
  current ← at_index (get_elem? update 0)
  next ← forward_at s current 0
  ok (update, next)

abbrev pub found : SkipList → Bytes → Option ℕ → Result (Option Bytes)
found s key none = ok none
found s key (some a) = do n ← load s a; ok (if bytes_eq n.key key then some n.value else none)

unfoldable pub search_element : SkipList → Bytes → Result (Option Bytes)
unfolding find
search_element s key = do (update, next) ← find s key; found s key next

-- `current != NULL && current->get_key() == key`.
abbrev pub holds_key : SkipList → Bytes → Option ℕ → Result Bool
holds_key s key none = ok false
holds_key s key (some a) = do n ← load s a; ok (bytes_eq n.key key)

-- `create_node`: the node's pointers are null.
unfoldable pub create_node : SkipList → (address : ℕ) → (key value : Bytes) → (level : ℕ) → SkipList
create_node s address key value level = record s {
  nodes = λ a.
      if a == address
      then some (record { key = key; value = value; node_level = level })
      else s.nodes a;
  forward = λ a i. if a == address then none else s.forward a i;
}

-- The loop that links a new node, from level `i` on with `n` rounds left.
unfoldable pub link : SkipList → (update : List ℕ) → (address i n : ℕ) → Result SkipList
unfolding set_forward
link s update address i zero = ok s
link s update address i (suc n) = do
  u ← at_index (get_elem? update i)
  p ← forward_at s u i
  t ← set_forward s address i p
  t' ← set_forward t u i (some address)
  link t' update address (i + 1) n

unfoldable pub insert_node :
    SkipList
    → (update : List ℕ) → (address : ℕ) → (key value : Bytes) → (random_level : ℕ) → Result SkipList
unfolding create_node link
insert_node s update address key value random_level = do
  let update' =
      if ltb s.skip_list_level random_level
      then update ++ replicate (random_level - s.skip_list_level) header
      else update
  let raised = record s {
    skip_list_level =
        if ltb s.skip_list_level random_level then random_level else s.skip_list_level;
  }
  t ← link (create_node raised address key value random_level) update' address 0 (random_level + 1)
  ok (record t { element_count = t.element_count + 1 })

-- The new list and what the function returns: 1 if the key was there.
unfoldable pub insert_element :
    SkipList → (odds address : ℕ) → (key value : Bytes) → Result (SkipList × ℕ)
unfolding find insert_node get_random_level
insert_element s odds address key value = do
  (update, next) ← find s key
  exists ← holds_key s key next
  if exists
      then ok (s, 1)
      else (do t ← insert_node s update address key value (get_random_level s odds); ok (t, 0))

abbrev pub points_to : Option ℕ → ℕ → Bool
points_to none a = false
points_to (some b) a = b == a

-- The loop that takes a node out, from level `i` on with `n` rounds left.
unfoldable pub unlink : SkipList → (update : List ℕ) → (address i n : ℕ) → Result SkipList
unfolding set_forward
unlink s update address i zero = ok s
unlink s update address i (suc n) = do
  u ← at_index (get_elem? update i)
  p ← forward_at s u i
  elim (points_to p address) [
    | true ↦ do
      q ← forward_at s address i
      t ← set_forward s u i q
      unlink t update address (i + 1) n
    | false ↦ ok s
  ]

-- The loop that lowers `_skip_list_level`.
unfoldable pub lower : SkipList → (level : ℕ) → Result ℕ
lower s zero = ok 0
lower s (suc level) = do
  p ← forward_at s header (suc level)
  elim p [ none ↦ lower s level | some a ↦ ok (suc level) ]

unfoldable pub remove_node : SkipList → (update : List ℕ) → (address : ℕ) → Result SkipList
unfolding unlink lower
remove_node s update address = do
  t ← unlink s update address 0 (s.skip_list_level + 1)
  level ← lower t t.skip_list_level
  ok (record t {
    skip_list_level = level;
    nodes = λ a. if a == address then none else t.nodes a;
    element_count = t.element_count - 1;
  })

abbrev pub remove_if : SkipList → (update : List ℕ) → Option ℕ → Bool → Result SkipList
remove_if s update none b = ok s
remove_if s update (some a) false = ok s
remove_if s update (some a) true = remove_node s update a

unfoldable pub delete_element : SkipList → Bytes → Result SkipList
unfolding find remove_node
delete_element s key = do
  (update, next) ← find s key
  exists ← holds_key s key next
  remove_if s update next exists

-- The loop of `dump_file`: the keys and values along level 0.
unfoldable pub collect : SkipList → (fuel : ℕ) → Option ℕ → Result (List (Bytes × Bytes))
collect s fuel none = ok []
collect s zero (some a) = err out_of_fuel
collect s (suc fuel) (some a) = do
  n ← load s a
  p ← forward_at s a 0
  rest ← collect s fuel p
  ok ((n.key, n.value) ∷ rest)

unfoldable pub entries : SkipList → Result (List (Bytes × Bytes))
unfolding collect
entries s = do p ← forward_at s header 0; collect s s.element_count p
