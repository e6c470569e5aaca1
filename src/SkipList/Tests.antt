-- ===== src/SkipList/Tests.antt =====
-- Runs of skipList/include/skipList.h on short lists.
use rpc_storage_cpp.Common.{
  if◌then◌else◌, Bytes, bytes_eq, Result, ◌>>=◌, Returns, ok, ◌-◌, ◌≡◌, refl, some, [], ◌∷◌, arith,
}
use rpc_storage_cpp.SkipList.Laws.{is_some}
use rpc_storage_cpp.SkipList.Nodes.Erase.{delete_element-erase_key, Deleted}
use rpc_storage_cpp.SkipList.Nodes.Put.{insert_element-put_new, Inserted}
use rpc_storage_cpp.SkipList.Order.{bytes_lt}
use rpc_storage_cpp.SkipList.Implements.{live_ops-nodes, live_ops, new_live, put_live, Live}
use rpc_storage_cpp.SkipList.Nodes.{
  new_skip_list, insert_element, delete_element, search_element, entries, SkipList,
}

abbrev key_a : Bytes
key_a = 1 ∷ []

abbrev key_b : Bytes
key_b = 1 ∷ 5 ∷ []

abbrev key_c : Bytes
key_c = 2 ∷ []

-- Three insertions out of order, of nodes 3, 2 and 1 levels high, and one of a key that is there.
abbrev three : Result SkipList
three = do
  (s, i) ← insert_element (new_skip_list 3) 2 1 key_b key_b
  (s', i') ← insert_element s 1 2 key_c key_a
  (t, j) ← insert_element s' 0 3 key_a key_c
  (t', j') ← insert_element t 4 4 key_c key_c
  ok t'

three-entries : (three >>= entries) ≡ ok ((key_a, key_c) ∷ (key_b, key_b) ∷ (key_c, key_a) ∷ [])
unfolding entries insert_element new_skip_list bytes_lt bytes_eq
three-entries = refl

three-search : (three >>= λ s. search_element s key_c) ≡ ok (some key_a)
unfolding search_element insert_element new_skip_list bytes_lt bytes_eq
three-search = refl

abbrev without_b : Result SkipList
without_b = three >>= λ s. delete_element s key_b

-- The highest node goes, and the list's level with it.
three-delete : (without_b >>= entries) ≡ ok ((key_a, key_c) ∷ (key_c, key_a) ∷ [])
unfolding delete_element entries insert_element new_skip_list bytes_lt bytes_eq
three-delete = refl

three-lower : (without_b >>= λ t. ok t.skip_list_level) ≡ ok 2
unfolding delete_element insert_element new_skip_list bytes_lt bytes_eq
three-lower = refl

-- The same list, with its cells.
abbrev live : Live
live =
    let one : Live = put_live (new_live 3 (λ i. 2 - i)) key_b key_b in
    put_live (put_live one key_c key_a) key_a key_c

insert_element-put_new_example :
    Returns
      (insert_element live.list 1 live.next (1 ∷ 2 ∷ []) key_c)
      (Inserted live.list live.cells live.next (1 ∷ 2 ∷ []) key_c)
insert_element-put_new_example =
    insert_element-put_new live.list live.cells 1 live.next (1 ∷ 2 ∷ []) key_c live.shape
      (live.unused live.next (omega arith))

delete_element-erase_key_example :
    Returns (delete_element live.list key_b) (Deleted live.list live.cells key_b)
delete_element-erase_key_example = delete_element-erase_key live.list live.cells key_b live.shape

live_ops-nodes_example :
    (search_element live.list key_c ≡ ok (live_ops.search_element live key_c))
    × (entries live.list ≡ ok (live_ops.entries live))
    × (delete_element live.list key_c ≡ ok (live_ops.delete_element live key_c).list)
    × (insert_element live.list (live.odds 0) live.next key_c key_a
        ≡ ok (
          (live_ops.insert_element live key_c key_a).list,
          if is_some (live_ops.search_element live key_c) then 1 else 0,
        ))
live_ops-nodes_example = live_ops-nodes live key_c key_a
