-- ===== src/SkipList/Implements.antt =====
-- The nodes of skipList/include/skipList.h fill the interface that the rest of the program uses.
use rpc_storage_cpp.SkipList.Laws.{is_some}
use rpc_storage_cpp.Common.{
  if◌then◌else◌, Bool-cases, Bytes, bytes_eq, bytes_eq_refl, bytes_eq→eq, Returns-ok, ok, ℕ, ◌+◌,
  ◌≤◌, ◌≡◌, refl, ap, ◌∙◌, inl, inr, false, Option, none, some, List, [], ◌∷◌, arith,
}
use rpc_storage_cpp.SkipList.Order.{bytes_lt-eq, bytes_lt_irrefl, bytes_lt}
use rpc_storage_cpp.SkipList.Nodes.Search.{
  entries-pairs, other-key, lookup-none, search_element-lookup, pairs,
}
use rpc_storage_cpp.SkipList.Nodes.Shape.{All-map, NotBelow, Before, Shape, Pairs, Cell}
use rpc_storage_cpp.SkipList.{or_value, lookup, SkipListOps}
use rpc_storage_cpp.SkipList.Nodes.{
  entries, delete_element, insert_element, search_element, new_skip_list, SkipList,
}
use rpc_storage_cpp.SkipList.Nodes.Erase.{
  delete_element-erase_key, Deleted, new_skip_list-Shape, erase_key,
}
use rpc_storage_cpp.SkipList.Nodes.Put.{insert_element-put_new, Inserted, put_new}

-- What a search finds after an insertion in order.
pub lookup-put_new :
    (key value j : Bytes) (cs : List Cell)
    → Pairs Before cs
    → lookup j (put_new key value (pairs cs)) ≡ (
        if bytes_eq key j
        then some (or_value (lookup key (pairs cs)) value)
        else lookup j (pairs cs))
unfolding put_new lookup
lookup-put_new key value j [] h = refl
lookup-put_new key value j (c ∷ cs) h = elim (Bool-cases (bytes_lt c.key key)) [
  | inl e ↦ ground (
    arith,
    e,
    bytes_lt-eq c.key key e,
    lookup-put_new key value j cs h.1,
    bytes_eq→eq c.key j,
    bytes_eq→eq key j,
    bytes_eq_refl key,
    bytes_eq_refl c.key,
  )
  | inr e ↦
      let rest = lookup-none key cs (
        All-map (Before c) (λ d. bytes_eq d.key key ≡ false) cs (λ d r. other-key key c d e r)
          h.0) in
      ground (
        arith,
        e,
        rest,
        bytes_eq→eq c.key key,
        bytes_eq→eq c.key j,
        bytes_eq→eq key j,
        bytes_eq_refl key,
        bytes_eq_refl c.key,
      )
]

-- What a search finds after a deletion in order.
pub lookup-erase_key :
    (key j : Bytes) (cs : List Cell)
    → Pairs Before cs
    → lookup j (erase_key key (pairs cs)) ≡ (if bytes_eq key j then none else lookup j (pairs cs))
unfolding erase_key lookup
lookup-erase_key key j [] h = ground arith
lookup-erase_key key j (c ∷ cs) h = elim (Bool-cases (bytes_eq c.key key)) [
  | inl e ↦
      let not_low : NotBelow key c = cc (bytes_lt_irrefl c.key, bytes_eq→eq c.key key e) in
      let rest = lookup-none key cs (
        All-map (Before c) (λ d. bytes_eq d.key key ≡ false) cs (λ d r. other-key key c d not_low r)
          h.0) in
      ground (arith, e, rest, bytes_eq→eq c.key key e, bytes_eq→eq key j, bytes_eq_refl key)
  | inr e ↦ ground (
    arith,
    e,
    lookup-erase_key key j cs h.1,
    bytes_eq→eq c.key j,
    bytes_eq→eq key j,
    bytes_eq_refl key,
    bytes_eq_refl c.key,
  )
]

-- A list in memory with its cells, the first of the addresses that `new` has not returned yet, and
-- what `rand` returns at each call to come.
pub record Live : Type 0 where
  pub list : SkipList
  pub cells : List Cell
  pub shape : Shape list cells
  pub next : ℕ
  pub unused : (a : ℕ) → next ≤ a → list.nodes a ≡ none
  pub odds : ℕ → ℕ

pub new_skip_list-unused : (max_level a : ℕ) → 1 ≤ a → (new_skip_list max_level).nodes a ≡ none
unfolding new_skip_list
new_skip_list-unused max_level a l = ground arith

abbrev pub new_live : (max_level : ℕ) (odds : ℕ → ℕ) → Live
new_live max_level odds = record {
  list = new_skip_list max_level;
  cells = [];
  shape = new_skip_list-Shape max_level;
  next = 1;
  unused = new_skip_list-unused max_level;
  odds = odds;
}

pub put_outcome :
    (l : Live) (key value : Bytes)
    → (r : SkipList × ℕ) × (insert_element l.list (l.odds 0) l.next key value ≡ ok r)
      × Inserted l.list l.cells l.next key value r
put_outcome l key value = Returns-ok (insert_element l.list (l.odds 0) l.next key value) (
    insert_element-put_new l.list l.cells (l.odds 0) l.next key value l.shape
      (l.unused l.next (omega arith)))

pub put_live : Live → (key value : Bytes) → Live
put_live l key value =
    let (r, e, p) = put_outcome l key value in
    record {
      list = r.0;
      cells = p.cells;
      shape = p.shape;
      next = l.next + 1;
      unused = λ a m. p.unused a (omega arith) (l.unused a (omega arith));
      odds = λ i. l.odds (i + 1);
    }

pub delete_outcome :
    (l : Live) (key : Bytes)
    → (r : SkipList) × (delete_element l.list key ≡ ok r) × Deleted l.list l.cells key r
delete_outcome l key =
    Returns-ok (delete_element l.list key) (delete_element-erase_key l.list l.cells key l.shape)

pub erase_live : Live → (key : Bytes) → Live
erase_live l key =
    let (r, e, p) = delete_outcome l key in
    record {
      list = r;
      cells = p.cells;
      shape = p.shape;
      next = l.next;
      unused = λ a m. p.unused a (l.unused a m);
      odds = l.odds;
    }

search_outcome : (l : Live) (key : Bytes) → (r : Option Bytes) × (search_element l.list key ≡ ok r)
search_outcome l key =
    (lookup key (pairs l.cells), search_element-lookup l.list l.cells key l.shape)

-- The operations on the nodes return, and have the laws that the key-value server relies on.
unfoldable pub live_ops : SkipListOps Live
unfolding put_live erase_live search_outcome
live_ops = record {
  search_element = λ l key. (search_outcome l key).0;
  insert_element = put_live;
  delete_element = erase_live;
  entries = λ l. pairs l.cells;
  search-insert = λ l key value j.
      ap (lookup j) (put_outcome l key value).2.pairs_eq
      ∙ lookup-put_new key value j l.cells l.shape.ordered;
  search-delete = λ l key j.
      ap (lookup j) (delete_outcome l key).2.pairs_eq
      ∙ lookup-erase_key key j l.cells l.shape.ordered;
  lookup-entries = λ l j. refl;
}

-- The interface returns what the code returns on the nodes: the same values, and the same lists.
pub live_ops-nodes :
    (l : Live) (key value : Bytes)
    → (search_element l.list key ≡ ok (live_ops.search_element l key))
      × (entries l.list ≡ ok (live_ops.entries l))
      × (delete_element l.list key ≡ ok (live_ops.delete_element l key).list)
      × (insert_element l.list (l.odds 0) l.next key value
          ≡ ok (
            (live_ops.insert_element l key value).list,
            if is_some (live_ops.search_element l key) then 1 else 0,
          ))
unfolding live_ops put_live erase_live search_outcome
live_ops-nodes l key value =
    let (r, e, p) = put_outcome l key value in
    (
      search_element-lookup l.list l.cells key l.shape,
      entries-pairs l.list l.cells l.shape,
      (delete_outcome l key).1,
      e ∙ ap (λ c. ok (r.0, c)) p.code,
    )
