-- ===== src/SkipList.antt =====
-- skipList/include/skipList.h: what the rest of the program uses of class `SkipList`, as an interface,
-- and the member functions that are written in terms of it: `insert_set_element`, `dump_file` and
-- `load_file`.
pub mod Laws
pub mod Order
pub mod Nodes
pub mod Assoc
pub mod Implements
mod Tests
use rpc_storage_cpp.Common.{
  if◌then◌else◌, Bytes, bytes_eq, ◌≡◌, Option, none, some, List, [], ◌∷◌, map,
}

-- An association list, read from the front: the first pair of a key counts.
unfoldable pub lookup : Bytes → List (Bytes × Bytes) → Option Bytes
lookup k [] = none
lookup k ((j, v) ∷ r) = if bytes_eq j k then some v else lookup k r

abbrev pub or_value : Option Bytes → Bytes → Bytes
or_value none v = v
or_value (some w) v = w

-- The public operations of a skip list of strings, `S`, and what they do to a search. `entries` is
-- the walk along level 0.
pub record SkipListOps (S : Type 0) : Type 0 where
  pub search_element : S → Bytes → Option Bytes
  pub insert_element : S → Bytes → Bytes → S
  pub delete_element : S → Bytes → S
  pub entries : S → List (Bytes × Bytes)
  pub search-insert :
      (s : S) (k v j : Bytes)
      → search_element (insert_element s k v) j
        ≡ (if bytes_eq k j then some (or_value (search_element s k) v) else search_element s j)
  pub search-delete :
      (s : S) (k j : Bytes)
      → search_element (delete_element s k) j ≡ (if bytes_eq k j then none else search_element s j)
  pub lookup-entries : (s : S) (j : Bytes) → lookup j (entries s) ≡ search_element s j

module _ {S : Type 0} (ops : SkipListOps S) where
  open ops use {search_element, insert_element, delete_element, entries}

  unfoldable pub insert_set_element : S → Bytes → Bytes → S
  insert_set_element s k v =
      insert_element (elim (search_element s k) [ none ↦ s | some old ↦ delete_element s k ]) k v

  -- `SkipListDump`: the keys and the values, in the order of level 0.
  unfoldable pub dump_file : S → List Bytes × List Bytes
  dump_file s = (map (λ p. p.0) (entries s), map (λ p. p.1) (entries s))

  -- The loop of `load_file` inserts each key with itself as the value.
  unfoldable pub load_keys : S → List Bytes → S
  load_keys s [] = s
  load_keys s (k ∷ ks) = load_keys (insert_element s k k) ks

  unfoldable pub load_file : S → List Bytes × List Bytes → S
  unfolding load_keys
  load_file s d = load_keys s d.0
