-- ===== src/SkipList/Laws.antt =====
-- What a search finds after `insert_set_element` and after `load_file`: skipList/include/skipList.h.
use rpc_storage_cpp.Common.{
  if◌then◌else◌, Bytes, bytes_eq, bytes_eq_refl, bytes_eq→eq, ◌≡◌, refl, ◌∙◌, Bool, true, false,
  ◌||◌, Option, none, some, List, [], ◌∷◌, map, arith,
}
use rpc_storage_cpp.SkipList.{
  dump_file, or_value, load_file, lookup, load_keys, insert_set_element, SkipListOps,
}

abbrev pub is_some : Option Bytes → Bool
is_some none = false
is_some (some v) = true

module _ {S : Type 0} (ops : SkipListOps S) where
  open ops use {search_element, insert_element, delete_element, entries}

  -- After `insert_set_element` a search for the key finds the new value, whether or not the key was
  -- there, and a search for another key finds what it found before.
  pub search-insert_set_element :
      (s : S) (k v j : Bytes)
      → search_element (insert_set_element ops s k v) j
        ≡ (if bytes_eq k j then some v else search_element s j)
  unfolding insert_set_element
  search-insert_set_element s k v j = ground (
    arith,
    ops.search-insert s k v j,
    ops.search-insert (delete_element s k) k v j,
    ops.search-delete s k k,
    ops.search-delete s k j,
    bytes_eq_refl k,
    bytes_eq→eq k j,
  )

  abbrev pub holds : Bytes → List Bytes → Bool
  holds j [] = false
  holds j (k ∷ ks) = bytes_eq k j || holds j ks

  search-load_keys :
      (s : S) (ks : List Bytes) (j : Bytes)
      → search_element (load_keys ops s ks) j
        ≡ (if holds j ks then some (or_value (search_element s j) j) else search_element s j)
  unfolding load_keys
  search-load_keys s [] j = refl
  search-load_keys s (k ∷ ks) j = ground (
    arith,
    search-load_keys (insert_element s k k) ks j,
    ops.search-insert s k k j,
    bytes_eq→eq k j,
  )

  holds-keys :
      (j : Bytes) (ps : List (Bytes × Bytes)) → holds j (map (λ p. p.0) ps) ≡ is_some (lookup j ps)
  unfolding lookup
  holds-keys j [] = refl
  holds-keys j ((k, v) ∷ ps) = ground (arith, holds-keys j ps)

  -- Loading the dump of one list into another gives each key of the dump that the other has not the
  -- key itself as its value: the dumped values are not looked at. All other keys are as they were.
  pub search-load_file :
      (s t : S) (j : Bytes)
      → search_element (load_file ops t (dump_file ops s)) j ≡ (
          if is_some (search_element s j)
          then some (or_value (search_element t j) j)
          else search_element t j)
  unfolding load_file dump_file
  search-load_file s t j =
      search-load_keys t (map (λ p. p.0) (entries s)) j
      ∙ rw (holds-keys j (entries s), ops.lookup-entries s j)
