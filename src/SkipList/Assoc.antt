-- ===== src/SkipList/Assoc.antt =====
-- The interface of skipList/include/skipList.h over an association list, which the tests use in the
-- place of a skip list.
use rpc_storage_cpp.Common.{
  if◌then◌else◌, Bytes, bytes_eq, bytes_eq_refl, bytes_eq→eq, ◌≡◌, refl, none, some, List, [], ◌∷◌,
  arith,
}
use rpc_storage_cpp.SkipList.{or_value, SkipListOps, lookup}

unfoldable pub remove : Bytes → List (Bytes × Bytes) → List (Bytes × Bytes)
remove k [] = []
remove k ((j, v) ∷ r) = if bytes_eq j k then remove k r else (j, v) ∷ remove k r

pub lookup-remove :
    (s : List (Bytes × Bytes)) (k j : Bytes)
    → lookup j (remove k s) ≡ (if bytes_eq k j then none else lookup j s)
unfolding lookup remove
lookup-remove [] k j = ground arith
lookup-remove ((i, v) ∷ r) k j = ground (
  arith,
  lookup-remove r k j,
  bytes_eq→eq i k,
  bytes_eq→eq i j,
  bytes_eq→eq k j,
  bytes_eq_refl k,
  bytes_eq_refl i,
  bytes_eq_refl j,
)

-- An insertion keeps a value that is there already.
abbrev pub add : List (Bytes × Bytes) → Bytes → Bytes → List (Bytes × Bytes)
add s k v = elim (lookup k s) [ none ↦ (k, v) ∷ s | some w ↦ s ]

pub lookup-add :
    (s : List (Bytes × Bytes)) (k v j : Bytes)
    → lookup j (add s k v) ≡ (if bytes_eq k j then some (or_value (lookup k s) v) else lookup j s)
unfolding lookup
lookup-add s k v j = ground (arith, bytes_eq→eq k j)

abbrev pub assoc_ops : SkipListOps (List (Bytes × Bytes))
assoc_ops = record {
  search_element = λ s k. lookup k s;
  insert_element = add;
  delete_element = λ s k. remove k s;
  entries = λ s. s;
  search-insert = lookup-add;
  search-delete = lookup-remove;
  lookup-entries = λ s j. refl;
}

abbrev pub one : List (Bytes × Bytes)
one = ((1 ∷ []), (2 ∷ [])) ∷ []
