-- ===== src/Config.antt =====
-- Class `MprpcConfig`, rpc/mprpcconfig.cpp, and the lines that `Run` of rpc/rpcprovider.cpp appends to
-- such a file. A file is its bytes, none of them 0.
pub mod Trimming
pub mod Entries
pub mod Nodes
mod Tests
use rpc_storage_cpp.Common.{
  ltb, leb, ◌==◌, if◌then◌else◌, Bool-cases, Option-cases, Bytes, bytes_eq, bytes_eq_refl,
  bytes_eq→eq, length, get_elem?, set, take, drop, replicate, last_or, length-append, length-set,
  length-drop, length-take, drop_all, get_elem?-lt, lt-get_elem?, take_all, take-append-drop,
  get_elem?-append_right, get_elem?-append_left, get_elem?-drop, drop-get_elem?, length-replicate,
  get_elem?-replicate, Fault, Result, ◌>>=◌, ◌>>◌, my_assert, at_index, Returns, if-bind,
  Returns-ok, Returns-at, assert_failed, out_of_range, out_of_fuel, err, ok, ℕ, zero, suc, ◌+◌, ◌-◌,
  ◌*◌, ◌/◌, ◌%◌, ◌^◌, ◌≤◌, ◌<◌, max, min, ◌≡◌, refl, sym, ap, ◌∙◌, subst, ◌≢◌, ◌↔◌, ◌⊎◌, inl, inr,
  Bool, true, false, not, ◌&&◌, ◌||◌, Option, none, some, List, [], ◌∷◌, ◌++◌, map, arith,
}

-- `m_configMap`, each key once.
pub record MprpcConfig : Type 0 where
  pub config_map : List (Bytes × Bytes)

unfoldable pub all_spaces : Bytes → Bool
all_spaces [] = true
all_spaces (c ∷ s) = c == b' ' && all_spaces s

unfoldable pub trim_front : Bytes → Bytes
trim_front [] = []
trim_front (c ∷ s) = let rest = trim_front s in if c == b' ' then rest else c ∷ s

abbrev pub cons_unless_blank : ℕ → Bytes → Bytes
cons_unless_blank c [] = if c == b' ' then [] else c ∷ []
cons_unless_blank c (d ∷ s) = c ∷ d ∷ s

unfoldable pub trim_back : Bytes → Bytes
trim_back [] = []
trim_back (c ∷ s) = cons_unless_blank c (trim_back s)

-- `Trim`: nothing is found in a string of spaces, and it stays as it is.
unfoldable pub trim : Bytes → Bytes
unfolding all_spaces trim_front trim_back
trim s = if all_spaces s then s else trim_back (trim_front s)

-- The string in front of a byte and that behind it.
unfoldable pub split_at_byte : ℕ → Bytes → Option (Bytes × Bytes)
split_at_byte b [] = none
split_at_byte b (c ∷ s) =
    let rest = split_at_byte b s in
    if c == b then some ([], s) else elim rest [ none ↦ none | some p ↦ some (c ∷ p.0, p.1) ]

-- `find('\n', idx)` and `substr`, to the end where there is no end of line.
abbrev pub first_line : Bytes → Bytes
first_line s = elim (split_at_byte b'\n' s) [ none ↦ s | some p ↦ p.0 ]

unfoldable pub find_key : Bytes → List (Bytes × Bytes) → Option Bytes
find_key key [] = none
find_key key ((k, v) ∷ r) = if bytes_eq k key then some v else find_key key r

-- `insert` keeps an entry that is there.
unfoldable pub insert_entry : MprpcConfig → (key value : Bytes) → MprpcConfig
insert_entry m key value = elim (find_key key m.config_map) [
  | none ↦ record { config_map = m.config_map ++ (key, value) ∷ [] }
  | some v ↦ m
]

abbrev pub is_comment : Bytes → Bool
is_comment [] = true
is_comment (c ∷ s) = c == b'#'

-- One round of the loop of `LoadConfigFile`.
unfoldable pub load_line : MprpcConfig → (buf : Bytes) → MprpcConfig
unfolding trim split_at_byte insert_entry
load_line m buf = if is_comment (trim buf) then m else elim (split_at_byte b'=' (trim buf)) [
  | none ↦ m
  | some p ↦ insert_entry m (trim p.0) (trim (first_line p.1))
]

-- What the calls of `fgets` read: up to 511 bytes, and no further than the end of a line. The first
-- piece, of which `room` bytes may still come, and the other pieces.
unfoldable pub read_pieces : (room : ℕ) → Bytes → Bytes × List Bytes
read_pieces room [] = ([], [])
read_pieces room (c ∷ s) =
    let ends = c == b'\n' || leb room 1 in
    let (p, ps) = read_pieces (if ends then 511 else room - 1) s in
    if ends then (c ∷ [], p ∷ ps) else (c ∷ p, ps)

unfoldable pub load_lines : MprpcConfig → List Bytes → MprpcConfig
unfolding load_line
load_lines m [] = m
load_lines m (l ∷ ls) = load_lines (load_line m l) ls

unfoldable pub load_config_file : MprpcConfig → (content : Bytes) → MprpcConfig
unfolding read_pieces load_lines
load_config_file m content = let (p, ps) = read_pieces 511 content in load_lines m (p ∷ ps)

-- `Load`.
unfoldable pub load_key : MprpcConfig → (key : Bytes) → Bytes
load_key m key = elim (find_key key m.config_map) [ none ↦ [] | some v ↦ v ]

-- The two lines of `Run`, with the node's name, its address and its port as strings.
abbrev pub entry_line : (key value : Bytes) → Bytes
entry_line key value = key ++ (b'=' ∷ (value ++ (b'\n' ∷ [])))

unfoldable pub node_lines : (node ip port : Bytes) → Bytes
node_lines node ip port =
    entry_line (node ++ (b'i' ∷ b'p' ∷ [])) ip
    ++ entry_line (node ++ (b'p' ∷ b'o' ∷ b'r' ∷ b't' ∷ [])) port
