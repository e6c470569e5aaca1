-- ===== src/Config/Entries.antt =====
-- A file of entries is read back: rpc/mprpcconfig.cpp.
use mathlib.Core.List.{append_assoc}
use rpc_storage_cpp.Common.{
  if◌then◌else◌, Option-cases, Bytes, bytes_eq, bytes_eq→eq, length, length-append, ◌+◌, ◌<◌, ◌≡◌,
  refl, sym, ap, ◌∙◌, inl, inr, false, Option, none, some, List, [], ◌∷◌, ◌++◌, arith,
}
use rpc_storage_cpp.Config.Trimming.{
  read_pieces-line, split_at_byte-append, Free-append, trim-Free, Free,
}
use rpc_storage_cpp.Config.{
  load_key, find_key, first_line, load_lines, trim, read_pieces, insert_entry, load_config_file,
  MprpcConfig, load_line, entry_line, is_comment,
}

-- A key and a value that a line can hold.
pub record Plain (key value : Bytes) : Type 0 where
  pub no_comment : is_comment key ≡ false
  pub key_space : Free b' ' key
  pub key_equals : Free b'=' key
  pub key_line : Free b'\n' key
  pub value_space : Free b' ' value
  pub value_line : Free b'\n' value
  pub short : length key + length value < 510

abbrev pub AllPlain : List (Bytes × Bytes) → Type 0
AllPlain [] = Unit {0}
AllPlain ((k, v) ∷ es) = Plain k v × AllPlain es

-- The file with these entries.
abbrev pub file_of : List (Bytes × Bytes) → Bytes
file_of [] = []
file_of ((k, v) ∷ es) = entry_line k v ++ file_of es

is_comment-append : (s t : Bytes) → is_comment s ≡ false → is_comment (s ++ t) ≡ false
is_comment-append [] t h = absurd (cc h)
is_comment-append (c ∷ s) t h = h

load_line-entry_line :
    (m : MprpcConfig) (key value : Bytes)
    → Plain key value
    → load_line m (entry_line key value) ≡ insert_entry m key value
unfolding load_line
load_line-entry_line m key value h =
    let tail = b'=' ∷ (value ++ (b'\n' ∷ [])) in
    let whole : trim (entry_line key value) ≡ entry_line key value =
      trim-Free (entry_line key value) (
        Free-append b' ' key tail h.key_space
          (refl, Free-append b' ' value (b'\n' ∷ []) h.value_space (refl, tt))) in
    rw
      (
        load_line,
        whole,
        is_comment-append key tail h.no_comment,
        split_at_byte-append b'=' key (value ++ (b'\n' ∷ [])) h.key_equals,
        first_line,
        split_at_byte-append b'\n' value [] h.value_line,
        trim-Free key h.key_space,
        trim-Free value h.value_space,
      )
      refl

-- The entries put in one after the other.
abbrev pub insert_all : MprpcConfig → List (Bytes × Bytes) → MprpcConfig
insert_all m [] = m
insert_all m ((k, v) ∷ es) = insert_all (insert_entry m k v) es

read_pieces-entry_line :
    (key value rest : Bytes)
    → Plain key value
    → read_pieces 511 (entry_line key value ++ rest)
      ≡ (entry_line key value, (read_pieces 511 rest).0 ∷ (read_pieces 511 rest).1)
read_pieces-entry_line key value rest h =
    let l = key ++ (b'=' ∷ value) in
    let free = Free-append b'\n' key (b'=' ∷ value) h.key_line (refl, h.value_line) in
    let line : l ++ (b'\n' ∷ []) ≡ entry_line key value =
      append_assoc key (b'=' ∷ value) (b'\n' ∷ []) in
    let whole : entry_line key value ++ rest ≡ l ++ (b'\n' ∷ rest) =
      ap (λ d. d ++ rest) (sym line) ∙ append_assoc l (b'\n' ∷ []) rest in
    ap (read_pieces 511) whole
    ∙ read_pieces-line 511 l rest free (omega (arith, h.short, length-append key (b'=' ∷ value)))
    ∙ ap (λ d. (d, (read_pieces 511 rest).0 ∷ (read_pieces 511 rest).1)) line

load_config_file-file_of :
    (m : MprpcConfig) (es : List (Bytes × Bytes))
    → AllPlain es
    → load_config_file m (file_of es) ≡ insert_all m es
unfolding load_config_file load_lines
load_config_file-file_of m [] h = refl
load_config_file-file_of m ((k, v) ∷ es) (p, h) =
    ap (λ (q : Bytes × List Bytes). load_lines m (q.0 ∷ q.1))
      (read_pieces-entry_line k v (file_of es) p)
    ∙ ap (λ (n : MprpcConfig). load_config_file n (file_of es)) (load_line-entry_line m k v p)
    ∙ load_config_file-file_of (insert_entry m k v) es h

-- The first of two values counts.
abbrev pub first_of : Option Bytes → Option Bytes → Option Bytes
first_of none p = p
first_of (some v) p = some v

find_key-append :
    (key : Bytes) (as_ bs : List (Bytes × Bytes))
    → find_key key (as_ ++ bs) ≡ first_of (find_key key as_) (find_key key bs)
unfolding find_key
find_key-append key [] bs = refl
find_key-append key ((k, v) ∷ as_) bs = ground (arith, find_key-append key as_ bs)

find_key-insert_entry :
    (m : MprpcConfig) (key value k : Bytes)
    → find_key k (insert_entry m key value).config_map
      ≡ first_of (find_key k m.config_map) (if bytes_eq key k then some value else none)
unfolding insert_entry find_key
find_key-insert_entry m key value k = elim (Option-cases (find_key key m.config_map)) [
  | inl e ↦
      rw (insert_entry, e)
        (find_key-append k m.config_map ((key, value) ∷ []) ∙ unfold find_key in refl)
  | inr (v, e) ↦ rw (insert_entry, e) (ground (arith, bytes_eq→eq key k, e))
]

find_key-insert_all :
    (m : MprpcConfig) (es : List (Bytes × Bytes)) (k : Bytes)
    → find_key k (insert_all m es).config_map ≡ first_of (find_key k m.config_map) (find_key k es)
unfolding find_key
find_key-insert_all m [] k = ground arith
find_key-insert_all m ((j, v) ∷ es) k =
    find_key-insert_all (insert_entry m j v) es k
    ∙ ap (λ o. first_of o (find_key k es)) (find_key-insert_entry m j v k)
    ∙ ground arith

-- What `Load` returns for a key.
abbrev pub or_empty : Option Bytes → Bytes
or_empty none = []
or_empty (some v) = v

-- Loading a file of plain entries and asking for a key returns the value that was there for the key
-- before, else the first one that the file has for it, else the empty string. An entry is plain when its
-- line is shorter than 512 bytes, the key starts no comment and has no space, `=` or end of line, and
-- the value has no space or end of line.
pub load_key-load_config_file :
    (m : MprpcConfig) (es : List (Bytes × Bytes)) (key : Bytes)
    → AllPlain es
    → load_key (load_config_file m (file_of es)) key
      ≡ or_empty (first_of (find_key key m.config_map) (find_key key es))
unfolding load_key
load_key-load_config_file m es key h =
    ap (λ n. load_key n key) (load_config_file-file_of m es h)
    ∙ ground (arith, find_key-insert_all m es key)
