-- ===== src/Config/Tests.antt =====
-- A file as `Run` writes it: rpc/mprpcconfig.cpp, rpc/rpcprovider.cpp.
use rpc_storage_cpp.Common.{
  Bytes, bytes_eq, get_elem?, ℕ, ◌+◌, ◌*◌, ◌/◌, ◌%◌, ◌≡◌, refl, some, List, [], ◌∷◌, arith,
}
use rpc_storage_cpp.Config.Nodes.{kv_servers, ReadsBack, init_servers-Listed, init_servers}
use rpc_storage_cpp.Config.Entries.{Plain, load_key-load_config_file, or_empty, file_of, AllPlain}
use rpc_storage_cpp.Config.{
  insert_entry, split_at_byte, trim_back, trim_front, all_spaces, trim, load_line, load_lines,
  read_pieces, load_key, load_config_file, node_lines, find_key, MprpcConfig,
}

abbrev empty_config : MprpcConfig
empty_config = record { config_map = [] }

abbrev node_ip : Bytes
node_ip = b'n' ∷ b'0' ∷ b'i' ∷ b'p' ∷ []

abbrev node_port : Bytes
node_port = b'n' ∷ b'0' ∷ b'p' ∷ b'o' ∷ b'r' ∷ b't' ∷ []

abbrev address : Bytes
address = b'1' ∷ b'.' ∷ b'2' ∷ []

abbrev two_entries : List (Bytes × Bytes)
two_entries = (node_ip, address) ∷ (node_port, b'8' ∷ []) ∷ []

two_entries-AllPlain : AllPlain two_entries
two_entries-AllPlain = (
  record {
    no_comment = refl;
    key_space = (refl, (refl, (refl, (refl, tt))));
    key_equals = (refl, (refl, (refl, (refl, tt))));
    key_line = (refl, (refl, (refl, (refl, tt))));
    value_space = (refl, (refl, (refl, tt)));
    value_line = (refl, (refl, (refl, tt)));
    short = omega arith;
  },
  (
    record {
      no_comment = refl;
      key_space = (refl, (refl, (refl, (refl, (refl, (refl, tt))))));
      key_equals = (refl, (refl, (refl, (refl, (refl, (refl, tt))))));
      key_line = (refl, (refl, (refl, (refl, (refl, (refl, tt))))));
      value_space = (refl, tt);
      value_line = (refl, tt);
      short = omega arith;
    },
    tt,
  ),
)

load_key-load_config_file_example :
    load_key (load_config_file empty_config (file_of two_entries)) node_port
    ≡ or_empty (find_key node_port two_entries)
unfolding find_key
load_key-load_config_file_example =
    load_key-load_config_file empty_config two_entries node_port two_entries-AllPlain

-- `Run` writes such a file.
written : node_lines (b'n' ∷ b'0' ∷ []) address (b'8' ∷ []) ≡ file_of two_entries
unfolding node_lines
written = refl

-- Spaces around a key and a value, a comment, and a last line without an end.
spaced :
    load_config_file empty_config
      (b'#' ∷ b'=' ∷ b'\n' ∷ b' ' ∷ b'k' ∷ b' ' ∷ b'=' ∷ b' ' ∷ b'v' ∷ b' ' ∷ [])
    ≡ record { config_map = ((b'k' ∷ []), (b'v' ∷ [])) ∷ [] }
unfolding load_config_file read_pieces load_lines load_line trim all_spaces trim_front trim_back
    split_at_byte insert_entry find_key
spaced = refl

-- The lines of the node with number 0, whose address is short, and whose port is 40000. The digits of
-- a port are two bytes here.
abbrev node_entries : List (Bytes × Bytes)
node_entries =
    ((b'n' ∷ b'o' ∷ b'd' ∷ b'e' ∷ b'0' ∷ b'i' ∷ b'p' ∷ []), (b'a' ∷ []))
    ∷ ((b'n' ∷ b'o' ∷ b'd' ∷ b'e' ∷ b'0' ∷ b'p' ∷ b'o' ∷ b'r' ∷ b't' ∷ []), (156 ∷ 64 ∷ []))
    ∷ []

abbrev digit_of : ℕ → Bytes
digit_of i = (48 + i) ∷ []

abbrev show_bytes : ℕ → Bytes
show_bytes port = port / 256 ∷ port % 256 ∷ []

abbrev number_of : Bytes → ℕ
number_of [] = 0
number_of (c ∷ []) = c
number_of (c ∷ d ∷ s) = c * 256 + d

show_bytes-ReadsBack : ReadsBack show_bytes number_of
show_bytes-ReadsBack port l = omega (arith, l)

node_ip-Plain : Plain (b'n' ∷ b'o' ∷ b'd' ∷ b'e' ∷ b'0' ∷ b'i' ∷ b'p' ∷ []) (b'a' ∷ [])
node_ip-Plain = record {
  no_comment = refl;
  key_space = (refl, (refl, (refl, (refl, (refl, (refl, (refl, tt)))))));
  key_equals = (refl, (refl, (refl, (refl, (refl, (refl, (refl, tt)))))));
  key_line = (refl, (refl, (refl, (refl, (refl, (refl, (refl, tt)))))));
  value_space = (refl, tt);
  value_line = (refl, tt);
  short = omega arith;
}

node_port-Plain :
    Plain (b'n' ∷ b'o' ∷ b'd' ∷ b'e' ∷ b'0' ∷ b'p' ∷ b'o' ∷ b'r' ∷ b't' ∷ []) (156 ∷ 64 ∷ [])
node_port-Plain = record {
  no_comment = refl;
  key_space = (refl, (refl, (refl, (refl, (refl, (refl, (refl, (refl, (refl, tt)))))))));
  key_equals = (refl, (refl, (refl, (refl, (refl, (refl, (refl, (refl, (refl, tt)))))))));
  key_line = (refl, (refl, (refl, (refl, (refl, (refl, (refl, (refl, (refl, tt)))))))));
  value_space = (refl, (refl, tt));
  value_line = (refl, (refl, tt));
  short = omega arith;
}

-- A server with another number connects to the node.
init_servers-Listed_example :
    (init_servers digit_of number_of (file_of node_entries) ≡ ((b'a' ∷ []), 40000) ∷ [])
    × (get_elem? (kv_servers digit_of number_of 2 (file_of node_entries)) 0
        ≡ some (some ((b'a' ∷ []), 40000)))
unfolding find_key bytes_eq
init_servers-Listed_example =
    init_servers-Listed digit_of show_bytes number_of node_entries (((b'a' ∷ []), 40000) ∷ []) 2 0
      show_bytes-ReadsBack (node_ip-Plain, (node_port-Plain, tt))
      (refl, refl, refl, omega arith, refl) (omega arith)
