-- ===== src/Config/Nodes.antt =====
-- How a client and a server find the nodes: Clerk::Init of raftClerk/clerk.cpp and the constructor of
-- KvServer in raftCore/kvServer.cpp. `std::to_string` and `atoi` are arguments. What `atoi` returns, an
-- `int`, is its 32 bits, and a `short` its 16 bits, which are also the `uint16_t` of the channel.
use rpc_storage_cpp.Common.{
  ◌==◌, if◌then◌else◌, Bytes, length, get_elem?, ℕ, zero, suc, ◌+◌, ◌-◌, ◌%◌, ◌^◌, ◌<◌, ◌≡◌, refl,
  ap, ◌∙◌, Bool, true, false, Option, none, some, List, [], ◌∷◌, ◌++◌, arith,
}
use rpc_storage_cpp.Config.Entries.{load_key-load_config_file, or_empty, AllPlain, file_of}
use rpc_storage_cpp.Config.{find_key, load_config_file, MprpcConfig, load_key}

-- "node", the number, and "ip" or "port".
abbrev pub ip_key : (to_string : ℕ → Bytes) → ℕ → Bytes
ip_key to_string i = (b'n' ∷ b'o' ∷ b'd' ∷ b'e' ∷ to_string i) ++ (b'i' ∷ b'p' ∷ [])

abbrev pub port_key : (to_string : ℕ → Bytes) → ℕ → Bytes
port_key to_string i = (b'n' ∷ b'o' ∷ b'd' ∷ b'e' ∷ to_string i) ++ (b'p' ∷ b'o' ∷ b'r' ∷ b't' ∷ [])

abbrev pub is_empty_string : Bytes → Bool
is_empty_string [] = true
is_empty_string (c ∷ s) = false

-- The conversion to `short` of what `atoi` returns.
abbrev pub to_short : ℕ → ℕ
to_short n = n % 2 ^ 16

-- The loop over the nodes from `i` on, with how many rounds are left.
unfoldable pub read_nodes :
    (to_string : ℕ → Bytes) → (atoi : Bytes → ℕ) → MprpcConfig → (i rounds : ℕ) → List (Bytes × ℕ)
unfolding load_key
read_nodes to_string atoi m i zero = []
read_nodes to_string atoi m i (suc rounds) =
    let node_ip = load_key m (ip_key to_string i) in
    let node_port = load_key m (port_key to_string i) in
    let rest = read_nodes to_string atoi m (i + 1) rounds in
    if is_empty_string node_ip then [] else (node_ip, to_short (atoi node_port)) ∷ rest

-- `INT_MAX - 1`.
abbrev pub max_rounds : ℕ
max_rounds = 2 ^ 31 - 2

-- The addresses to which `Init` makes a channel, with the file's content.
unfoldable pub init_servers :
    (to_string : ℕ → Bytes) → (atoi : Bytes → ℕ) → (content : Bytes) → List (Bytes × ℕ)
unfolding read_nodes load_config_file
init_servers to_string atoi content =
    read_nodes to_string atoi (load_config_file (record { config_map = [] }) content) 0 max_rounds

-- The loop of the constructor of `KvServer` over the addresses, from number `i` on: none for the node
-- itself.
unfoldable pub peer_channels : (me i : ℕ) → List (Bytes × ℕ) → List (Option (Bytes × ℕ))
peer_channels me i [] = []
peer_channels me i (node ∷ nodes) =
    (if i == me then none else some node) ∷ peer_channels me (i + 1) nodes

-- The channels that the constructor of `KvServer` makes, with the file's content.
unfoldable pub kv_servers :
    (to_string : ℕ → Bytes)
    → (atoi : Bytes → ℕ) → (me : ℕ) → (content : Bytes) → List (Option (Bytes × ℕ))
unfolding read_nodes load_config_file peer_channels
kv_servers to_string atoi me content =
    peer_channels me 0 (
      read_nodes to_string atoi (load_config_file (record { config_map = [] }) content) 0
        max_rounds)

-- The entries name these nodes, from number `i` on, and no further one. `show_port` is
-- `std::to_string` of a `short`, by its bits.
abbrev pub Listed :
    (to_string show_port : ℕ → Bytes) → List (Bytes × Bytes) → ℕ → List (Bytes × ℕ) → Type 0
Listed to_string show_port es i [] = find_key (ip_key to_string i) es ≡ none
Listed to_string show_port es i ((ip, port) ∷ nodes) =
    (find_key (ip_key to_string i) es ≡ some ip)
    × (is_empty_string ip ≡ false)
    × (find_key (port_key to_string i) es ≡ some (show_port port))
    × (port < 2 ^ 16)
    × Listed to_string show_port es (i + 1) nodes

abbrev no_config : MprpcConfig
no_config = record { config_map = [] }

loaded :
    (es : List (Bytes × Bytes)) (key : Bytes)
    → AllPlain es
    → load_key (load_config_file no_config (file_of es)) key ≡ or_empty (find_key key es)
unfolding find_key
loaded es key h = load_key-load_config_file no_config es key h

-- `atoi` reads back a port that was written, as far as a `short` holds it.
abbrev pub ReadsBack : (show_port : ℕ → Bytes) → (atoi : Bytes → ℕ) → Type 0
ReadsBack show_port atoi = (port : ℕ) → port < 2 ^ 16 → atoi (show_port port) % 2 ^ 16 ≡ port

read_nodes-Listed :
    (to_string show_port : ℕ → Bytes) (atoi : Bytes → ℕ) (es : List (Bytes × Bytes)) (i rounds : ℕ)
    (nodes : List (Bytes × ℕ))
    → ReadsBack show_port atoi
    → AllPlain es
    → Listed to_string show_port es i nodes
    → length nodes < rounds
    → read_nodes to_string atoi (load_config_file no_config (file_of es)) i rounds ≡ nodes
unfolding read_nodes
read_nodes-Listed to_string show_port atoi es i zero nodes b h l r = absurd (omega (arith, r))
read_nodes-Listed to_string show_port atoi es i (suc rounds) [] b h l r =
    let ip = loaded es (ip_key to_string i) h in rw (read_nodes, ip, l) refl
read_nodes-Listed to_string show_port atoi es i (suc rounds) ((ip, port) ∷ nodes) b h
      (e, n, f, p, l) r =
    let k = loaded es (ip_key to_string i) h in
    let q = loaded es (port_key to_string i) h in
    let rest =
      read_nodes-Listed to_string show_port atoi es (i + 1) rounds nodes b h l (omega (arith, r)) in
    rw (read_nodes, k, e, n, q, f, rest) (ap (λ x. (ip, x) ∷ nodes) (b port p))

-- The channel of a server to a node of some number.
abbrev pub channel_to : (me i : ℕ) → Option (Bytes × ℕ) → Option (Option (Bytes × ℕ))
channel_to me i none = none
channel_to me i (some node) = some (if i == me then none else some node)

get_elem?-peer_channels :
    (me i k : ℕ) (nodes : List (Bytes × ℕ))
    → get_elem? (peer_channels me i nodes) k ≡ channel_to me (i + k) (get_elem? nodes k)
unfolding peer_channels
get_elem?-peer_channels me i k [] = refl
get_elem?-peer_channels me i zero (node ∷ nodes) =
    let same : i + 0 ≡ i = omega arith in rw same refl
get_elem?-peer_channels me i (suc k) (node ∷ nodes) =
    let same : i + 1 + k ≡ i + suc k = omega arith in
    get_elem?-peer_channels me (i + 1) k nodes ∙ ap (λ j. channel_to me j (get_elem? nodes k)) same

-- A file holds the lines of some entries, as the nodes write them when they start, in any order and with
-- others between them, and the entries name some nodes, with numbers from 0 on and no number left out,
-- each with an address and a port of 16 bits. Keys and values are plain, addresses are not empty, there are
-- fewer than 2 ^ 31 - 2 nodes, and `atoi` reads back, to 16 bits, a port that was written as a `short`.
-- Then the client connects to exactly these nodes, in the order of their numbers, each by its own address
-- and port; and a server with the number `me` has under each number the channel to the node of that number,
-- none under its own, and no further ones.
pub init_servers-Listed :
    (to_string show_port : ℕ → Bytes) (atoi : Bytes → ℕ) (es : List (Bytes × Bytes))
    (nodes : List (Bytes × ℕ)) (me i : ℕ)
    → ReadsBack show_port atoi
    → AllPlain es
    → Listed to_string show_port es 0 nodes
    → length nodes < max_rounds
    → (init_servers to_string atoi (file_of es) ≡ nodes)
      × (get_elem? (kv_servers to_string atoi me (file_of es)) i
          ≡ channel_to me i (get_elem? nodes i))
unfolding init_servers kv_servers
init_servers-Listed to_string show_port atoi es nodes me i b h l r =
    let read = read_nodes-Listed to_string show_port atoi es 0 max_rounds nodes b h l r in
    (
      read,
      ap (λ ns. get_elem? (peer_channels me 0 ns) i) read
          ∙ get_elem?-peer_channels me 0 i nodes
          ∙ ap (λ j. channel_to me j (get_elem? nodes i)) (omega arith),
    )
