-- ===== src/KvServer/State.antt =====
-- The data of a server: raftCore/include/kvServer.h, common/include/util.h and
-- raftRpcPro/kvServerRPC.proto.
use rpc_storage_cpp.Common.{
  ◌==◌, if◌then◌else◌, Bytes, bytes_eq, ℕ, ◌≡◌, Bool, ◌&&◌, Option, none, some, List, [], ◌∷◌,
}
use rpc_storage_cpp.Raft.State.{Raft}

-- `Op`.
pub record Op : Type 0 where
  pub operation : Bytes
  pub key : Bytes
  pub value : Bytes
  pub client_id : Bytes
  pub request_id : ℕ

-- Boost's archive of an `Op` and of the server's serialised members, which are not part of the
-- program: reading an `Op` back gives the one that was written.
pub record KvArchive : Type 0 where
  pub as_string : Op → Bytes
  pub parse_from_string : Bytes → Op
  pub parse-as_string : (op : Op) → parse_from_string (as_string op) ≡ op
  pub write_snapshot : (List Bytes × List Bytes) × List (Bytes × ℕ) → Bytes
  pub read_snapshot : Bytes → (List Bytes × List Bytes) × List (Bytes × ℕ)

-- The fields of class `KvServer` that its operations use. `max_raft_state` is `none` for -1, and
-- `wait_apply_ch` has the queues of type `LockQueue<Op>`, the first to be popped in front.
pub record KvServer (S : Type 0) : Type 0 where
  pub boost : KvArchive
  pub raft_node : Raft
  pub max_raft_state : Option ℕ
  pub skip_list : S
  pub wait_apply_ch : List (ℕ × List Op)
  pub last_request_id : List (Bytes × ℕ)
  pub last_snap_shot_raft_log_index : ℕ

-- `std::unordered_map<std::string, int>`: `find` and `operator[] =`.
unfoldable pub get_id : Bytes → List (Bytes × ℕ) → Option ℕ
get_id c [] = none
get_id c ((j, n) ∷ m) = if bytes_eq j c then some n else get_id c m

unfoldable pub set_id : Bytes → ℕ → List (Bytes × ℕ) → List (Bytes × ℕ)
set_id c n [] = (c, n) ∷ []
set_id c n ((j, k) ∷ m) = if bytes_eq j c then (j, n) ∷ m else (j, k) ∷ set_id c n m

-- `std::unordered_map<int, LockQueue<Op> *>`.
unfoldable pub get_queue : ℕ → List (ℕ × List Op) → Option (List Op)
get_queue i [] = none
get_queue i ((j, q) ∷ m) = if j == i then some q else get_queue i m

unfoldable pub set_queue : ℕ → List Op → List (ℕ × List Op) → List (ℕ × List Op)
set_queue i q [] = (i, q) ∷ []
set_queue i q ((j, r) ∷ m) = if j == i then (j, q) ∷ m else (j, r) ∷ set_queue i q m

unfoldable pub erase_queue : ℕ → List (ℕ × List Op) → List (ℕ × List Op)
erase_queue i [] = []
erase_queue i ((j, q) ∷ m) = let rest = erase_queue i m in if j == i then rest else (j, q) ∷ rest

-- A queue for an index, a new one if there is none.
unfoldable pub ensure_queue : ℕ → List (ℕ × List Op) → List (ℕ × List Op)
ensure_queue i m = elim (get_queue i m) [ none ↦ set_queue i [] m | some q ↦ m ]

-- The strings that the code compares with or sends.
abbrev pub put_word : Bytes
put_word = b'P' ∷ b'u' ∷ b't' ∷ []

abbrev pub append_word : Bytes
append_word = b'A' ∷ b'p' ∷ b'p' ∷ b'e' ∷ b'n' ∷ b'd' ∷ []

-- The string in a reply: one of the constants `OK`, `ErrNoKey` and `ErrWrongLeader`, or another one, as in
-- a response without any bytes.
pub data Err : Type 0 where
  all_ok err_no_key err_wrong_leader other_err : Err

pub record GetReply : Type 0 where
  pub err_word : Err
  pub value : Bytes

-- `timeOutPop`: the front of the queue, or `none` if it is empty until the time is out.
abbrev pub popped : Option (List Op) → Option Op
popped none = none
popped (some []) = none
popped (some (op ∷ q)) = some op

abbrev pub same_request : Op → Op → Bool
same_request a b = bytes_eq a.client_id b.client_id && a.request_id == b.request_id

abbrev pub get_answer : Option Bytes → GetReply
get_answer none = record { err_word = err_no_key; value = [] }
get_answer (some v) = record { err_word = all_ok; value = v }
