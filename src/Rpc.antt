-- ===== src/Rpc.antt =====
-- The remote calls of src/rpc. What the code uses of protobuf, which is not in the repository, is the
-- record `Protobuf`: its coded streams and the serialization of `RpcHeader` (rpc/rpcheader.proto).
pub mod Provider
pub mod Channel
pub mod Framing
pub mod Registering
pub mod Exchange
pub mod Coding
mod Tests
use rpc_storage_cpp.Common.{
  ltb, leb, ◌==◌, if◌then◌else◌, Bool-cases, Option-cases, Bytes, bytes_eq, bytes_eq_refl,
  bytes_eq→eq, length, get_elem?, set, take, drop, replicate, last_or, length-append, length-set,
  length-drop, length-take, drop_all, get_elem?-lt, lt-get_elem?, take_all, take-append-drop,
  get_elem?-append_right, get_elem?-append_left, get_elem?-drop, drop-get_elem?, length-replicate,
  get_elem?-replicate, Fault, Result, ◌>>=◌, ◌>>◌, my_assert, at_index, Returns, if-bind,
  Returns-ok, Returns-at, assert_failed, out_of_range, out_of_fuel, err, ok, ℕ, zero, suc, ◌+◌, ◌-◌,
  ◌*◌, ◌/◌, ◌%◌, ◌^◌, ◌≤◌, ◌<◌, max, min, ◌≡◌, refl, sym, ap, ◌∙◌, subst, ◌≢◌, ◌↔◌, ◌⊎◌, inl, inr,
  Bool, true, false, not, ◌&&◌, ◌||◌, Option, none, some, List, [], ◌∷◌, ◌++◌, map, arith,
}

pub record RpcHeader : Type 0 where
  pub service_name : Bytes
  pub method_name : Bytes
  pub args_size : ℕ

-- `WriteVarint32`, `ReadVarint32` with the value that it leaves, `ReadString` under the limit that
-- `PushLimit` set, if any, and `SerializeToString` and `ParseFromString` of a header. A call that reads
-- returns what is left behind it.
pub record Protobuf : Type 0 where
  pub write_varint32 : ℕ → Bytes
  pub read_varint32 : Bytes → ℕ × Bytes
  pub read_string : (limit : Option ℕ) → (size : ℕ) → Bytes → Bool × Bytes × Bytes
  pub write_header : RpcHeader → Option Bytes
  pub parse_header : Bytes → Option RpcHeader
  pub read-write_varint32 :
      (n : ℕ) (r : Bytes) → n < 2 ^ 32 → read_varint32 (write_varint32 n ++ r) ≡ (n, r)
  pub read_string-append :
      (s r : Bytes) → length s < 2 ^ 31 → read_string none (length s) (s ++ r) ≡ (true, s, r)
  pub read_string-limit :
      (s r : Bytes)
      → length s < 2 ^ 31
      → read_string (some (length s)) (length s) (s ++ r) ≡ (true, s, r)
  pub read_string_short : (n : ℕ) (s : Bytes) → length s < n → (read_string none n s).0 ≡ false
  pub parse-write_header :
      (h : RpcHeader) (s : Bytes)
      → h.args_size < 2 ^ 32
      → write_header h ≡ some s
      → parse_header s ≡ some h
