-- ===== src/KvServer/OpCode.antt =====
-- A code for an `Op` of common/include/util.h, which the tests use in the place of boost's archive:
-- each string has a 1 in front of each byte and a 0 behind the last, and the request's number follows.
use rpc_storage_cpp.Common.{Bytes, ℕ, zero, suc, ◌≡◌, refl, [], ◌∷◌}
use rpc_storage_cpp.KvServer.State.{KvArchive, Op}

unfoldable write_string : Bytes → Bytes → Bytes
write_string [] r = 0 ∷ r
write_string (c ∷ cs) r = 1 ∷ c ∷ write_string cs r

unfoldable read_string : Bytes → Bytes × Bytes
read_string [] = ([], [])
read_string (zero ∷ r) = ([], r)
read_string (suc n ∷ []) = ([], [])
read_string (suc n ∷ c ∷ r) = let (s, q) = read_string r in (c ∷ s, q)

read-write : (s r : Bytes) → read_string (write_string s r) ≡ (s, r)
unfolding read_string write_string
read-write [] r = refl
read-write (c ∷ cs) r = rw (read-write cs r) refl

unfoldable write_op : Op → Bytes
write_op op =
    write_string op.operation
      (write_string op.key (write_string op.value (write_string op.client_id (op.request_id ∷ []))))

abbrev number : Bytes → ℕ
number [] = 0
number (n ∷ r) = n

unfoldable read_op : Bytes → Op
read_op d =
    let (operation, d1) = read_string d in
    let (key, d2) = read_string d1 in
    let (value, d3) = read_string d2 in
    let (client_id, d4) = read_string d3 in
    record {
      operation = operation;
      key = key;
      value = value;
      client_id = client_id;
      request_id = number d4;
    }

read_op-write_op : (op : Op) → read_op (write_op op) ≡ op
unfolding read_op write_op
read_op-write_op op = rw (
  read-write op.operation (
      write_string op.key (write_string op.value (write_string op.client_id (op.request_id ∷ [])))),
  read-write op.key (write_string op.value (write_string op.client_id (op.request_id ∷ []))),
  read-write op.value (write_string op.client_id (op.request_id ∷ [])),
  read-write op.client_id (op.request_id ∷ []),
)

pub op_archive : KvArchive
op_archive = record {
  as_string = write_op;
  parse_from_string = read_op;
  parse-as_string = read_op-write_op;
  write_snapshot = λ d. [];
  read_snapshot = λ d. (([], []), []);
}
