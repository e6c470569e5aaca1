-- ===== src/Rpc/Coding.antt =====
-- A coding of numbers, strings and headers with the laws of `Protobuf`, which the tests use in the
-- place of the library: a number is one byte, and each string of a header has its length in front.
use rpc_storage_cpp.Common.{
  leb, Bytes, length, take, drop, length-append, ℕ, ◌<◌, ◌≡◌, refl, sym, ap, ◌∙◌, Bool, true, false,
  ◌&&◌, Option, none, some, [], ◌∷◌, ◌++◌, arith,
}
use rpc_storage_cpp.Rpc.{Protobuf, RpcHeader}

abbrev pub read_number : Bytes → ℕ × Bytes
read_number [] = (0, [])
read_number (n ∷ r) = (n, r)

-- A string is read if all of it is there, and there is no limit in front of its end.
abbrev pub within : Option ℕ → ℕ → Bool
within none size = true
within (some limit) size = leb size limit

unfoldable pub read_sized : Option ℕ → ℕ → Bytes → Bool × Bytes × Bytes
read_sized limit size s = (within limit size && leb size (length s), take size s, drop size s)

take-append : (s r : Bytes) → take (length s) (s ++ r) ≡ s
take-append [] r = refl
take-append (c ∷ s) r = ap (λ x. c ∷ x) (take-append s r)

drop-append : (s r : Bytes) → drop (length s) (s ++ r) ≡ r
drop-append [] r = refl
drop-append (c ∷ s) r = drop-append s r

fits-append : (s r : Bytes) → leb (length s) (length (s ++ r)) ≡ true
fits-append s r = ground (arith, length-append s r)

pub read_sized-append : (s r : Bytes) → read_sized none (length s) (s ++ r) ≡ (true, s, r)
unfolding read_sized
read_sized-append s r = rw (take-append s r, drop-append s r, fits-append s r) refl

pub read_sized-limit :
    (s r : Bytes) → read_sized (some (length s)) (length s) (s ++ r) ≡ (true, s, r)
unfolding read_sized
read_sized-limit s r =
    let e : leb (length s) (length s) ≡ true = ground arith in
    rw (take-append s r, drop-append s r, fits-append s r, e) refl

pub read_sized_short : (n : ℕ) (s : Bytes) → length s < n → (read_sized none n s).0 ≡ false
unfolding read_sized
read_sized_short n s l = ground arith

abbrev pub write_fields : RpcHeader → Bytes
write_fields h =
    length h.service_name
    ∷ (h.service_name ++ (length h.method_name ∷ (h.method_name ++ (h.args_size ∷ []))))

unfoldable pub read_fields : Bytes → RpcHeader
unfolding read_sized
read_fields s =
    let (n, a) = read_number s in
    let (whole, service, b) = read_sized none n a in
    let (m, c) = read_number b in
    let (whole', method, d) = read_sized none m c in
    record { service_name = service; method_name = method; args_size = (read_number d).0 }

read-write_fields : (h : RpcHeader) → read_fields (write_fields h) ≡ h
unfolding read_fields
read-write_fields h =
    let tail = length h.method_name ∷ (h.method_name ++ (h.args_size ∷ [])) in
    rw
      (
        take-append h.service_name tail,
        drop-append h.service_name tail,
        take-append h.method_name (h.args_size ∷ []),
        drop-append h.method_name (h.args_size ∷ []),
      )
      refl

pub parse-write_fields :
    (h : RpcHeader) (s : Bytes) → some (write_fields h) ≡ some s → some (read_fields s) ≡ some h
parse-write_fields h s e =
    let same : write_fields h ≡ s = cc e in
    ap (λ d. some (read_fields d)) (sym same) ∙ ap some (read-write_fields h)

abbrev pub plain_coding : Protobuf
plain_coding = record {
  write_varint32 = λ n. n ∷ [];
  read_varint32 = read_number;
  read_string = read_sized;
  write_header = λ h. some (write_fields h);
  parse_header = λ s. some (read_fields s);
  read-write_varint32 = λ n r l. refl;
  read_string-append = λ s r l. read_sized-append s r;
  read_string-limit = λ s r l. read_sized-limit s r;
  read_string_short = read_sized_short;
  parse-write_header = λ h s l e. parse-write_fields h s e;
}
