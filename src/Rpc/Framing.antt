-- ===== src/Rpc/Framing.antt =====
-- What `OnMessage` of rpc/rpcprovider.cpp does with what `CallMethod` of rpc/mprpcchannel.cpp sends.
use mathlib.Core.List.{append_assoc}
use native.Mathlib.Nat.{mod-eq_of_lt}
use rpc_storage_cpp.Common.{
  Bytes, length, ℕ, ◌%◌, ◌^◌, ◌<◌, ◌≡◌, refl, ap, ◌∙◌, none, some, List, ◌++◌, arith,
}
use rpc_storage_cpp.Rpc.Provider.{
  handle_header, handle_size, handle_args, dispatch, RpcProvider, on_message,
}
use rpc_storage_cpp.Rpc.Channel.{frame}
use rpc_storage_cpp.Rpc.{Protobuf, RpcHeader}

-- The header that `CallMethod` makes.
abbrev pub header_for : (service method args : Bytes) → RpcHeader
header_for service method args = record {
  service_name = service;
  method_name = method;
  args_size = length args % 2 ^ 32;
}

-- The sizes stay below the limits of the coded streams.
pub record Fits (pb : Protobuf) (service method args : Bytes) : Type 0 where
  pub header : Bytes
  pub written : pb.write_header (header_for service method args) ≡ some header
  pub header_size : length header < 2 ^ 31
  pub args_size : length args < 2 ^ 31

abbrev pub framed :
    {pb : Protobuf} {service method args : Bytes} → Fits pb service method args → Bytes
framed {pb} {service} {method} {args} f =
    pb.write_varint32 (length f.header % 2 ^ 32) ++ (f.header ++ args)

small : (n : ℕ) → n < 2 ^ 31 → n % 2 ^ 32 ≡ n
small n l = mod-eq_of_lt (omega arith)

pub frame-framed :
    (pb : Protobuf) (service method args : Bytes) (f : Fits pb service method args)
    → frame pb service method args ≡ some (framed f)
unfolding frame
frame-framed pb service method args f = rw (frame, f.written) refl

-- The header is read back, with what is behind it left.
on_message-header :
    (pb : Protobuf) {Req Resp : Type 0} (p : RpcProvider Req Resp)
    (service method args rest : Bytes) (f : Fits pb service method args)
    → on_message pb p (pb.write_varint32 (length f.header % 2 ^ 32) ++ (f.header ++ rest))
      ≡ handle_args p (header_for service method args) (pb.read_string none (length args) rest)
unfolding on_message
on_message-header pb p service method args rest f =
    let a = small (length args) f.args_size in
    let h : RpcHeader = header_for service method args in
    let size : h.args_size < 2 ^ 32 = rw a (omega (arith, f.args_size)) in
    let behind = f.header ++ rest in
    let first : pb.read_varint32 (pb.write_varint32 (length f.header % 2 ^ 32) ++ behind)
        ≡ (length f.header, behind) =
      ap (λ n. pb.read_varint32 (pb.write_varint32 n ++ behind))
        (small (length f.header) f.header_size)
      ∙ pb.read-write_varint32 (length f.header) behind (omega (arith, f.header_size)) in
    ap (handle_size pb p) first
    ∙ ap (handle_header pb p) (pb.read_string-limit f.header rest f.header_size)
    ∙ rw (handle_header, pb.parse-write_header h f.header size f.written)
        (ap (λ n. handle_args p h (pb.read_string none n rest)) a)

-- A framed request that comes in one piece is dispatched to the service and the method of its header
-- with its arguments; and what comes behind it in the same piece is lost.
pub on_message-framed :
    (pb : Protobuf) {Req Resp : Type 0} (p : RpcProvider Req Resp)
    (service method args rest : Bytes) (f : Fits pb service method args)
    → on_message pb p (framed f ++ rest) ≡ dispatch p (header_for service method args) args
on_message-framed pb p service method args rest f =
    let whole = pb.read_string-append args rest f.args_size in
    rw (append_assoc, append_assoc)
      (on_message-header pb p service method args (args ++ rest) f
        ∙ ap (handle_args p (header_for service method args)) whole)
