-- ===== src/Rpc/Provider.antt =====
-- Class `RpcProvider`, rpc/rpcprovider.cpp: `NotifyService` and `OnMessage` with `SendRpcResponse`.
use rpc_storage_cpp.Common.{
  if◌then◌else◌, Bytes, bytes_eq, ℕ, Bool, false, ◌||◌, Option, none, some, List, [], ◌∷◌, ◌++◌,
}
use rpc_storage_cpp.Rpc.{Protobuf, RpcHeader}

-- A service object with its descriptor. All its requests have one type here, and so have its
-- responses; what a call does to the object is the matter of the object.
pub record Service (Req Resp : Type 0) : Type 0 where
  pub name : Bytes
  pub methods : List Bytes
  pub parse_request : (method : Bytes) → Bytes → Option Req
  pub call : (method : Bytes) → Req → Resp
  pub write_response : Resp → Option Bytes

pub record ServiceInfo (Req Resp : Type 0) : Type 0 where
  pub service : Service Req Resp
  pub method_map : List Bytes

-- `m_serviceMap`, each key once.
pub record RpcProvider (Req Resp : Type 0) : Type 0 where
  pub service_map : List (Bytes × ServiceInfo Req Resp)

-- What `OnMessage` comes to.
pub data Handled : Type 0 where
  header_error args_error no_service no_method request_error response_error : Handled
  answered : Bytes → Handled

-- What is sent to the connection.
abbrev pub sent_back : Handled → Option Bytes
sent_back (answered s) = some s
sent_back header_error = none
sent_back args_error = none
sent_back no_service = none
sent_back no_method = none
sent_back request_error = none
sent_back response_error = none

unfoldable pub has_name : Bytes → List Bytes → Bool
has_name name [] = false
has_name name (n ∷ ns) = bytes_eq n name || has_name name ns

-- `insert` of a `std::unordered_map` keeps an entry that is there.
unfoldable pub insert_methods : List Bytes → List Bytes → List Bytes
insert_methods known [] = known
insert_methods known (n ∷ ns) =
    insert_methods (if has_name n known then known else known ++ n ∷ []) ns

module _ {Req Resp : Type 0} where
  unfoldable pub find_service :
      Bytes → List (Bytes × ServiceInfo Req Resp) → Option (ServiceInfo Req Resp)
  find_service name [] = none
  find_service name ((n, i) ∷ r) = if bytes_eq n name then some i else find_service name r

  unfoldable pub notify_service : RpcProvider Req Resp → Service Req Resp → RpcProvider Req Resp
  unfolding insert_methods
  notify_service p s =
      let info : ServiceInfo Req Resp = record {
        service = s;
        method_map = insert_methods [] s.methods;
      } in
      elim (find_service s.name p.service_map) [
        | none ↦ record { service_map = p.service_map ++ (s.name, info) ∷ [] }
        | some i ↦ p
      ]

  -- `SendRpcResponse`.
  unfoldable pub send_rpc_response : Service Req Resp → Resp → Handled
  send_rpc_response s response = elim (s.write_response response) [
    | none ↦ response_error
    | some str ↦ answered str
  ]

  unfoldable pub call_service : Service Req Resp → (method args : Bytes) → Handled
  unfolding send_rpc_response
  call_service s method args = elim (s.parse_request method args) [
    | none ↦ request_error
    | some q ↦ send_rpc_response s (s.call method q)
  ]

  -- From the two lookups on.
  unfoldable pub dispatch : RpcProvider Req Resp → RpcHeader → (args : Bytes) → Handled
  unfolding call_service
  dispatch p h args = elim (find_service h.service_name p.service_map) [
    | none ↦ no_service
    | some i ↦
        if has_name h.method_name i.method_map
        then call_service i.service h.method_name args
        else no_method
  ]

  -- What is read for the arguments.
  abbrev pub handle_args : RpcProvider Req Resp → RpcHeader → Bool × Bytes × Bytes → Handled
  handle_args p h (whole, args, rest) = if whole then dispatch p h args else args_error

  -- What is read for the header. Whether all of it came is not looked at.
  abbrev pub handle_header : Protobuf → RpcProvider Req Resp → Bool × Bytes × Bytes → Handled
  handle_header pb p (whole, header_str, rest) = elim (pb.parse_header header_str) [
    | none ↦ header_error
    | some h ↦ handle_args p h (pb.read_string none h.args_size rest)
  ]

  -- What is read for the header's size.
  abbrev pub handle_size : Protobuf → RpcProvider Req Resp → ℕ × Bytes → Handled
  handle_size pb p (header_size, rest) =
      handle_header pb p (pb.read_string (some header_size) header_size rest)

  unfoldable pub on_message : Protobuf → RpcProvider Req Resp → (recv_buf : Bytes) → Handled
  unfolding dispatch
  on_message pb p recv_buf = handle_size pb p (pb.read_varint32 recv_buf)
