-- ===== src/Rpc/Channel.antt =====
-- Classes `MprpcChannel` and `MprpcController`, rpc/mprpcchannel.cpp and rpc/mprpccontroller.cpp. What
-- the sockets do is the argument `Net`, and how requests and responses are serialized is a function.
use rpc_storage_cpp.Common.{
  if◌then◌else◌, Bytes, length, take, Result, ◌>>=◌, out_of_fuel, err, ok, ℕ, zero, suc, ◌+◌, ◌%◌,
  ◌^◌, ◌⊎◌, inl, inr, Bool, true, false, Option, none, some, ◌++◌,
}
use rpc_storage_cpp.Rpc.{Protobuf}

-- The errors that the controller is told.
pub data Failure : Type 0 where
  socket_failed connect_failed : Failure
  request_not_serialized header_not_serialized : Failure
  recv_failed response_not_parsed : Failure

pub record MprpcController : Type 0 where
  pub failed : Bool
  pub err_text : Option Failure

-- The constructor and `Reset`.
abbrev pub reset_controller : MprpcController
reset_controller = record { failed = false; err_text = none }

abbrev pub set_failed : MprpcController → Failure → MprpcController
set_failed c reason = record { failed = true; err_text = some reason }

-- `m_clientFd`, `none` for -1.
pub record MprpcChannel : Type 0 where
  pub client_fd : Option ℕ

-- What `socket` and `connect` do: no socket, no connection, or one.
pub data Attempt : Type 0 where
  no_socket no_connection : Attempt
  connected : (fd : ℕ) → Attempt

-- Each attempt to connect and to send, by its number, and the bytes that have come when `recv` is
-- called, or `none` for an error.
pub record Net : Type 0 where
  pub connects : ℕ → Attempt
  pub sends : ℕ → Bool
  pub received : Option Bytes

-- `newConnect`: the descriptor, or the error.
unfoldable pub new_connect : Attempt → ℕ ⊎ Failure
new_connect no_socket = inr socket_failed
new_connect no_connection = inr connect_failed
new_connect (connected fd) = inl fd

-- The attempts of the constructor from the k-th on, `n` of them behind this one.
unfoldable pub try_connect : (ℕ → Attempt) → (k n : ℕ) → MprpcChannel
unfolding new_connect
try_connect net k zero = elim (new_connect (net k)) [
  | inl fd ↦ record { client_fd = some fd }
  | inr f ↦ record { client_fd = none }
]
try_connect net k (suc n) = elim (new_connect (net k)) [
  | inl fd ↦ record { client_fd = some fd }
  | inr f ↦ try_connect net (k + 1) n
]

unfoldable pub new_channel : (ℕ → Attempt) → (connect_now : Bool) → MprpcChannel
unfolding try_connect
new_channel net connect_now =
    if connect_now then try_connect net 0 3 else record { client_fd = none }

-- `send_rpc_str`. The sizes are cast to `uint32_t`.
unfoldable pub frame : Protobuf → (service_name method_name args : Bytes) → Option Bytes
frame pb service_name method_name args =
    elim (pb.write_header (record {
      service_name = service_name;
      method_name = method_name;
      args_size = length args % 2 ^ 32;
    })) [ none ↦ none | some h ↦ some (pb.write_varint32 (length h % 2 ^ 32) ++ (h ++ args)) ]

-- The `while` loop around `send`: the descriptor that the request went to, or the error.
unfoldable pub send_from : Net → (fuel k fd : ℕ) → Result (ℕ ⊎ Failure)
unfolding new_connect
send_from net zero k fd = err out_of_fuel
send_from net (suc fuel) k fd = elim (net.sends k) [
  | true ↦ ok (inl fd)
  | false ↦ elim (new_connect (net.connects k)) [
    | inl fd' ↦ send_from net fuel (k + 1) fd'
    | inr f ↦ ok (inr f)
  ]
]

-- The state behind a call: the channel, the controller, what was sent, and the response.
pub record Called (Resp : Type 0) : Type 0 where
  pub channel : MprpcChannel
  pub controller : MprpcController
  pub sent : Option Bytes
  pub response : Option Resp

module _ {Resp : Type 0} where
  abbrev pub gave_up :
      MprpcController → (fd : Option ℕ) → (sent : Option Bytes) → Failure → Called Resp
  gave_up c fd sent f = record {
    channel = record { client_fd = fd };
    controller = set_failed c f;
    sent = sent;
    response = none;
  }

  -- From `recv` on. At most 1024 bytes are read.
  unfoldable pub receive :
      MprpcController → Net → (Bytes → Option Resp) → (fd : ℕ) → (sent : Bytes) → Called Resp
  receive c net parse_response fd sent = elim net.received [
    | none ↦ gave_up c none (some sent) recv_failed
    | some s ↦ elim (parse_response (take 1024 s)) [
      | none ↦ gave_up c (some fd) (some sent) response_not_parsed
      | some r ↦ record {
        channel = record { client_fd = some fd };
        controller = c;
        sent = some sent;
        response = some r;
      }
    ]
  ]

  -- `CallMethod` on a connected socket. `request` is what `SerializeToString` returns.
  unfoldable pub call_connected :
      Protobuf
      → MprpcController
      → Net
      → (service method : Bytes) → (request : Option Bytes) → (Bytes → Option Resp)
      → (fuel fd : ℕ) → Result (Called Resp)
  unfolding frame send_from receive
  call_connected pb c net service method request parse_response fuel fd = elim request [
    | none ↦ ok (gave_up c (some fd) none request_not_serialized)
    | some args ↦ elim (frame pb service method args) [
      | none ↦ ok (gave_up c (some fd) none header_not_serialized)
      | some str ↦ do
        r ← send_from net fuel 0 fd
        elim r [
          | inr f ↦ ok (gave_up c none none f)
          | inl fd' ↦ ok (receive c net parse_response fd' str)
        ]
    ]
  ]

  -- `CallMethod`. `first` is the attempt to connect where there is no connection yet.
  unfoldable pub call_method :
      Protobuf
      → MprpcChannel
      → MprpcController
      → (first : Attempt) → Net
      → (service method : Bytes) → (request : Option Bytes) → (Bytes → Option Resp)
      → (fuel : ℕ) → Result (Called Resp)
  unfolding call_connected new_connect
  call_method pb ch c first net service method request parse_response fuel = elim ch.client_fd [
    | some fd ↦ call_connected pb c net service method request parse_response fuel fd
    | none ↦ elim (new_connect first) [
      | inr f ↦ ok (gave_up c none none f)
      | inl fd ↦ call_connected pb c net service method request parse_response fuel fd
    ]
  ]
