-- ===== src/Rpc/Tests.antt =====
-- A call of a service with one method: src/rpc.
use rpc_storage_cpp.Common.{
  inl, ok, ltb, if◌then◌else◌, Bytes, bytes_eq, Returns, ℕ, ◌+◌, ◌≡◌, refl, sym, ap, inr, true,
  none, some, [], ◌∷◌, ◌++◌, arith,
}
use rpc_storage_cpp.Rpc.Coding.{read_fields, read_sized, write_fields, plain_coding}
use rpc_storage_cpp.Rpc.Exchange.{send_from-Reaches, call_method-on_message, Reaches}
use rpc_storage_cpp.Rpc.Channel.{
  send_from, no_connection, new_connect, try_connect, reset_controller, new_channel, call_method,
  connected, Net,
}
use rpc_storage_cpp.Rpc.Framing.{on_message-framed, framed, header_for, Fits}
use rpc_storage_cpp.Rpc.Provider.{
  answered, sent_back, send_rpc_response, call_service, dispatch, on_message, RpcProvider, has_name,
  insert_methods, find_service, notify_service, Service,
}

-- The method answers a request with the request and one byte more.
abbrev echo : Service Bytes Bytes
echo = record {
  name = 5 ∷ [];
  methods = (6 ∷ []) ∷ (7 ∷ []) ∷ [];
  parse_request = λ method s. some s;
  call = λ method s. 9 ∷ s;
  write_response = λ s. some s;
}

abbrev other : Service Bytes Bytes
other = record echo { name = 8 ∷ [] }

abbrev provider : RpcProvider Bytes Bytes
unfolding notify_service find_service insert_methods has_name bytes_eq
provider = notify_service (record { service_map = [] }) other

abbrev arguments : Bytes
arguments = 1 ∷ 2 ∷ 3 ∷ []

abbrev echo_fits : Fits plain_coding (5 ∷ []) (7 ∷ []) arguments
echo_fits = record {
  header = write_fields (header_for (5 ∷ []) (7 ∷ []) arguments);
  written = refl;
  header_size = omega arith;
  args_size = omega arith;
}

-- The first attempt to send fails, and a new connection is made.
abbrev lossy : Net
lossy = record {
  connects = λ k. connected (k + 40);
  sends = λ k. ltb 0 k;
  received = some (9 ∷ arguments);
}

lossy-Reaches : Reaches lossy 0 1
lossy-Reaches = record {
  fails = λ j a b. ground arith;
  again = λ j a b. (j + 40, refl);
  succeeds = refl;
}

echo_served :
    on_message plain_coding (notify_service provider echo) (framed echo_fits)
    ≡ answered (9 ∷ arguments)
unfolding on_message dispatch call_service send_rpc_response notify_service find_service
    insert_methods has_name bytes_eq read_sized read_fields
echo_served = refl

call_method-on_message_example :
    Returns
      (call_method plain_coding
        (record { client_fd = none })
        reset_controller
        (connected 3)
        lossy
        (5 ∷ [])
        (7 ∷ [])
        (some arguments)
        (λ s. some s)
        2)
      λ t.
        (t.response ≡ some (9 ∷ arguments))
        × (t.sent ≡ some (framed echo_fits))
        × (t.controller ≡ reset_controller)
        × ((fd : ℕ) × (t.channel.client_fd ≡ some fd))
unfolding find_service notify_service insert_methods has_name bytes_eq
call_method-on_message_example =
    call_method-on_message plain_coding provider echo (record { client_fd = none }) reset_controller
      (connected 3) lossy (7 ∷ []) arguments (9 ∷ arguments) arguments (λ s. some s) 2 1 echo_fits
      refl refl refl refl refl (omega arith) (inr (3, refl, refl)) lossy-Reaches (omega arith)
      (ap sent_back (sym echo_served))

on_message-framed_example :
    on_message plain_coding provider (framed echo_fits ++ framed echo_fits)
    ≡ dispatch provider (header_for (5 ∷ []) (7 ∷ []) arguments) arguments
on_message-framed_example =
    on_message-framed plain_coding provider (5 ∷ []) (7 ∷ []) arguments (framed echo_fits) echo_fits

-- Four attempts are made to connect.
fourth_attempt :
    new_channel (λ k. if ltb k 3 then no_connection else connected k) true
    ≡ record { client_fd = some 3 }
unfolding new_channel try_connect new_connect
fourth_attempt = refl

send_from-Reaches_example : (fd : ℕ) × (send_from lossy 2 0 3 ≡ ok (inl fd))
send_from-Reaches_example = send_from-Reaches lossy 2 0 1 3 lossy-Reaches (omega arith)
