-- ===== src/Rpc/Exchange.antt =====
-- A call of `MprpcChannel` that is answered by an `RpcProvider`: rpc/mprpcchannel.cpp with
-- rpc/rpcprovider.cpp.
use mathlib.Core.List.{append-nil}
use rpc_storage_cpp.Common.{
  Bytes, bytes_eq_refl, length, take, take_all, Returns, ok, ℕ, zero, suc, ◌+◌, ◌≤◌, ◌<◌, ◌≡◌, refl,
  sym, ap, ◌∙◌, subst, ◌⊎◌, inl, inr, true, false, Option, none, some, [], arith,
}
use rpc_storage_cpp.Rpc.Registering.{notify_service-dispatch}
use rpc_storage_cpp.Rpc.Framing.{frame-framed, on_message-framed, header_for, framed, Fits}
use rpc_storage_cpp.Rpc.Channel.{
  frame, MprpcController, receive, Attempt, new_connect, connected, call_connected, call_method,
  MprpcChannel, send_from, Net,
}
use rpc_storage_cpp.Rpc.{Protobuf}
use rpc_storage_cpp.Rpc.Provider.{
  on_message, sent_back, answered, send_rpc_response, call_service, Service, RpcProvider,
  notify_service, find_service, has_name,
}

-- The first `n` attempts to send fail, each connection that is made in their place succeeds, and the
-- next attempt succeeds.
pub record Reaches (net : Net) (k n : ℕ) : Type 0 where
  pub fails : (j : ℕ) → k ≤ j → j < k + n → net.sends j ≡ false
  pub again : (j : ℕ) → k ≤ j → j < k + n → (fd : ℕ) × (net.connects j ≡ connected fd)
  pub succeeds : net.sends (k + n) ≡ true

-- If the attempts from `k` on to send fail `n` times, with a new connection each time, and the next one
-- succeeds, then more than `n` units of fuel are enough for the loop of `CallMethod` to end with the
-- request sent.
pub send_from-Reaches :
    (net : Net) (fuel k n fd : ℕ)
    → Reaches net k n
    → n < fuel
    → (fd' : ℕ) × (send_from net fuel k fd ≡ ok (inl fd'))
unfolding send_from new_connect
send_from-Reaches net zero k n fd h l = absurd (omega arith)
send_from-Reaches net (suc fuel) k zero fd h l =
    let e : k + zero ≡ k = omega arith in
    let sent : net.sends k ≡ true = subst (λ j. net.sends j ≡ true) e h.succeeds in
    (fd, rw (send_from, sent) refl)
send_from-Reaches net (suc fuel) k (suc n) fd h l =
    let failed = h.fails k (omega arith) (omega arith) in
    let (fd', e) = h.again k (omega arith) (omega arith) in
    let next : Reaches net (k + 1) n = record {
      fails = λ j a b. h.fails j (omega arith) (omega arith);
      again = λ j a b. h.again j (omega arith) (omega arith);
      succeeds =
          let m : k + suc n ≡ k + 1 + n = omega arith in
          subst (λ j. net.sends j ≡ true) m h.succeeds;
    } in
    let (last, r) = send_from-Reaches net fuel (k + 1) n fd' next (omega arith) in
    (last, rw (send_from, failed) (rw e r))

-- The call starts on a connection, an old one or one that it makes.
abbrev pub Starts : MprpcChannel → Attempt → Type 0
Starts ch first =
    ((fd : ℕ) × (ch.client_fd ≡ some fd))
    ⊎ ((fd : ℕ) × (ch.client_fd ≡ none) × (first ≡ connected fd))

module _ {Resp : Type 0} where
  call_method-Starts :
      (pb : Protobuf) (ch : MprpcChannel) (c : MprpcController) (first : Attempt) (net : Net)
      (service method : Bytes) (request : Option Bytes) (parse_response : Bytes → Option Resp)
      (fuel : ℕ)
      → Starts ch first
      → (fd : ℕ) × (call_method pb ch c first net service method request parse_response fuel
          ≡ call_connected pb c net service method request parse_response fuel fd)
  unfolding call_method new_connect
  call_method-Starts pb ch c first net service method request parse_response fuel (inl (fd, e)) =
      (fd, rw (call_method, e) refl)
  call_method-Starts pb ch c first net service method request parse_response fuel (inr (fd, e, f)) =
      (fd, rw (call_method, e, f) refl)

  call_connected-answered :
      (pb : Protobuf) (c : MprpcController) (net : Net) (service method args sent_str str : Bytes)
      (parse_response : Bytes → Option Resp) (r : Resp) (fuel fd fd' : ℕ)
      → frame pb service method args ≡ some sent_str
      → send_from net fuel 0 fd ≡ ok (inl fd')
      → net.received ≡ some str
      → parse_response (take 1024 str) ≡ some r
      → call_connected pb c net service method (some args) parse_response fuel fd
        ≡ ok (record {
          channel = record { client_fd = some fd' };
          controller = c;
          sent = some sent_str;
          response = some r;
        })
  unfolding call_connected receive
  call_connected-answered pb c net service method args sent_str str parse_response r fuel fd fd' e f
        g h =
      rw (call_connected, e) (rw f (rw (receive, g, h) refl))

module _ {Req Resp : Type 0} where
  call_service-answered :
      (s : Service Req Resp) (method args : Bytes) (q : Req) (str : Bytes)
      → s.parse_request method args ≡ some q
      → s.write_response (s.call method q) ≡ some str
      → call_service s method args ≡ answered str
  unfolding call_service send_rpc_response
  call_service-answered s method args q str e f =
      rw (call_service, e) (rw (send_rpc_response, f) refl)

  -- A remote call is the local one. The provider has registered the service, whose name was not taken
  -- before, and which has the method; the service reads the arguments as a request, and writes its
  -- response in at most 1024 bytes, which the client reads back; the header and the arguments fit their
  -- sizes; the channel is connected or the first attempt connects it; the request is sent at some attempt,
  -- with a new connection after each one that fails, and there is fuel for more than those; and what the
  -- client receives is what the provider sends back for the bytes that were sent. Then `CallMethod` returns
  -- with the response of the service to the request, the controller is as it was, and the channel stays
  -- connected.
  pub call_method-on_message :
      (pb : Protobuf) (p : RpcProvider Req Resp) (s : Service Req Resp) (ch : MprpcChannel)
      (c : MprpcController) (first : Attempt) (net : Net) (method args str : Bytes) (q : Req)
      (parse_response : Bytes → Option Resp) (fuel n : ℕ) (f : Fits pb s.name method args)
      → find_service s.name p.service_map ≡ none
      → has_name method s.methods ≡ true
      → s.parse_request method args ≡ some q
      → s.write_response (s.call method q) ≡ some str
      → parse_response str ≡ some (s.call method q)
      → length str ≤ 1024
      → Starts ch first
      → Reaches net 0 n
      → n < fuel
      → net.received ≡ sent_back (on_message pb (notify_service p s) (framed f))
      → Returns (call_method pb ch c first net s.name method (some args) parse_response fuel) λ t.
        (t.response ≡ some (s.call method q))
        × (t.sent ≡ some (framed f))
        × (t.controller ≡ c)
        × ((fd : ℕ) × (t.channel.client_fd ≡ some fd))
  call_method-on_message pb p s ch c first net method args str q parse_response fuel n f new m pq wr
        pr l st re fu rc =
      let (fd, start) =
        call_method-Starts pb ch c first net s.name method (some args) parse_response fuel st in
      let (fd', sending) = send_from-Reaches net fuel 0 n fd re fu in
      let h = header_for s.name method args in
      let served : on_message pb (notify_service p s) (framed f) ≡ answered str =
        ap (on_message pb (notify_service p s)) (sym (append-nil (framed f)))
        ∙ on_message-framed pb (notify_service p s) s.name method args [] f
        ∙ notify_service-dispatch p s h args new
        ∙ rw (bytes_eq_refl s.name, m) (call_service-answered s method args q str pq wr) in
      let parsed : parse_response (take 1024 str) ≡ some (s.call method q) =
        ap parse_response (take_all 1024 str l) ∙ pr in
      rw (start) (
        rw
          (call_connected-answered pb c net s.name method args (framed f) str parse_response
            (s.call method q) fuel fd fd' (frame-framed pb s.name method args f) sending
            (rc ∙ ap sent_back served) parsed)
          (refl, refl, refl, (fd', refl)))
