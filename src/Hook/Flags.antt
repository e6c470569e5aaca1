-- ===== src/Hook/Flags.antt =====
-- The flags and the timeouts of a socket: fiber/hook.cpp.
use rpc_storage_cpp.Common.{
  ◌==◌, if◌then◌else◌, length, get_elem?, Returns, Returns-ok, ℕ, zero, suc, ◌≤◌, ◌<◌, ◌≡◌, refl,
  ◌∙◌, ◌≢◌, inl, inr, Bool, true, false, Option, none, some, List, [], ◌∷◌, arith,
}
use rpc_storage_cpp.FdManager.Contexts.{get_ctx-Got, known-set, ctx_of}
use rpc_storage_cpp.Hook.Sockets.{
  snd_timeo, timeval_ms, rcv_timeo, with_timeout, new_socket, setsockopt, Flags, put_ctx, get_flags,
  live_socket, set_flags,
}
use rpc_storage_cpp.FdManager.{
  get_ctx, no_timeout, socket, new_fd_ctx, set_timeout, get_timeout, FdManager, known, FdCtx,
}
use rpc_storage_cpp.Hook.{returned, mode_of, Mode, direct, blocking}

pub ctx_of-length :
    (ds : List (Option FdCtx)) (i : ℕ) (c : FdCtx) → known (get_elem? ds i) ≡ some c → i < length ds
ctx_of-length [] i c e = absurd (cc e)
ctx_of-length (d ∷ ds) zero c e = omega arith
ctx_of-length (d ∷ ds) (suc i) c e = omega (arith, ctx_of-length ds i c e)

-- A context that is changed in its place is the one of its descriptor, and of no other.
ctx_of-put_ctx :
    (s : FdManager) (fd j : ℕ) (c d : FdCtx)
    → ctx_of s fd ≡ some c
    → ctx_of (put_ctx s fd d) j ≡ (if fd == j then some d else ctx_of s j)
ctx_of-put_ctx s fd j c d e = known-set s.datas fd j (some d) (ctx_of-length s.datas fd c e)

put_ctx-same :
    (s : FdManager) (fd : ℕ) (c d : FdCtx)
    → ctx_of s fd ≡ some c
    → ctx_of (put_ctx s fd d) fd ≡ some d
put_ctx-same s fd c d e =
    let same : fd == fd ≡ true = ground arith in ctx_of-put_ctx s fd fd c d e ∙ rw same refl

-- The context of a socket in use.
pub record Live (s : FdManager) (fd : ℕ) (c : FdCtx) : Type 0 where
  pub context : ctx_of s fd ≡ some c
  pub is_open : c.is_closed ≡ false
  pub is_a_socket : c.is_socket ≡ true

-- What `do_io` does with a socket in use.
abbrev pub mode_for : (user_nonblock : Bool) → (timeout : ℕ) → Mode
mode_for user_nonblock timeout = if user_nonblock then direct else blocking timeout

Live-mode_of :
    (s : FdManager) (fd : ℕ) (c : FdCtx) (receiving : Bool)
    → Live s fd c
    → mode_of true (ctx_of s fd) receiving ≡ mode_for c.user_nonblock (get_timeout c receiving)
unfolding mode_of
Live-mode_of s fd c receiving h = rw (mode_of, h.context, h.is_open, h.is_a_socket) refl

Live-live_socket : (s : FdManager) (fd : ℕ) (c : FdCtx) → Live s fd c → live_socket s fd ≡ some c
Live-live_socket s fd c h = rw (live_socket, h.context, h.is_open, h.is_a_socket) refl

-- For a socket in use, F_SETFL hands the system O_NONBLOCK as the library has set it, whatever the caller
-- asks. From then on F_GETFL reports O_NONBLOCK as the caller asked, and the other bits as the system
-- reports them; and with hooks on, a call on the socket goes straight to the system if the caller asked
-- for O_NONBLOCK, and else blocks with the timeout of before. No other context changes.
pub get_flags-set_flags :
    (s : FdManager) (fd : ℕ) (c : FdCtx) (arg reported : Flags) (receiving : Bool) (j : ℕ)
    → Live s fd c
    → fd ≢ j
    → ((set_flags s fd arg).1 ≡ record arg { nonblock = c.sys_nonblock })
      × (get_flags (set_flags s fd arg).0 fd reported ≡ record reported { nonblock = arg.nonblock })
      × (mode_of true (ctx_of (set_flags s fd arg).0 fd) receiving
          ≡ mode_for arg.nonblock (get_timeout c receiving))
      × (ctx_of (set_flags s fd arg).0 j ≡ ctx_of s j)
unfolding set_flags get_flags get_timeout
get_flags-set_flags s fd c arg reported receiving j h n =
    let d = record c { user_nonblock = arg.nonblock } in
    let live : Live (put_ctx s fd d) fd d = record {
      context = put_ctx-same s fd c d h.context;
      is_open = h.is_open;
      is_a_socket = h.is_a_socket;
    } in
    let other : fd == j ≡ false = ground (arith, n) in
    rw (set_flags, Live-live_socket s fd c h)
      (
        refl,
        rw (get_flags, Live-live_socket (put_ctx s fd d) fd d live) refl,
        Live-mode_of (put_ctx s fd d) fd d receiving live,
        ctx_of-put_ctx s fd j c d h.context ∙ rw other refl,
      )

-- What a timeout that is set comes to, for the calls of both directions.
pub record Timed (s t : FdManager) (fd : ℕ) (rcv snd : ℕ) : Type 0 where
  pub receiving : mode_of true (ctx_of t fd) true ≡ blocking rcv
  pub sending : mode_of true (ctx_of t fd) false ≡ blocking snd
  pub others : (j : ℕ) → fd ≢ j → ctx_of t j ≡ ctx_of s j

with_timeout-Timed :
    (s : FdManager) (fd : ℕ) (c : FdCtx) (receiving : Bool) (v : ℕ)
    → Live s fd c
    → c.user_nonblock ≡ false
    → Timed s
        (with_timeout s fd receiving v)
        fd
        (if receiving then v else c.recv_timeout)
        (if receiving then c.send_timeout else v)
unfolding set_timeout get_timeout
with_timeout-Timed s fd c true v h u =
    let d = record c { recv_timeout = v } in
    let live : Live (put_ctx s fd d) fd d = record {
      context = put_ctx-same s fd c d h.context;
      is_open = h.is_open;
      is_a_socket = h.is_a_socket;
    } in
    rw (with_timeout, h.context)
      (record {
        receiving = Live-mode_of (put_ctx s fd d) fd d true live ∙ rw u refl;
        sending = Live-mode_of (put_ctx s fd d) fd d false live ∙ rw u refl;
        others = λ j n.
            let other : fd == j ≡ false = ground (arith, n) in
            ctx_of-put_ctx s fd j c d h.context ∙ rw other refl;
      })
with_timeout-Timed s fd c false v h u =
    let d = record c { send_timeout = v } in
    let live : Live (put_ctx s fd d) fd d = record {
      context = put_ctx-same s fd c d h.context;
      is_open = h.is_open;
      is_a_socket = h.is_a_socket;
    } in
    rw (with_timeout, h.context)
      (record {
        receiving = Live-mode_of (put_ctx s fd d) fd d true live ∙ rw u refl;
        sending = Live-mode_of (put_ctx s fd d) fd d false live ∙ rw u refl;
        others = λ j n.
            let other : fd == j ≡ false = ground (arith, n) in
            ctx_of-put_ctx s fd j c d h.context ∙ rw other refl;
      })

-- With hooks on, for a socket in use that its caller has not made non-blocking, `setsockopt` with
-- SO_RCVTIMEO makes the calls that receive block for that time in milliseconds, and leaves the time of
-- those that send; with SO_SNDTIMEO it is the other way round. No other context changes.
pub setsockopt-Timed :
    (s : FdManager) (fd : ℕ) (c : FdCtx) (tv_sec tv_usec : ℕ)
    → Live s fd c
    → c.user_nonblock ≡ false
    → Timed s
        (setsockopt true s fd rcv_timeo tv_sec tv_usec)
        fd
        (timeval_ms tv_sec tv_usec)
        c.send_timeout
      × Timed s
          (setsockopt true s fd snd_timeo tv_sec tv_usec)
          fd
          c.recv_timeout
          (timeval_ms tv_sec tv_usec)
unfolding setsockopt
setsockopt-Timed s fd c tv_sec tv_usec h u = (
  with_timeout-Timed s fd c true (timeval_ms tv_sec tv_usec) h u,
  with_timeout-Timed s fd c false (timeval_ms tv_sec tv_usec) h u,
)

new_fd_ctx-mode_of :
    (fd : ℕ) (sys_nonblock receiving : Bool)
    → mode_of true (some (new_fd_ctx fd (socket sys_nonblock))) receiving ≡ blocking no_timeout
unfolding new_fd_ctx get_timeout mode_of
new_fd_ctx-mode_of fd sys_nonblock true = refl
new_fd_ctx-mode_of fd sys_nonblock false = refl

-- With hooks on, a socket that the system has just made, for a descriptor without a context, is one on
-- which all calls block without a time limit, and no other context changes. `FdManager` has two places or
-- more.
pub new_socket-mode_of :
    (s : FdManager) (fd : ℕ) (sys_nonblock : Bool)
    → 2 ≤ length s.datas
    → ctx_of s fd ≡ none
    → Returns (new_socket true s (returned fd) (socket sys_nonblock)) (λ r.
      (r.1 ≡ returned fd)
      × ((receiving : Bool) → mode_of true (ctx_of r.0 fd) receiving ≡ blocking no_timeout)
      × ((j : ℕ) → fd ≢ j → ctx_of r.0 j ≡ ctx_of s j))
unfolding new_socket
new_socket-mode_of s fd sys_nonblock l e =
    let (r, f, g) =
      Returns-ok (get_ctx s (some fd) true (socket sys_nonblock))
        (get_ctx-Got s fd (socket sys_nonblock) l) in
    let same : fd == fd ≡ true = ground arith in
    let new : g.context ≡ new_fd_ctx fd (socket sys_nonblock) = elim g.old_or_new [
      | inl h ↦ absurd (cc (e, h))
      | inr h ↦ h.1
    ] in
    let here : ctx_of r.0 fd ≡ some (new_fd_ctx fd (socket sys_nonblock)) =
      g.contexts fd ∙ rw (same, new) refl in
    rw (Returns, f)
      (
        refl,
        λ receiving. rw here (new_fd_ctx-mode_of fd sys_nonblock receiving),
        λ j n. let other : fd == j ≡ false = ground (arith, n) in g.contexts j ∙ rw other refl,
      )
