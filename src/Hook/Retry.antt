-- ===== src/Hook/Retry.antt =====
-- The loop of `do_io`: fiber/hook.cpp.
use rpc_storage_cpp.Common.{
  ◌<◌, ◌==◌, Bool-cases, Result, out_of_fuel, err, ok, ℕ, zero, suc, ◌+◌, ◌≡◌, refl, sym, ap, ◌∙◌,
  subst, ◌≢◌, ◌⊎◌, inl, inr, Bool, true, false, not, ◌&&◌, Option, List, [], ◌∷◌, ◌++◌, arith,
}
use rpc_storage_cpp.IoManager.{Event}
use rpc_storage_cpp.FdManager.{FdCtx}
use rpc_storage_cpp.Hook.{
  eagain, cancel_timer, etimedout, blocking, do_io, mode_of, is_timed, eintr, set_timer, Kernel,
  after_effects, timer_off, wait_for, returned, failed_with, retry, timer_on, event_failed, told,
  Sys, Told, Effect,
}

-- Timers are set one at a time, and none is left.
unfoldable pub is_balanced : (running : Bool) → List Effect → Bool
is_balanced running [] = not running
is_balanced running (set_timer ms ∷ es) = not running && is_balanced true es
is_balanced running (cancel_timer ∷ es) = running && is_balanced false es
is_balanced running (wait_for fd event ∷ es) = is_balanced running es

-- The caller is told neither to call again nor that it was interrupted, and no timer is left behind.
pub record Blocks (r : Told × List Effect) : Type 0 where
  pub not_interrupted : r.0 ≢ told (failed_with eintr)
  pub not_again : r.0 ≢ told (failed_with eagain)
  pub timers : is_balanced false r.1 ≡ true

Sys-cases : (s : Sys) → ((n : ℕ) × (s ≡ returned n)) ⊎ ((e : ℕ) × (s ≡ failed_with e))
Sys-cases (returned n) = inl (n, refl)
Sys-cases (failed_with e) = inr (e, refl)

-- The outcome, if there is enough fuel.
abbrev pub IfReturns : {A : Type 0} → Result A → (A → Type 0) → Type 0
IfReturns (ok a) P = P a
IfReturns (err f) P = f ≡ out_of_fuel

errno_of : Told → ℕ
errno_of (told (failed_with e)) = e
errno_of (told (returned n)) = 0
errno_of event_failed = 0

told_errno : (e n : ℕ) → e == n ≡ false → told (failed_with e) ≢ told (failed_with n)
unfolding errno_of
told_errno e n h q = let same : e ≡ n = ap errno_of q in ground (arith, h, same)

told_returned : (n e : ℕ) → e ≢ 0 → told (returned n) ≢ told (failed_with e)
unfolding errno_of
told_returned n e h q = h (sym (ap errno_of q))

event_failed_told : (e : ℕ) → e ≢ 0 → event_failed ≢ told (failed_with e)
unfolding errno_of
event_failed_told e h q = h (sym (ap errno_of q))

balanced_tail :
    (timeout fd : ℕ) (event : Event) (es : List Effect)
    → is_balanced false es ≡ true
    → is_balanced false ((timer_on timeout ++ (wait_for fd event ∷ timer_off timeout)) ++ es) ≡ true
unfolding is_balanced
balanced_tail timeout fd event es h = elim (Bool-cases (is_timed timeout)) [
  | inl e ↦ rw e h
  | inr e ↦ rw e h
]

balanced_failed : (timeout : ℕ) → is_balanced false (timer_on timeout ++ timer_off timeout) ≡ true
unfolding is_balanced
balanced_failed timeout = elim (Bool-cases (is_timed timeout)) [
  | inl e ↦ rw e refl
  | inr e ↦ rw e refl
]

after_effects-Blocks :
    (timeout fd : ℕ) (event : Event) (m : Result (Told × List Effect))
    → IfReturns m Blocks
    → IfReturns
        (after_effects (timer_on timeout ++ (wait_for fd event ∷ timer_off timeout)) m)
        Blocks
after_effects-Blocks timeout fd event (err f) h = h
after_effects-Blocks timeout fd event (ok (t, es)) h = record {
  not_interrupted = h.not_interrupted;
  not_again = h.not_again;
  timers = balanced_tail timeout fd event es h.timers;
}

times_out-Blocks : Blocks (told (failed_with etimedout), [])
unfolding is_balanced
times_out-Blocks = record {
  not_interrupted = told_errno etimedout eintr refl;
  not_again = told_errno etimedout eagain refl;
  timers = refl;
}

pub retry-Blocks :
    (o : Kernel) (fd : ℕ) (event : Event) (timeout fuel k w : ℕ)
    → IfReturns (retry o fd event timeout fuel k w) Blocks
unfolding retry is_balanced
retry-Blocks o fd event timeout zero k w = refl
retry-Blocks o fd event timeout (suc fuel) k w = elim (Sys-cases (o.calls k)) [
  | inl (n, e) ↦
      rw (IfReturns, retry, e)
        (record {
          not_interrupted = told_returned n eintr (λ q. omega (arith, q));
          not_again = told_returned n eagain (λ q. omega (arith, q));
          timers = refl;
        })
  | inr (e, f) ↦ elim (Bool-cases (e == eintr)) [
    | inl g ↦ rw (IfReturns, retry, f, g) (retry-Blocks o fd event timeout fuel (k + 1) w)
    | inr g ↦ elim (Bool-cases (e == eagain)) [
      | inr h ↦
          rw (IfReturns, retry, f, g, h)
            (record {
              not_interrupted = told_errno e eintr g;
              not_again = told_errno e eagain h;
              timers = refl;
            })
      | inl h ↦ elim (Bool-cases (o.adds w)) [
        | inr a ↦
            rw (IfReturns, retry, f, g, h, a)
              (record {
                not_interrupted = event_failed_told eintr (λ q. omega (arith, q));
                not_again = event_failed_told eagain (λ q. omega (arith, q));
                timers = balanced_failed timeout;
              })
        | inl a ↦
            rw (IfReturns, retry, f, g, h, a)
              (after_effects-Blocks timeout fd event _
                (elim (Bool-cases (is_timed timeout && o.fires w)) [
                  | inl t ↦ rw t times_out-Blocks
                  | inr t ↦ rw t (retry-Blocks o fd event timeout fuel (k + 1) (w + 1))
                ]))
      ]
    ]
  ]
]

-- When hooks are on and the descriptor is a socket that its user has not made non-blocking, a call that
-- comes back is never one that was interrupted (EINTR) or that has to be made again (EAGAIN), and the
-- timers that were set on the way have all been cancelled, one at a time.
pub do_io-Blocks :
    (o : Kernel) (ctx : Option FdCtx) (fd : ℕ) (event : Event) (receiving : Bool) (timeout fuel : ℕ)
    (r : Told × List Effect)
    → mode_of true ctx receiving ≡ blocking timeout
    → do_io o true ctx fd event receiving fuel ≡ ok r
    → Blocks r
unfolding do_io
do_io-Blocks o ctx fd event receiving timeout fuel r h e =
    let run : retry o fd event timeout fuel 0 0 ≡ ok r = sym (rw (do_io, h) refl) ∙ e in
    subst (λ m. IfReturns m Blocks) run (retry-Blocks o fd event timeout fuel 0 0)

-- An answer after which the call is made again, at once or when the descriptor is ready.
abbrev pub Again : Sys → Type 0
Again s = (s ≡ failed_with eintr) ⊎ (s ≡ failed_with eagain)

-- Every `addEvent` succeeds and no timer fires.
pub record Patient (o : Kernel) : Type 0 where
  pub added : (w : ℕ) → o.adds w ≡ true
  pub in_time : (w : ℕ) → o.fires w ≡ false

-- The call comes back with `s`, whatever was waited for.
pub Settles : Result (Told × List Effect) → Sys → Type 0
Settles m s = (es : List Effect) × (m ≡ ok (told s, es))

after_effects-Settles :
    (es : List Effect) (m : Result (Told × List Effect)) (s : Sys)
    → Settles m s
    → Settles (after_effects es m) s
unfolding Settles
after_effects-Settles es m s (r, e) = (es ++ r, rw e refl)

retry-final :
    (o : Kernel) (fd : ℕ) (event : Event) (timeout fuel k w : ℕ)
    → o.calls k ≢ failed_with eintr
    → o.calls k ≢ failed_with eagain
    → Settles (retry o fd event timeout (suc fuel) k w) (o.calls k)
unfolding retry Settles
retry-final o fd event timeout fuel k w h a = elim (Sys-cases (o.calls k)) [
  | inl (n, e) ↦ ([], rw (retry, e) refl)
  | inr (e, f) ↦ elim (Bool-cases (e == eintr)) [
    | inl g ↦ let same : e ≡ eintr = ground (arith, g) in absurd (h (f ∙ ap failed_with same))
    | inr g ↦ elim (Bool-cases (e == eagain)) [
      | inl g' ↦ let same : e ≡ eagain = ground (arith, g') in absurd (a (f ∙ ap failed_with same))
      | inr g' ↦ ([], rw (retry, f, g, g') refl)
    ]
  ]
]

retry-Settles :
    (o : Kernel) (fd : ℕ) (event : Event) (timeout d n fuel k w : ℕ)
    → Patient o
    → ((j : ℕ) → j < n → Again (o.calls j))
    → o.calls n ≢ failed_with eintr
    → o.calls n ≢ failed_with eagain
    → k + d ≡ n
    → d < fuel
    → Settles (retry o fd event timeout fuel k w) (o.calls n)
unfolding retry Settles
retry-Settles o fd event timeout d n zero k w p again hi ha q h = absurd (omega (arith, h))
retry-Settles o fd event timeout zero n (suc fuel) k w p again hi ha q h =
    let same : n ≡ k = omega (arith, q) in
    rw same (
      retry-final o fd event timeout fuel k w (subst (λ i. o.calls i ≢ failed_with eintr) same hi)
        (subst (λ i. o.calls i ≢ failed_with eagain) same ha))
retry-Settles o fd event timeout (suc d) n (suc fuel) k w p again hi ha q h =
    let later : (v : ℕ) → Settles (retry o fd event timeout fuel (k + 1) v) (o.calls n) = λ v.
      retry-Settles o fd event timeout d n fuel (k + 1) v p again hi ha (omega (arith, q))
        (omega (arith, h)) in
    elim (again k (omega (arith, q))) [
      | inl e ↦ rw (retry, e) (later w)
      | inr e ↦
          rw (retry, e, p.added w, p.in_time w)
            (after_effects-Settles _ _ (o.calls n) (elim (Bool-cases (is_timed timeout)) [
              | inl t ↦ rw t (later (w + 1))
              | inr t ↦ rw t (later (w + 1))
            ]))
    ]

-- When hooks are on and the descriptor is a socket that its user has not made non-blocking, every
-- `addEvent` succeeds, no timer fires, and the system answers the first `n` calls with EINTR or EAGAIN and
-- the next one with something else, then more than `n` units of fuel are enough, and the caller is told
-- what that next one returned.
pub do_io-Settles :
    (o : Kernel) (ctx : Option FdCtx) (fd : ℕ) (event : Event) (receiving : Bool)
    (timeout n fuel : ℕ)
    → mode_of true ctx receiving ≡ blocking timeout
    → Patient o
    → ((j : ℕ) → j < n → Again (o.calls j))
    → o.calls n ≢ failed_with eintr
    → o.calls n ≢ failed_with eagain
    → n < fuel
    → Settles (do_io o true ctx fd event receiving fuel) (o.calls n)
unfolding do_io
do_io-Settles o ctx fd event receiving timeout n fuel h p again hi ha l =
    rw (do_io, h) (retry-Settles o fd event timeout n n fuel 0 0 p again hi ha (omega (arith)) l)
