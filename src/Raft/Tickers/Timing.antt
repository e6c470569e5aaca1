-- ===== src/Raft/Tickers/Timing.antt =====
-- How long the loops of raft.cpp wait.
use rpc_storage_cpp.Common.{
  ltb, Bool-cases, ℕ, ◌+◌, ◌-◌, ◌*◌, ◌/◌, ◌≤◌, ◌<◌, ◌≡◌, refl, ap, ◌≢◌, ◌⊎◌, inl, inr, true, Option,
  none, some, [], arith,
}
use rpc_storage_cpp.Raft.Vote.Elects.{do_election-Elects, Elects}
use rpc_storage_cpp.Raft.Vote.{is_leader, do_election}
use rpc_storage_cpp.Raft.Tickers.{election_sleep, election_round, sleep_us, millisecond}
use rpc_storage_cpp.Raft.State.{follower, candidate, leader, Status, Raft}
use rpc_storage_cpp.Hook.{usleep_ms}

-- A call of `usleep` on a fiber, from `started` to `fired` on the clock of the timers, which counts
-- whole milliseconds: its timer is due. A call that sleeps as long as it is asked to is one of these.
abbrev pub Slept : Option ℕ → (started fired : ℕ) → Type 0
Slept none started fired = started ≤ fired
Slept (some us) started fired = started / millisecond + usleep_ms us ≤ fired / millisecond

long_sleep :
    (x started fired : ℕ)
    → started / 1000000 + x / 1000 / 1000 ≤ fired / 1000000
    → x + started ≤ fired + 2000000
long_sleep x started fired h = omega (arith, h)

sleep_us-Slept :
    (timeout_ms last_reset wake started fired : ℕ)
    → Slept (sleep_us timeout_ms last_reset wake) started fired
    → last_reset + timeout_ms * millisecond + started ≤ wake + fired + 2 * millisecond
unfolding sleep_us usleep_ms
sleep_us-Slept timeout_ms last_reset wake started fired =
    elim (Bool-cases (ltb (wake + millisecond) (timeout_ms * millisecond + last_reset))) [
      | inl e ↦
          let x = timeout_ms * millisecond + last_reset - wake in
          rw (sleep_us, e)
            (λ h.
              let later : wake + 1000000 < timeout_ms * 1000000 + last_reset = ground (arith, e) in
              omega (arith, later, long_sleep x started fired h))
      | inr e ↦ rw (sleep_us, e) (λ h. ground (arith, e, h))
    ]

is_leader-leader : (s : Status) → is_leader s ≡ true → s ≡ leader
is_leader-leader leader h = refl
is_leader-leader follower h = absurd (cc h)
is_leader-leader candidate h = absurd (cc h)

-- A round of `electionTimeOutTicker` with a timeout in milliseconds that was drawn at `wake`, for a node
-- `s` then and `t` at the end of the sleep, at `now`. The sleep is that of a timer that counts whole
-- milliseconds of its own clock, and `now` is later than `wake` by at least the time that passed on that
-- clock; the node's own number is below the number of peers. If the election timer was reset since `wake`,
-- or the node is then the leader, the round changes nothing and sends nothing. If neither, the node is a
-- candidate in the next term, with its own vote, which is persisted, its timer is reset to `now`, it asks
-- each of the other peers once for a vote in that term, with the end of its log, and all this is no earlier
-- than the timeout after the reset that the round saw at `wake`, but for two milliseconds.
pub election_round-late :
    (s t : Raft) (timeout_ms wake started fired now : ℕ)
    → Slept (election_sleep s timeout_ms wake) started fired
    → wake + fired ≤ now + started
    → t.me < t.peers
    → (((wake < t.last_reset_election_time) ⊎ (t.status ≡ leader))
        × (election_round t wake now ≡ (t, [])))
      ⊎ ((t.last_reset_election_time ≤ wake)
          × (t.status ≢ leader)
          × Elects t now (election_round t wake now)
          × (s.last_reset_election_time + timeout_ms * millisecond ≤ now + 2 * millisecond))
unfolding election_round do_election
election_round-late s t timeout_ms wake started fired now l c m =
    elim (Bool-cases (ltb wake t.last_reset_election_time)) [
      | inl e ↦ inl (inl (ground (arith, e)), rw (election_round, e) refl)
      | inr e ↦ elim (Bool-cases (is_leader t.status)) [
        | inl f ↦
            inl (inr (is_leader-leader t.status f), rw (election_round, e, do_election, f) refl)
        | inr f ↦ inr (
          ground (arith, e),
          λ q. let on : is_leader t.status ≡ true = ap is_leader q in cc (f, on),
          rw (election_round, e) (do_election-Elects t now f m),
          omega
              (arith, c, sleep_us-Slept timeout_ms s.last_reset_election_time wake started fired l),
        )
      ]
    ]
