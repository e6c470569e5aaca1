-- ===== src/Raft/Tickers.antt =====
-- One round of each endless loop of raft.cpp: applierTicker, electionTimeOutTicker, leaderHearBeatTicker.
-- Times are in nanoseconds. The loops in front of a round that wait for a change of `m_status` only
-- decide when it begins.
pub mod Feed
pub mod Timing
mod Tests
use rpc_storage_cpp.Raft.State.{Raft, ApplyMsg, RequestVoteArgs}
use rpc_storage_cpp.Raft.Apply.{get_apply_logs}
use rpc_storage_cpp.Raft.Vote.{do_election}
use rpc_storage_cpp.Raft.Replicate.{do_heart_beat, HeartBeat}
use rpc_storage_cpp.LockQueue.{LockQueue, push}
use rpc_storage_cpp.Common.{
  ltb, if◌then◌else◌, Result, ◌>>=◌, ok, ℕ, ◌+◌, ◌-◌, ◌*◌, ◌/◌, ◌^◌, Option, none, some, List, [],
  ◌∷◌,
}

-- The loop that pushes the messages to `applyChan`.
unfoldable pub push_all : LockQueue ApplyMsg → List ApplyMsg → LockQueue ApplyMsg
unfolding push
push_all q [] = q
push_all q (message ∷ messages) = push_all (push q message) messages

unfoldable pub applier_round : Raft → LockQueue ApplyMsg → Result (Raft × LockQueue ApplyMsg)
unfolding get_apply_logs push_all
applier_round s q = do (t, messages) ← get_apply_logs s; ok (t, push_all q messages)

abbrev pub millisecond : ℕ
millisecond = 10 ^ 6

-- `HeartBeatTimeout`, in milliseconds.
abbrev pub heart_beat_timeout : ℕ
heart_beat_timeout = 25

-- `suitableSleepTime`, in microseconds, or none if it is not above a millisecond.
unfoldable pub sleep_us : (timeout_ms last_reset wake : ℕ) → Option ℕ
sleep_us timeout_ms last_reset wake =
    if ltb (wake + millisecond) (timeout_ms * millisecond + last_reset)
    then some ((timeout_ms * millisecond + last_reset - wake) / 1000)
    else none

abbrev pub election_sleep : Raft → (timeout_ms wake : ℕ) → Option ℕ
election_sleep s timeout_ms wake = sleep_us timeout_ms s.last_reset_election_time wake

abbrev pub heart_beat_sleep : Raft → (wake : ℕ) → Option ℕ
heart_beat_sleep s wake = sleep_us heart_beat_timeout s.last_reset_hear_beat_time wake

-- `electionTimeOutTicker` behind the sleep.
unfoldable pub election_round : Raft → (wake now : ℕ) → Raft × List (ℕ × RequestVoteArgs)
unfolding do_election
election_round s wake now =
    if ltb wake s.last_reset_election_time then (s, []) else do_election s now

-- `leaderHearBeatTicker` behind the sleep.
unfoldable pub heart_beat_round : Raft → (wake now : ℕ) → Result (Raft × List HeartBeat)
unfolding do_heart_beat
heart_beat_round s wake now =
    if ltb wake s.last_reset_hear_beat_time then ok (s, []) else do_heart_beat s now
