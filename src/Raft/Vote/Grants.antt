-- ===== src/Raft/Vote/Grants.antt =====
-- When a vote is granted, and what a node remembers of it: raftCore/raft.cpp, `RequestVote`.
use rpc_storage_cpp.Common.{
  Returns, ℕ, ◌≤◌, ◌<◌, max, ◌≡◌, refl, ◌↔◌, ◌⊎◌, true, false, none, some, arith,
}
use rpc_storage_cpp.Persister.{save_raft_state}
use rpc_storage_cpp.Raft.State.{Raft, RequestVoteArgs}
use rpc_storage_cpp.Raft.Log.{
  up_to_date, persist, persist_data, get_last_log_index, get_last_log_term,
}
use rpc_storage_cpp.Raft.Vote.{request_vote, step_down}

-- The candidate's log is at least as new as the node's: its last term is larger, or the same with a
-- last index that is not smaller.
abbrev pub AtLeastAsNew : Raft → RequestVoteArgs → Type 0
AtLeastAsNew s args =
    (get_last_log_term s < args.last_log_term)
    ⊎ ((args.last_log_term ≡ get_last_log_term s) × (get_last_log_index s ≤ args.last_log_index))

-- The node has no vote in the request's term, or that vote is the candidate's.
abbrev pub MayVoteFor : Raft → RequestVoteArgs → Type 0
MayVoteFor s args =
    (s.current_term < args.term)
    ⊎ ((s.current_term ≡ args.term)
        × ((s.voted_for ≡ none) ⊎ (s.voted_for ≡ some args.candidate_id)))

up_to_date_sound :
    (s : Raft) (args : RequestVoteArgs)
    → up_to_date s args.last_log_index args.last_log_term ≡ true
    → AtLeastAsNew s args
unfolding up_to_date
up_to_date_sound s args = ground arith

up_to_date_complete :
    (s : Raft) (args : RequestVoteArgs)
    → AtLeastAsNew s args
    → up_to_date s args.last_log_index args.last_log_term ≡ true
unfolding up_to_date
up_to_date_complete s args = ground arith

up_to_date-step_down : (s : Raft) (t i k : ℕ) → up_to_date (step_down s t) i k ≡ up_to_date s i k
unfolding up_to_date get_last_log_index get_last_log_term
up_to_date-step_down s t i k = refl

-- `RequestVote` always returns, and it grants the vote exactly when the candidate's log is at least
-- as new as the node's and the node has no other vote in the request's term, which must not be older
-- than its own.
pub request_vote_granted :
    (s : Raft) (now : ℕ) (args : RequestVoteArgs)
    → Returns
        (request_vote s now args)
        λ p. (p.1.vote_granted ≡ true) ↔ (AtLeastAsNew s args × MayVoteFor s args)
unfolding request_vote
request_vote_granted s now args = ground (
  arith,
  up_to_date_sound s args,
  up_to_date_complete s args,
  up_to_date-step_down s args.term args.last_log_index args.last_log_term,
)

pub request_vote_state :
    (s : Raft) (now : ℕ) (args : RequestVoteArgs)
    → Returns (request_vote s now args) λ p.
      (p.0.current_term ≡ max s.current_term args.term)
      × (p.1.term ≡ p.0.current_term)
      × (p.0.persister ≡ save_raft_state s.persister (persist_data p.0))
      × (p.1.vote_granted ≡ true → p.0.voted_for ≡ some args.candidate_id)
      × (p.1.vote_granted ≡ false → p.0.current_term ≡ s.current_term → p.0.voted_for ≡ s.voted_for)
      × (p.0.logs ≡ s.logs)
unfolding request_vote persist persist_data
request_vote_state s now args = ground arith

-- `RequestVote` always returns, in a term that is the larger of the node's and the request's and that
-- the reply names; the node has persisted the state it is left in, its log is as before, and a reply
-- that grants the vote goes with that vote.
pub request_vote_persists :
    (s : Raft) (now : ℕ) (args : RequestVoteArgs)
    → Returns (request_vote s now args) λ p.
      (p.0.current_term ≡ max s.current_term args.term)
      × (p.1.term ≡ p.0.current_term)
      × (p.0.persister ≡ save_raft_state s.persister (persist_data p.0))
      × (p.0.logs ≡ s.logs)
      × ((p.1.vote_granted ≡ false) ⊎ (p.0.voted_for ≡ some args.candidate_id))
unfolding request_vote persist persist_data
request_vote_persists s now args = ground arith
