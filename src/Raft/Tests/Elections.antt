-- ===== src/Raft/Tests/Elections.antt =====
-- Elections at the node of the tests: raftCore/raft.cpp.
use rpc_storage_cpp.Common.{
  Returns, ok, ℕ, ◌+◌, ◌/◌, ◌≤◌, ◌<◌, ◌≡◌, refl, ◌↔◌, true, none, some, List, [], ◌∷◌, arith,
}
use rpc_storage_cpp.Raft.Node.Election.{granted-VotedIn, elected_once, VotedIn}
use rpc_storage_cpp.Persister.{new_persister, save_raft_state}
use rpc_storage_cpp.Raft.Vote.Grants.{request_vote_granted, MayVoteFor, AtLeastAsNew}
use rpc_storage_cpp.Raft.Replicate.{start}
use rpc_storage_cpp.Raft.Vote.Majority.{send_request_vote-leader}
use rpc_storage_cpp.Raft.Tests.{node}
use rpc_storage_cpp.Raft.Log.{
  persist_data, get_last_log_term, get_last_log_index, persist, up_to_date,
}
use rpc_storage_cpp.Raft.Node.VoteOnce.{run-KeepsVote, request_vote_once}
use rpc_storage_cpp.Raft.Node.KeepsVote.{KeepsVote}
use rpc_storage_cpp.Raft.Node.{on_request_vote, on_start, step, on_vote_reply, run, Event}
use rpc_storage_cpp.Raft.Vote.{is_leader, send_request_vote, request_vote}
use rpc_storage_cpp.Raft.State.{normal, RequestVoteReply, Raft, RequestVoteArgs}

abbrev ballot : RequestVoteArgs
ballot = record { term = 3; candidate_id = 0; last_log_index = 3; last_log_term = 2 }

abbrev vote : Raft × RequestVoteReply
vote = (
  persist (record node { current_term = 3; voted_for = some 0; last_reset_election_time = 5 }),
  record { term = 3; vote_granted = true; vote_state = normal },
)

vote-first : request_vote node 5 ballot ≡ ok vote
unfolding request_vote up_to_date get_last_log_index get_last_log_term
vote-first = refl

-- A failed call and a command for a node that is not the leader come between.
abbrev between : List Event
between = on_vote_reply none 1 ∷ on_start (7 ∷ []) ∷ []

run-between : run vote.0 between ≡ ok vote.0
unfolding run step send_request_vote start persist
run-between = refl

vote-again : request_vote vote.0 5 ballot ≡ ok vote
unfolding request_vote up_to_date get_last_log_index get_last_log_term persist new_persister
    save_raft_state persist_data
vote-again = refl

request_vote_once_example : ballot.candidate_id ≡ ballot.candidate_id
request_vote_once_example =
    request_vote_once node vote.0 5 5 ballot ballot between vote vote vote-first run-between
      vote-again refl refl refl

request_vote_granted_example :
    Returns
      (request_vote node 5 ballot)
      λ p. (p.1.vote_granted ≡ true) ↔ (AtLeastAsNew node ballot × MayVoteFor node ballot)
request_vote_granted_example = request_vote_granted node 5 ballot

run-KeepsVote_example : KeepsVote vote.0 vote.0
run-KeepsVote_example = run-KeepsVote vote.0 vote.0 between run-between

send_request_vote-leader_example : Returns (send_request_vote vote.0 (some vote.1) 1) λ o.
    (is_leader o.node.status ≡ o.heart_beat)
    × ((o.heart_beat ≡ true) ↔ (
        (vote.1.term ≡ vote.0.current_term)
        × (vote.1.vote_granted ≡ true)
        × (vote.0.peers / 2 + 1 ≤ 2)))
unfolding persist
send_request_vote-leader_example = send_request_vote-leader vote.0 vote.1 1 refl

-- Three nodes that are all given the same ballot.
all_vote : (i : ℕ) → i < 3 → true ≡ true → VotedIn 3 0 node (on_request_vote 5 ballot ∷ [])
all_vote i l h = granted-VotedIn node 5 ballot vote [] vote-first refl

elected_once_example : ballot.candidate_id ≡ ballot.candidate_id
elected_once_example =
    elected_once 3 3 0 0 (λ i. node) (λ i. on_request_vote 5 ballot ∷ []) (λ i. true) (λ i. true)
      all_vote all_vote (omega arith) (omega arith)
