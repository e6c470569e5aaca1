-- ===== src/Raft/Vote.antt =====
-- Elections, raftCore/raft.cpp: `doElection`, `RequestVote` and `sendRequestVote`.
pub mod Grants
pub mod Majority
pub mod Elects
use rpc_storage_cpp.Common.{
  ℕ, zero, suc, ◌+◌, ◌/◌, Bool, true, false, not, Option, none, some, List, [], ◌∷◌, map, ltb, leb,
  ◌==◌, if◌then◌else◌, Result, ok, err, assert_failed, ◌>>=◌, ◌>>◌, my_assert,
}
use rpc_storage_cpp.Raft.State.{
  Raft, Status, follower, candidate, leader, RequestVoteArgs, RequestVoteReply, VoteState, voted,
  expire, normal,
}
use rpc_storage_cpp.Raft.Log.{get_last_log_index, get_last_log_term, up_to_date, persist}

-- The three assignments that every handler makes on a larger term.
abbrev pub step_down : Raft → ℕ → Raft
step_down s term = record s { status = follower; current_term = term; voted_for = none }

abbrev pub is_leader : Status → Bool
is_leader leader = true
is_leader follower = false
is_leader candidate = false

-- `m_votedFor != -1 && m_votedFor != candidateid`.
abbrev pub voted_for_other : Option ℕ → ℕ → Bool
voted_for_other none c = false
voted_for_other (some v) c = not (v == c)

-- `RequestVote` after the terms have been compared.
unfoldable pub cast_vote : Raft → (now : ℕ) → RequestVoteArgs → Raft × RequestVoteReply
cast_vote s now args =
    let refusal : RequestVoteReply = record {
      term = s.current_term;
      vote_granted = false;
      vote_state = voted;
    } in
    if not (up_to_date s args.last_log_index args.last_log_term)
    then (s, refusal)
    else if voted_for_other s.voted_for args.candidate_id
    then (s, refusal)
    else (
      record s { voted_for = some args.candidate_id; last_reset_election_time = now },
      record { term = s.current_term; vote_granted = true; vote_state = normal },
    )

-- Every way out of the handler persists.
unfoldable pub request_vote : Raft → (now : ℕ) → RequestVoteArgs → Result (Raft × RequestVoteReply)
unfolding cast_vote
request_vote s now args =
    if ltb args.term s.current_term
    then ok (persist s, record { term = s.current_term; vote_granted = false; vote_state = expire })
    else do
      let s' = if ltb s.current_term args.term then step_down s args.term else s
      my_assert (args.term == s'.current_term)
      ok (let (t, reply) = cast_vote s' now args in (persist t, reply))

-- The loop `for (i = 0; i < m_peers.size(); i++)` without `m_me`, from `i` on with `n` rounds left.
abbrev pub others_from : (me i n : ℕ) → List ℕ
others_from me i zero = []
others_from me i (suc n) = let rest = others_from me (suc i) n in if i == me then rest else i ∷ rest

abbrev pub other_peers : Raft → List ℕ
other_peers s = others_from s.me 0 s.peers

-- The new state, and the request that is sent to each peer. The votes are counted from 1.
unfoldable pub do_election : Raft → (now : ℕ) → Raft × List (ℕ × RequestVoteArgs)
do_election s now =
    let t =
      persist (record s {
        status = candidate;
        current_term = s.current_term + 1;
        voted_for = some s.me;
      }) in
    let args : RequestVoteArgs = record {
      term = t.current_term;
      candidate_id = s.me;
      last_log_index = get_last_log_index t;
      last_log_term = get_last_log_term t;
    } in
    if is_leader s.status
    then (s, [])
    else (record t { last_reset_election_time = now }, map (λ i. (i, args)) (other_peers s))

-- What `sendRequestVote` leaves: the node, the shared count of votes, and whether it started a
-- thread for `doHeartBeat`.
pub record VoteOutcome : Type 0 where
  pub node : Raft
  pub voted_num : ℕ
  pub heart_beat : Bool

unfoldable pub become_leader : Raft → Raft
become_leader s = persist (record s {
  status = leader;
  next_index = map (λ _. get_last_log_index s + 1) s.next_index;
  match_index = map (λ _. 0) s.match_index;
})

-- `*votedNum >= m_peers.size() / 2 + 1`.
abbrev pub is_majority : Raft → ℕ → Bool
is_majority s n = leb (s.peers / 2 + 1) n

-- A granted vote is counted. At a majority the count starts again from 0.
unfoldable pub count_vote : Raft → (voted_num : ℕ) → Result VoteOutcome
unfolding become_leader
count_vote s voted_num =
    if is_majority s (voted_num + 1)
    then (do
      my_assert (not (is_leader s.status))
      ok (record { node = become_leader s; voted_num = 0; heart_beat = true }))
    else ok (record { node = s; voted_num = voted_num + 1; heart_beat = false })

-- `sendRequestVote` from the return of the call on; `none` is a call that failed.
unfoldable pub send_request_vote :
    Raft → Option RequestVoteReply → (voted_num : ℕ) → Result VoteOutcome
send_request_vote s none voted_num =
    ok (record { node = s; voted_num = voted_num; heart_beat = false })
send_request_vote s (some reply) voted_num =
    if ltb s.current_term reply.term
    then ok (record {
      node = persist (step_down s reply.term);
      voted_num = voted_num;
      heart_beat = false;
    })
    else if ltb reply.term s.current_term
    then ok (record { node = s; voted_num = voted_num; heart_beat = false })
    else (do
      my_assert (reply.term == s.current_term)
      if reply.vote_granted
          then count_vote s voted_num
          else ok (record { node = s; voted_num = voted_num; heart_beat = false }))
