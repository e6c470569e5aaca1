-- ===== src/Raft/Node/Election.antt =====
-- At most one candidate gets the votes of a majority in a term: raftCore/raft.cpp, `RequestVote`,
-- `doElection` and the test for a majority in `sendRequestVote`.
use rpc_storage_cpp.Common.{
  if◌then◌else◌, Bool-cases, Returns-at, ok, ℕ, zero, suc, ◌+◌, ◌/◌, ◌≤◌, ◌<◌, ◌≡◌, refl, sym, ◌∙◌,
  subst, inl, inr, Bool, true, false, some, List, ◌∷◌, arith,
}
use rpc_storage_cpp.Raft.Vote.Grants.{request_vote_state}
use rpc_storage_cpp.Raft.Node.VoteOnce.{step-KeepsVote, Only-at}
use rpc_storage_cpp.Raft.Node.KeepsVote.{KeepsVote-trans, KeepsVote-same, KeepsVote}
use rpc_storage_cpp.Raft.Log.{persist}
use rpc_storage_cpp.Raft.Vote.{is_leader, request_vote, do_election}
use rpc_storage_cpp.Raft.Node.{on_election, on_request_vote, Event, step}
use rpc_storage_cpp.Raft.State.{RequestVoteReply, RequestVoteArgs, Raft}

-- At some point of the events from a state on, the node's vote in a term is a candidate's.
pub data VotedIn (term c : ℕ) : Raft → List Event → Type 0 where
  has_voted :
      (s : Raft) (es : List Event)
      → s.current_term ≡ term
      → s.voted_for ≡ some c
      → VotedIn term c s es
  later :
      (s t : Raft) (e : Event) (es : List Event)
      → step s e ≡ ok t
      → VotedIn term c t es
      → VotedIn term c s (e ∷ es)

-- A vote that is granted is one.
pub granted-VotedIn :
    (s : Raft) (now : ℕ) (args : RequestVoteArgs) (p : Raft × RequestVoteReply) (es : List Event)
    → request_vote s now args ≡ ok p
    → p.1.vote_granted ≡ true
    → VotedIn p.1.term args.candidate_id s (on_request_vote now args ∷ es)
unfolding step
granted-VotedIn s now args p es e g =
    let h = Returns-at _ (request_vote s now args) p e (request_vote_state s now args) in
    later s p.0 (on_request_vote now args) es (rw e refl) (has_voted p.0 es (sym h.1) (h.3 g))

-- So is the vote of a candidate for itself.
pub do_election-VotedIn :
    (s : Raft) (now : ℕ) (es : List Event)
    → is_leader s.status ≡ false
    → VotedIn (s.current_term + 1) s.me s (on_election now ∷ es)
unfolding step do_election persist
do_election-VotedIn s now es h =
    later s (do_election s now).0 (on_election now) es refl
      (has_voted (do_election s now).0 es (rw h refl) (rw h refl))

step-kept : (s t : Raft) (e : Event) → step s e ≡ ok t → KeepsVote s t
step-kept s t e p = Only-at (KeepsVote s) (step s e) t p (step-KeepsVote s e)

reached :
    (term c : ℕ) (s : Raft) (es : List Event)
    → VotedIn term c s es
    → (t : Raft) × KeepsVote s t × (t.current_term ≡ term) × (t.voted_for ≡ some c)
reached term c _ _ (has_voted s es p q) = (s, KeepsVote-same refl refl, p, q)
reached term c _ _ (later s t e es p v) =
    let (u, k, x, y) = reached term c t es v in (u, KeepsVote-trans (step-kept s t e p) k, x, y)

voted-reached :
    (term a b : ℕ) (s : Raft) (es : List Event)
    → s.current_term ≡ term
    → s.voted_for ≡ some a
    → VotedIn term b s es
    → a ≡ b
voted-reached term a b s es p q v =
    let (u, k, x, y) = reached term b s es v in
    elim (k.vote (p ∙ sym x)) [ inl none_ ↦ cc | inr same ↦ cc ]

-- A node has one vote in a term.
voted_once :
    (term a b : ℕ) (s : Raft) (es : List Event) → VotedIn term a s es → VotedIn term b s es → a ≡ b
voted_once term a b _ _ (has_voted s es p q) v = voted-reached term a b s es p q v
voted_once term a b _ _ (later s t e es p u) (has_voted s' es' q r) =
    sym (voted-reached term b a s (e ∷ es) q r (later s t e es p u))
voted_once term a b _ _ (later s t e es p u) (later s' t' e' es' q v) =
    let same : t' ≡ t = cc (sym q ∙ p) in
    voted_once term a b t es u (subst (λ x. VotedIn term b x es) same v)

-- How many of the numbers below `n` pass a test.
abbrev pub count : (ℕ → Bool) → ℕ → ℕ
count f zero = 0
count f (suc n) = let rest = count f n in if f n then suc rest else rest

-- Two tests that more than n numbers below n pass together are both passed by one of them.
common :
    (f g : ℕ → Bool) (n : ℕ)
    → n < count f n + count g n
    → (i : ℕ) × (i < n) × (f i ≡ true) × (g i ≡ true)
common f g zero h = absurd (omega arith)
common f g (suc n) h = elim (Bool-cases (f n)) [
  | inl x ↦ elim (Bool-cases (g n)) [
    | inl y ↦ (n, omega arith, x, y)
    | inr y ↦ let (i, l, p, q) = common f g n (ground arith) in (i, omega arith, p, q)
  ]
  | inr x ↦ let (i, l, p, q) = common f g n (ground arith) in (i, omega arith, p, q)
]

-- Among n nodes, each with any history of events, if each of n / 2 + 1 nodes has voted for `a` in a
-- term and each of n / 2 + 1 nodes has voted for `b` in the same term, `a` and `b` are the same.
pub elected_once :
    (n term a b : ℕ) (start : ℕ → Raft) (history : ℕ → List Event) (for_a for_b : ℕ → Bool)
    → ((i : ℕ) → i < n → for_a i ≡ true → VotedIn term a (start i) (history i))
    → ((i : ℕ) → i < n → for_b i ≡ true → VotedIn term b (start i) (history i))
    → n / 2 + 1 ≤ count for_a n
    → n / 2 + 1 ≤ count for_b n
    → a ≡ b
elected_once n term a b start history for_a for_b va vb ma mb =
    let (i, l, p, q) = common for_a for_b n (omega arith) in
    voted_once term a b (start i) (history i) (va i l p) (vb i l q)
