-- ===== src/Raft/Vote/Majority.antt =====
-- Whom a candidate asks, and when it becomes the leader: raftCore/raft.cpp, `doElection` and
-- `sendRequestVote`.
use rpc_storage_cpp.Common.{
  ltb, leb, ◌==◌, if◌then◌else◌, Bool-cases, length, Returns, ℕ, zero, suc, ◌+◌, ◌-◌, ◌/◌, ◌≤◌, ◌<◌,
  ◌≡◌, refl, sym, ap, subst, ◌≢◌, ◌↔◌, inl, inr, true, false, ◌&&◌, some, List, [], ◌∷◌, map, arith,
}
use rpc_storage_cpp.Persister.{save_raft_state}
use rpc_storage_cpp.Raft.State.{RequestVoteArgs, RequestVoteReply, Raft}
use rpc_storage_cpp.Raft.Log.{persist_data, persist}
use rpc_storage_cpp.Raft.Vote.{
  become_leader, other_peers, is_leader, count_vote, send_request_vote, do_election, others_from,
}

-- Distinct peers other than `me`, from `i` on and below `k`, in order.
abbrev pub OthersFrom : (me i k : ℕ) → List ℕ → Type 0
OthersFrom me i k [] = Unit {0}
OthersFrom me i k (j ∷ js) = (i ≤ j) × (j < k) × (j ≢ me) × OthersFrom me (suc j) k js

OthersFrom-mono :
    {i j : ℕ} (me k : ℕ) (js : List ℕ) → i ≤ j → OthersFrom me j k js → OthersFrom me i k js
OthersFrom-mono me k [] h o = tt
OthersFrom-mono me k (j ∷ js) h o = (omega arith, o.1, o.2, o.3)

others_from-OthersFrom : (me i n k : ℕ) → i + n ≡ k → OthersFrom me i k (others_from me i n)
others_from-OthersFrom me i zero k e = tt
others_from-OthersFrom me i (suc n) k e = elim (Bool-cases (i == me)) [
  | inl self ↦ rw self (
      OthersFrom-mono me k (others_from me (suc i) n) (omega arith)
        (others_from-OthersFrom me (suc i) n k (omega arith)))
  | inr other ↦
      rw other (
        omega arith,
        omega arith,
        ground arith,
        others_from-OthersFrom me (suc i) n k (omega arith),
      )
]

-- The loop leaves out `me` alone.
length-others_from :
    (me i n : ℕ) → length (others_from me i n) ≡ (if leb i me && ltb me (i + n) then n - 1 else n)
length-others_from me i zero = ground arith
length-others_from me i (suc n) = ground (arith, length-others_from me (suc i) n)

length-map : {A B : Type 0} (f : A → B) (xs : List A) → length (map f xs) ≡ length xs
length-map f [] = refl
length-map f (x ∷ xs) = ap suc (length-map f xs)

map-targets :
    {A : Type 0} (a : A) (xs : List ℕ) → map (λ p. p.0) (map {B = ℕ × A} (λ i. (i, a)) xs) ≡ xs
map-targets a [] = refl
map-targets a (x ∷ xs) = ap (λ r. x ∷ r) (map-targets a xs)

-- An election at a node that is not the leader, and whose own number is below the number of peers, starts the next term with a vote for itself, which is
-- persisted, and asks each of the other peers once: the targets are distinct, below the
-- number of peers and not the node itself, and one fewer than the peers.
pub do_election-requests :
    (s : Raft) (now : ℕ)
    → is_leader s.status ≡ false
    → s.me < s.peers
    → ((do_election s now).0.current_term ≡ s.current_term + 1)
      × ((do_election s now).0.voted_for ≡ some s.me)
      × ((do_election s now).0.persister
          ≡ save_raft_state s.persister (persist_data (do_election s now).0))
      × (length (do_election s now).1 + 1 ≡ s.peers)
      × OthersFrom s.me 0 s.peers (map (λ p. p.0) (do_election s now).1)
unfolding do_election persist persist_data
do_election-requests s now h m = rw h (
  refl,
  refl,
  refl,
  rw (length-map {A = ℕ} {B = ℕ × RequestVoteArgs} _ (other_peers s))
      (ground (arith, length-others_from s.me 0 s.peers, m)),
  subst (OthersFrom s.me 0 s.peers) (sym (map-targets _ (other_peers s)))
      (others_from-OthersFrom s.me 0 s.peers s.peers (omega arith)),
)

-- What a candidate or follower does with a reply to its request does not end the process. It is the
-- leader afterwards, and starts a heartbeat, exactly if the reply is of its own term and grants the
-- vote, and the vote makes a majority of all peers.
pub send_request_vote-leader :
    (s : Raft) (reply : RequestVoteReply) (voted_num : ℕ)
    → is_leader s.status ≡ false
    → Returns (send_request_vote s (some reply) voted_num) λ o.
      (is_leader o.node.status ≡ o.heart_beat)
      × ((o.heart_beat ≡ true) ↔ (
          (reply.term ≡ s.current_term)
          × (reply.vote_granted ≡ true)
          × (s.peers / 2 + 1 ≤ voted_num + 1)))
unfolding send_request_vote count_vote become_leader persist
send_request_vote-leader s reply n h = ground arith
