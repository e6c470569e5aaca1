-- ===== src/Raft/Vote/Elects.antt =====
-- What doElection of raft.cpp leaves, and whom it asks.
use rpc_storage_cpp.Common.{length, ℕ, ◌+◌, ◌<◌, ◌≡◌, refl, false, some, List, [], ◌∷◌, map}
use rpc_storage_cpp.Raft.Vote.Majority.{do_election-requests, OthersFrom}
use rpc_storage_cpp.Raft.Vote.{other_peers, is_leader, do_election}
use rpc_storage_cpp.Persister.{save_raft_state}
use rpc_storage_cpp.Raft.Log.{persist, persist_data, get_last_log_term, get_last_log_index}
use rpc_storage_cpp.Raft.State.{Raft, RequestVoteArgs, candidate}

-- All of these ask for a vote in that term, for that node, with the end of its log.
abbrev pub AllAsk : (s : Raft) (term : ℕ) → List (ℕ × RequestVoteArgs) → Type 0
AllAsk s term [] = Unit {0}
AllAsk s term ((i, args) ∷ r) =
    (args.term ≡ term)
    × (args.candidate_id ≡ s.me)
    × (args.last_log_index ≡ get_last_log_index s)
    × (args.last_log_term ≡ get_last_log_term s)
    × AllAsk s term r

-- The node is a candidate in the next term, with its own vote, and this is persisted; its timer is reset;
-- and it asks each of the other peers once.
pub record Elects (s : Raft) (now : ℕ) (r : Raft × List (ℕ × RequestVoteArgs)) : Type 0 where
  pub status : r.0.status ≡ candidate
  pub term : r.0.current_term ≡ s.current_term + 1
  pub vote : r.0.voted_for ≡ some s.me
  pub persisted : r.0.persister ≡ save_raft_state s.persister (persist_data r.0)
  pub timer : r.0.last_reset_election_time ≡ now
  pub count : length r.1 + 1 ≡ s.peers
  pub targets : OthersFrom s.me 0 s.peers (map (λ p. p.0) r.1)
  pub asked : AllAsk s (s.current_term + 1) r.1

AllAsk-map :
    (s : Raft) (term : ℕ) (args : RequestVoteArgs) (others : List ℕ)
    → args.term ≡ term
    → args.candidate_id ≡ s.me
    → args.last_log_index ≡ get_last_log_index s
    → args.last_log_term ≡ get_last_log_term s
    → AllAsk s term (map (λ i. (i, args)) others)
AllAsk-map s term args [] a b c d = tt
AllAsk-map s term args (i ∷ others) a b c d = (a, b, c, d, AllAsk-map s term args others a b c d)

pub do_election-Elects :
    (s : Raft) (now : ℕ)
    → is_leader s.status ≡ false
    → s.me < s.peers
    → Elects s now (do_election s now)
unfolding do_election persist persist_data get_last_log_index get_last_log_term
do_election-Elects s now h m =
    let (a, b, c, n, o) = do_election-requests s now h m in
    record {
      status = rw (do_election, h) refl;
      term = a;
      vote = b;
      persisted = c;
      timer = rw (do_election, h) refl;
      count = n;
      targets = o;
      asked = rw (do_election, h) (AllAsk-map s _ _ (other_peers s) refl refl refl refl);
    }
