-- ===== src/Raft/Node/VoteOnce.antt =====
-- A node votes once in a term: raftCore/raft.cpp.
use rpc_storage_cpp.Common.{
  ltb, if◌then◌else◌, Bytes, Result, Returns-at, ok, ℕ, ◌≡◌, refl, sym, ◌∙◌, ◌⊎◌, inl, inr, true,
  Option, none, some, List, [], ◌∷◌, arith,
}
use rpc_storage_cpp.Raft.Node.KeepsVote.{
  Only-map, Only-bind, KeepsVote-trans, KeepsVote-same, SameVote, append_accepted-SameVote,
  KeepsVote, Only,
}
use rpc_storage_cpp.Raft.Vote.Grants.{request_vote_state}
use rpc_storage_cpp.Raft.Apply.{get_apply_logs}
use rpc_storage_cpp.Raft.Replicate.{start, send_append_entries, do_heart_beat}
use rpc_storage_cpp.Raft.Compact.{
  install, snapshot_request, snapshot, leader_send_snap_shot, install_snapshot,
}
use rpc_storage_cpp.Raft.Append.{append_entries}
use rpc_storage_cpp.Raft.Log.{persist}
use rpc_storage_cpp.Raft.Vote.{step_down, count_vote, send_request_vote, do_election, request_vote}
use rpc_storage_cpp.Raft.Node.{
  run, Event, on_snapshot_reply, on_append_reply, on_vote_reply, on_snapshot, on_start,
  on_install_snapshot, on_snapshot_request, on_apply, on_heart_beat, on_election, on_append_entries,
  on_request_vote, step,
}
use rpc_storage_cpp.Raft.State.{
  follower, InstallSnapshotResponse, AppendEntriesReply, RequestVoteReply, InstallSnapshotRequest,
  AppendEntriesArgs, RequestVoteArgs, Raft,
}

append_entries-KeepsVote :
    (s : Raft) (now : ℕ) (args : AppendEntriesArgs)
    → Only (step s (on_append_entries now args)) (KeepsVote s)
unfolding step append_entries persist
append_entries-KeepsVote s now args = ground (
  arith,
  append_accepted-SameVote (record (step_down s args.term) { last_reset_election_time = now }) args,
  append_accepted-SameVote (record s { status = follower; last_reset_election_time = now }) args,
)

request_vote-KeepsVote :
    (s : Raft) (now : ℕ) (args : RequestVoteArgs)
    → Only (step s (on_request_vote now args)) (KeepsVote s)
unfolding step request_vote persist
request_vote-KeepsVote s now args = ground arith

install-SameVote : (s : Raft) (args : InstallSnapshotRequest) → Only (install s args) (SameVote s)
unfolding install
install-SameVote s args = ground arith

install_snapshot-KeepsVote :
    (s : Raft) (now : ℕ) (args : InstallSnapshotRequest)
    → Only (step s (on_install_snapshot now args)) (KeepsVote s)
unfolding step install_snapshot persist
install_snapshot-KeepsVote s now args = ground (
  arith,
  install-SameVote
      (record (if ltb s.current_term args.term then persist (step_down s args.term) else s) {
        status = follower;
        last_reset_election_time = now;
      })
      args,
)

do_election-KeepsVote : (s : Raft) (now : ℕ) → Only (step s (on_election now)) (KeepsVote s)
unfolding step do_election persist
do_election-KeepsVote s now = ground arith

vote_reply-KeepsVote :
    (s : Raft) (r : Option RequestVoteReply) (n : ℕ)
    → Only (step s (on_vote_reply r n)) (KeepsVote s)
unfolding step send_request_vote count_vote persist
vote_reply-KeepsVote s r n = ground arith

heart_beat-KeepsVote : (s : Raft) (now : ℕ) → Only (step s (on_heart_beat now)) (KeepsVote s)
unfolding step do_heart_beat
heart_beat-KeepsVote s now = ground arith

append_reply-KeepsVote :
    (s : Raft) (server : ℕ) (args : AppendEntriesArgs) (r : Option AppendEntriesReply) (n : ℕ)
    → Only (step s (on_append_reply server args r n)) (KeepsVote s)
unfolding step send_append_entries
append_reply-KeepsVote s server args r n = ground arith

snapshot_reply-KeepsVote :
    (s : Raft) (server now : ℕ) (args : InstallSnapshotRequest) (r : Option InstallSnapshotResponse)
    → Only (step s (on_snapshot_reply server now args r)) (KeepsVote s)
unfolding step leader_send_snap_shot persist
snapshot_reply-KeepsVote s server now args r = ground arith

start-KeepsVote : (s : Raft) (c : Bytes) → Only (step s (on_start c)) (KeepsVote s)
unfolding step start persist
start-KeepsVote s c = ground arith

snapshot-KeepsVote : (s : Raft) (i : ℕ) (d : Bytes) → Only (step s (on_snapshot i d)) (KeepsVote s)
unfolding step snapshot
snapshot-KeepsVote s i d = ground arith

apply-KeepsVote : (s : Raft) → Only (step s on_apply) (KeepsVote s)
unfolding step get_apply_logs
apply-KeepsVote s = ground arith

snapshot_request-KeepsVote : (s : Raft) → Only (step s on_snapshot_request) (KeepsVote s)
unfolding step snapshot_request
snapshot_request-KeepsVote s = ground arith

pub step-KeepsVote : (s : Raft) (e : Event) → Only (step s e) (KeepsVote s)
step-KeepsVote s (on_request_vote now args) = request_vote-KeepsVote s now args
step-KeepsVote s (on_append_entries now args) = append_entries-KeepsVote s now args
step-KeepsVote s (on_install_snapshot now args) = install_snapshot-KeepsVote s now args
step-KeepsVote s (on_election now) = do_election-KeepsVote s now
step-KeepsVote s (on_vote_reply reply n) = vote_reply-KeepsVote s reply n
step-KeepsVote s (on_heart_beat now) = heart_beat-KeepsVote s now
step-KeepsVote s (on_append_reply server args reply n) =
    append_reply-KeepsVote s server args reply n
step-KeepsVote s on_snapshot_request = snapshot_request-KeepsVote s
step-KeepsVote s (on_snapshot_reply server now args reply) =
    snapshot_reply-KeepsVote s server now args reply
step-KeepsVote s (on_start command) = start-KeepsVote s command
step-KeepsVote s (on_snapshot index d) = snapshot-KeepsVote s index d
step-KeepsVote s on_apply = apply-KeepsVote s

run-Only : (s : Raft) (es : List Event) → Only (run s es) (KeepsVote s)
unfolding run
run-Only s [] = KeepsVote-same refl refl
run-Only s (e ∷ es) =
    Only-bind (KeepsVote s) (KeepsVote s) (step s e) (λ t. run t es) (step-KeepsVote s e)
      (λ t p.
        Only-map (KeepsVote t) (KeepsVote s) (run t es) (run-Only t es)
          (λ u q. KeepsVote-trans p q))

pub Only-at : {A : Type 0} (P : A → Type 0) (m : Result A) (a : A) → m ≡ ok a → Only m P → P a
Only-at P m a e h = rw e at h

-- Over any sequence of events after which the process is still there, the term does not fall, and as
-- long as it stays the same a vote that was cast stays.
pub run-KeepsVote : (s t : Raft) (es : List Event) → run s es ≡ ok t → KeepsVote s t
run-KeepsVote s t es e = Only-at (KeepsVote s) (run s es) t e (run-Only s es)

same_candidate : {x y : Option ℕ} {a b : ℕ} → x ≡ some a → y ≡ some b → (x ≡ none) ⊎ (y ≡ x) → a ≡ b
same_candidate p q (inl e) = cc
same_candidate p q (inr e) = cc

-- If a node grants a vote and, after any events that do not end the process, another vote in the same
-- term, both are for the same candidate.
pub request_vote_once :
    (s t : Raft) (now later : ℕ) (a b : RequestVoteArgs) (es : List Event)
    (p q : Raft × RequestVoteReply)
    → request_vote s now a ≡ ok p
    → run p.0 es ≡ ok t
    → request_vote t later b ≡ ok q
    → p.1.vote_granted ≡ true
    → q.1.vote_granted ≡ true
    → p.1.term ≡ q.1.term
    → a.candidate_id ≡ b.candidate_id
request_vote_once s t now later a b es p q ep er eq gp gq te =
    let first = Returns-at _ (request_vote s now a) p ep (request_vote_state s now a) in
    let second = Returns-at _ (request_vote t later b) q eq (request_vote_state t later b) in
    let last : KeepsVote t q.0 =
      Only-at (KeepsVote t) (step t (on_request_vote later b)) q.0 (unfold step in rw eq)
        (request_vote-KeepsVote t later b) in
    let kept : KeepsVote p.0 q.0 = KeepsVote-trans (run-KeepsVote p.0 t es er) last in
    same_candidate (first.3 gp) (second.3 gq) (kept.vote (sym first.1 ∙ te ∙ second.1))
