-- ===== src/Raft/Replicate/Acknowledge.antt =====
-- What a leader does with the reply to a heartbeat: raftCore/raft.cpp, `sendAppendEntries`.
use rpc_storage_cpp.Common.{
  ltb, leb, ◌==◌, Bool-cases, length, get_elem?, set, length-set, get_elem?-lt, ◌>>=◌, Returns,
  Returns-ok, ok, ℕ, zero, suc, ◌+◌, ◌/◌, ◌≤◌, ◌<◌, max, ◌≡◌, refl, ◌∙◌, inl, inr, true, Option,
  none, some, List, [], ◌∷◌, arith,
}
use rpc_storage_cpp.Raft.Vote.{is_leader, step_down}
use rpc_storage_cpp.Raft.Valid.{IsValid}
use rpc_storage_cpp.Raft.Replicate.{
  is_disconnected, send_append_entries, append_refused, append_acked, ends_in_term, commit_acked,
}
use rpc_storage_cpp.Raft.Log.{get_last_log_index}
use rpc_storage_cpp.Raft.State.{AppendEntriesReply, AppendEntriesArgs, Raft}

-- No number of the list is above `n`.
abbrev pub AtMost : ℕ → List ℕ → Type 0
AtMost n [] = Unit {0}
AtMost n (m ∷ ms) = (m ≤ n) × AtMost n ms

get_elem?-AtMost : (n i m : ℕ) (ms : List ℕ) → AtMost n ms → get_elem? ms i ≡ some m → m ≤ n
get_elem?-AtMost n i m [] a e = cc
get_elem?-AtMost n zero m (k ∷ ks) a e = ground arith
get_elem?-AtMost n (suc i) m (k ∷ ks) a e = get_elem?-AtMost n i m ks a.1 e

set-AtMost : (n i m : ℕ) (ms : List ℕ) → m ≤ n → AtMost n ms → AtMost n (set ms i m)
set-AtMost n i m [] h a = tt
set-AtMost n zero m (k ∷ ks) h a = (h, a.1)
set-AtMost n (suc i) m (k ∷ ks) h a = (a.0, set-AtMost n i m ks h a.1)

-- A leader's node: valid, and no peer is taken to hold more than the leader's log.
abbrev pub IsLeading : Raft → Type 0
IsLeading s = IsValid s × AtMost (get_last_log_index s) s.match_index

-- The node with the peer's new indices.
abbrev acked : Raft → (server m : ℕ) → Raft
acked s server m = record s {
  match_index = set s.match_index server m;
  next_index = set s.next_index server (m + 1);
}

acked-IsLeading :
    (s : Raft) (server m : ℕ)
    → IsLeading s
    → m ≤ get_last_log_index s
    → IsLeading (acked s server m)
unfolding get_last_log_index
acked-IsLeading s server m (v, a) h = (
  record {
    indexed = v.indexed;
    committed = v.committed;
    applied = v.applied;
    next_size = length-set s.next_index server (m + 1) ∙ v.next_size;
    match_size = length-set s.match_index server m ∙ v.match_size;
  },
  set-AtMost _ server m s.match_index h a,
)

commit_acked-IsLeading :
    (s : Raft) (args : AppendEntriesArgs)
    → IsLeading s
    → args.prev_log_index + length args.entries ≤ get_last_log_index s
    → IsLeading (commit_acked s args)
      × (get_last_log_index (commit_acked s args) ≡ get_last_log_index s)
unfolding commit_acked get_last_log_index
commit_acked-IsLeading s args (v, a) h =
    elim (Bool-cases (ends_in_term args.entries s.current_term)) [
      | inl e ↦ rw e (
        (
          record {
            indexed = v.indexed;
            committed = omega (arith, h, v.committed);
            applied = v.applied;
            next_size = v.next_size;
            match_size = v.match_size;
          },
          a,
        ),
        refl,
      )
      | inr e ↦ rw e ((v, a), refl)
    ]

get_last_log_index-acked :
    (s : Raft) (server m : ℕ) → get_last_log_index (acked s server m) ≡ get_last_log_index s
unfolding get_last_log_index
get_last_log_index-acked s server m = refl

append_acked-IsLeading :
    (s : Raft) (server : ℕ) (args : AppendEntriesArgs) (n : ℕ)
    → IsLeading s
    → server < s.peers
    → args.prev_log_index + length args.entries ≤ get_last_log_index s
    → Returns (append_acked s server args n) λ p. IsLeading p.0
unfolding append_acked
append_acked-IsLeading s server args n (v, a) h up =
    let (m, e) = get_elem?-lt s.match_index server (omega (arith, v.match_size)) in
    let (k, f) = get_elem?-lt s.next_index server (omega (arith, v.next_size)) in
    let top = max m (args.prev_log_index + length args.entries) in
    let low : top ≤ get_last_log_index s =
      omega (arith, get_elem?-AtMost (get_last_log_index s) server m s.match_index a e) in
    let w = acked-IsLeading s server top (v, a) low in
    let same = get_last_log_index-acked s server top in
    let (c, last) = commit_acked-IsLeading (acked s server top) args w (omega arith) in
    let inside : leb (top + 1) (get_last_log_index (acked s server top) + 1) ≡ true =
      ground arith in
    let committed : leb (commit_acked (acked s server top) args).commit_index
          (get_last_log_index (acked s server top))
        ≡ true =
      ground (arith, c.0.committed) in
    elim (Bool-cases (leb (1 + s.peers / 2) (n + 1))) [
      | inl most ↦ rw (e, f, inside, most, committed) c
      | inr few ↦ rw (e, f, inside, few) w
    ]

append_refused-IsLeading :
    (s : Raft) (server : ℕ) (hint : Option ℕ)
    → IsLeading s
    → server < s.peers
    → Returns (append_refused s server hint) IsLeading
unfolding append_refused get_last_log_index
append_refused-IsLeading s server none w h = w
append_refused-IsLeading s server (some i) (v, a) h =
    let (k, f) = get_elem?-lt s.next_index server (omega (arith, v.next_size)) in
    rw f (
      record {
        indexed = v.indexed;
        committed = v.committed;
        applied = v.applied;
        next_size = length-set s.next_index server i ∙ v.next_size;
        match_size = v.match_size;
      },
      a,
    )

step_down-IsLeading : (s : Raft) (term : ℕ) → IsLeading s → IsLeading (step_down s term)
unfolding get_last_log_index
step_down-IsLeading s term (v, a) = (
  record {
    indexed = v.indexed;
    committed = v.committed;
    applied = v.applied;
    next_size = v.next_size;
    match_size = v.match_size;
  },
  a,
)

refused :
    (s : Raft) (server n : ℕ) (hint : Option ℕ)
    → IsLeading s
    → server < s.peers
    → Returns {A = Raft × ℕ} (append_refused s server hint >>= λ t. ok (t, n)) λ p. IsLeading p.0
refused s server n hint w h =
    let (t, e, u) =
      Returns-ok (append_refused s server hint) (append_refused-IsLeading s server hint w h) in
    rw e u

-- If a node is valid and takes no peer to hold more than its own log, and what it sent ends inside
-- its log, then whatever comes back for that peer, or nothing, does not end the process, and leaves
-- the node valid, with no peer taken to hold more than its log.
pub send_append_entries-IsLeading :
    (s : Raft) (server : ℕ) (args : AppendEntriesArgs) (reply : Option AppendEntriesReply) (n : ℕ)
    → IsLeading s
    → server < s.peers
    → args.prev_log_index + length args.entries ≤ get_last_log_index s
    → Returns (send_append_entries s server args reply n) λ p. IsLeading p.0
unfolding send_append_entries
send_append_entries-IsLeading s server args none n w h up = w
send_append_entries-IsLeading s server args (some reply) n w h up =
    let acc = append_acked-IsLeading s server args n w h up in
    let ref = refused s server n reply.update_next_index w h in
    let down = step_down-IsLeading s reply.term w in
    elim (Bool-cases (is_disconnected reply.app_state)) [
      | inl lost ↦ rw lost w
      | inr there ↦ elim (Bool-cases (ltb s.current_term reply.term)) [
        | inl newer ↦ rw (there, newer) down
        | inr x ↦ elim (Bool-cases (ltb reply.term s.current_term)) [
          | inl older ↦ rw (there, x, older) w
          | inr y ↦ elim (Bool-cases (is_leader s.status)) [
            | inr other ↦ rw (there, x, y, other) w
            | inl leads ↦
                let same : (reply.term == s.current_term) ≡ true = ground arith in
                elim (Bool-cases reply.success) [
                  | inl yes_ ↦ rw (there, x, y, leads, same, yes_) acc
                  | inr no_ ↦ rw (there, x, y, leads, same, no_) ref
                ]
          ]
        ]
      ]
    ]
