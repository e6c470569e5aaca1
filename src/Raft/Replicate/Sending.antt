-- ===== src/Raft/Replicate/Sending.antt =====
-- What a leader sends, and what comes of it at the follower: raftCore/raft.cpp.
use native.Mathlib.Decide.{dec_le}
use rpc_storage_cpp.Common.{
  Returns-ok, ◌==◌, Bool-cases, length, get_elem?, drop, length-drop, get_elem?-lt, Returns, ok, ℕ,
  zero, suc, ◌+◌, ◌-◌, ◌≤◌, ◌<◌, ◌≡◌, refl, sym, ap, ◌∙◌, subst, inl, inr, true, some, List, [],
  ◌∷◌, arith,
}
use rpc_storage_cpp.Raft.Vote.{is_leader, other_peers, others_from}
use rpc_storage_cpp.Raft.Valid.{IsValid}
use rpc_storage_cpp.Raft.Log.{get_last_log_index, get_log_term_from_log_index}
use rpc_storage_cpp.Raft.Log.Indexing.{get_last_log_index-IsIndexed, entry_at-IsIndexed, IsIndexed}
use rpc_storage_cpp.Raft.Replicate.{
  do_heart_beat, heart_beats, send_entries, send_snapshot, HeartBeat, get_prev_log_info,
  heart_beat_for, entries_after,
}
use rpc_storage_cpp.Raft.State.{leader, AppendEntriesArgs, Raft}

-- What a heartbeat for a peer whose next index is `next` may be: a snapshot if that index is covered
-- by it, and otherwise all entries from that index on, with the leader's term at the index before.
abbrev pub Sends : Raft → (server next : ℕ) → HeartBeat → Type 0
Sends s server next (send_snapshot i) = (i ≡ server) × (next ≤ s.last_snapshot_include_index)
Sends s server next (send_entries i args) =
    (i ≡ server)
    × (s.last_snapshot_include_index < next)
    × (args.prev_log_index + 1 ≡ next)
    × (get_log_term_from_log_index s args.prev_log_index ≡ ok args.prev_log_term)
    × (args.entries ≡ drop (args.prev_log_index - s.last_snapshot_include_index) s.logs)
    × (args.term ≡ s.current_term)
    × (args.leader_commit ≡ s.commit_index)

entries_after-IsIndexed :
    (s : Raft) (prev : ℕ)
    → IsIndexed s
    → s.last_snapshot_include_index ≤ prev
    → prev ≤ get_last_log_index s
    → entries_after s prev ≡ ok (drop (prev - s.last_snapshot_include_index) s.logs)
unfolding entries_after
entries_after-IsIndexed s prev h lo hi = elim (Bool-cases (prev == s.last_snapshot_include_index)) [
  | inl e ↦ rw e (let z : prev - s.last_snapshot_include_index ≡ 0 = ground arith in rw z)
  | inr e ↦ rw e (
      let z : prev - s.last_snapshot_include_index - 1 + 1 ≡ prev - s.last_snapshot_include_index =
        ground arith in
      ground (arith, z))
]

heart_beat_for-snapshot :
    (s : Raft) (server next : ℕ)
    → get_elem? s.next_index server ≡ some next
    → 1 ≤ next
    → next ≤ s.last_snapshot_include_index
    → heart_beat_for s server ≡ ok (send_snapshot server)
unfolding heart_beat_for
heart_beat_for-snapshot s server next e pos lo = ground arith

get_prev_log_info-IsIndexed :
    (s : Raft) (server next : ℕ)
    → IsIndexed s
    → get_elem? s.next_index server ≡ some next
    → s.last_snapshot_include_index < next
    → next ≤ get_last_log_index s + 1
    → (t : ℕ) × (get_prev_log_info s server ≡ ok (next - 1, t))
      × (get_log_term_from_log_index s (next - 1) ≡ ok t)
unfolding get_prev_log_info get_log_term_from_log_index
get_prev_log_info-IsIndexed s server next h e lo hi =
    elim (Bool-cases (next == s.last_snapshot_include_index + 1)) [
      | inl first ↦ (s.last_snapshot_include_term, ground arith, ground arith)
      | inr later ↦
          let (x, p, q) = entry_at-IsIndexed s (next - 1) h (ground arith) (omega arith) in
          (x.log_term, ground (arith, p), ground (arith, p))
    ]

heart_beat_for-entries :
    (s : Raft) (server next : ℕ)
    → IsValid s
    → get_elem? s.next_index server ≡ some next
    → s.last_snapshot_include_index < next
    → next ≤ get_last_log_index s + 1
    → (args : AppendEntriesArgs) × (heart_beat_for s server ≡ ok (send_entries server args))
      × Sends s server next (send_entries server args)
unfolding heart_beat_for
heart_beat_for-entries s server next v e lo hi =
    let (t, p, q) = get_prev_log_info-IsIndexed s server next v.indexed e lo hi in
    let es = drop (next - 1 - s.last_snapshot_include_index) s.logs in
    let r = entries_after-IsIndexed s (next - 1) v.indexed (omega arith) (omega arith) in
    let size : next - 1 + length es ≡ get_last_log_index s = omega (
      arith,
      get_last_log_index-IsIndexed s v.indexed,
      length-drop (next - 1 - s.last_snapshot_include_index) s.logs,
    ) in
    (
      record {
        term = s.current_term;
        leader_id = s.me;
        prev_log_index = next - 1;
        prev_log_term = t;
        entries = es;
        leader_commit = s.commit_index;
      },
      ground (arith, p, r, size),
      (refl, lo, omega arith, q, refl, refl, refl),
    )

-- The peers' next indices lie between 1 and the index after the end of the log.
abbrev pub InRange : ℕ → List ℕ → Type 0
InRange last [] = Unit {0}
InRange last (n ∷ ns) = (1 ≤ n) × (n ≤ last + 1) × InRange last ns

get_elem?-InRange :
    (last i n : ℕ) (ns : List ℕ)
    → InRange last ns
    → get_elem? ns i ≡ some n
    → (1 ≤ n) × (n ≤ last + 1)
get_elem?-InRange last i n [] h e = cc
get_elem?-InRange last zero n (m ∷ ns) h e = ground arith
get_elem?-InRange last (suc i) n (m ∷ ns) h e = get_elem?-InRange last i n ns h.2 e

-- A valid node whose next index for a peer lies between 1 and the index after the end of its log has
-- something to send to that peer.
pub heart_beat_for-Sends :
    (s : Raft) (server next : ℕ)
    → IsValid s
    → get_elem? s.next_index server ≡ some next
    → 1 ≤ next
    → next ≤ get_last_log_index s + 1
    → Returns (heart_beat_for s server) (Sends s server next)
heart_beat_for-Sends s server next v e pos hi = elim (dec_le next s.last_snapshot_include_index) [
  | yes lo ↦ rw (heart_beat_for-snapshot s server next e pos lo) (refl, lo)
  | no lo ↦ let (args, p, q) = heart_beat_for-entries s server next v e (omega arith) hi in rw p q
]

-- The messages to a list of peers, one for each, in order.
abbrev pub AllSent : Raft → List ℕ → List HeartBeat → Type 0
AllSent s [] [] = Unit {0}
AllSent s (i ∷ is_) (h ∷ hs) =
    ((n : ℕ) → get_elem? s.next_index i ≡ some n → Sends s i n h) × AllSent s is_ hs
AllSent s [] (h ∷ hs) = ⊥
AllSent s (i ∷ is_) [] = ⊥

abbrev pub Below : ℕ → List ℕ → Type 0
Below n [] = Unit {0}
Below n (i ∷ is_) = (i < n) × Below n is_

heart_beats-AllSent :
    (s : Raft) (is_ : List ℕ)
    → IsValid s
    → InRange (get_last_log_index s) s.next_index
    → Below s.peers is_
    → Returns (heart_beats s is_) (AllSent s is_)
unfolding heart_beats
heart_beats-AllSent s [] v r b = tt
heart_beats-AllSent s (i ∷ is_) v r b =
    let (n, e) = get_elem?-lt s.next_index i (subst (λ k. i < k) (sym v.next_size) b.0) in
    let (pos, hi) = get_elem?-InRange (get_last_log_index s) i n s.next_index r e in
    let (h, p, sent) = Returns-ok (heart_beat_for s i) (heart_beat_for-Sends s i n v e pos hi) in
    let (hs, q, rest) = Returns-ok (heart_beats s is_) (heart_beats-AllSent s is_ v r b.1) in
    rw (p, q) ((λ m f. subst (λ k. Sends s i k h) (cc (sym e ∙ f)) sent), rest)

Below-others_from : (me i n k : ℕ) → i + n ≤ k → Below k (others_from me i n)
Below-others_from me i zero k h = tt
Below-others_from me i (suc n) k h = ground (arith, Below-others_from me (suc i) n k)

-- At a valid leader whose next indices lie between 1 and the index after the end of its log, the
-- heartbeat does not end the process: every other peer is sent the snapshot, if it covers the peer's
-- next index, and otherwise all entries from that index on.
pub do_heart_beat-AllSent :
    (s : Raft) (now : ℕ)
    → IsValid s
    → InRange (get_last_log_index s) s.next_index
    → s.status ≡ leader
    → Returns
        (do_heart_beat s now)
        λ p. (p.0 ≡ record s { last_reset_hear_beat_time = now }) × AllSent s (other_peers s) p.1
unfolding do_heart_beat
do_heart_beat-AllSent s now v r l =
    let (hs, q, rest) = Returns-ok (heart_beats s (other_peers s)) (
      heart_beats-AllSent s (other_peers s) v r
        (Below-others_from s.me 0 s.peers s.peers (omega arith))) in
    let leads : is_leader s.status ≡ true = ap is_leader l in rw (leads, q) (refl, rest)
