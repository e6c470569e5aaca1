-- ===== src/Raft/Replicate.antt =====
-- The leader's side of replication, raftCore/raft.cpp: `Start`, `doHeartBeat`, `getPrevLogInfo`,
-- `sendAppendEntries` and `leaderUpdateCommitIndex`.
pub mod Sending
pub mod Agreement
pub mod Acknowledge
pub mod Starting
use rpc_storage_cpp.Common.{
  ℕ, zero, suc, ◌+◌, ◌-◌, ◌/◌, Bool, true, false, not, ◌&&◌, Option, none, some, List, [], ◌∷◌,
  ◌++◌, ltb, leb, ◌==◌, Bytes, if◌then◌else◌, length, get_elem?, set, drop, max, Result, ok, err,
  ◌>>=◌, ◌>>◌, my_assert, at_index,
}
use rpc_storage_cpp.Raft.State.{
  Raft, LogEntry, AppendEntriesArgs, AppendEntriesReply, AppState, disconnected, app_normal,
}
use rpc_storage_cpp.Raft.Log.{
  get_last_log_index, get_new_command_index, get_slices_index_from_log_index, entry_at,
  get_log_term_from_log_index, persist,
}
use rpc_storage_cpp.Raft.Vote.{step_down, is_leader, other_peers}

-- `Start`: the new state and, at a leader, the index and the term of the new entry. `command` is
-- `Op::asString()`.
unfoldable pub start : Raft → (command : Bytes) → Raft × Option (ℕ × ℕ)
start s command =
    let log : LogEntry = record {
      command = command;
      log_term = s.current_term;
      log_index = get_new_command_index s;
    } in
    if not (is_leader s.status)
    then (s, none)
    else (persist (record s { logs = s.logs ++ log ∷ [] }), some (log.log_index, log.log_term))

-- The index and the term of the entry before the next one to send.
unfoldable pub get_prev_log_info : Raft → (server : ℕ) → Result (ℕ × ℕ)
unfolding entry_at
get_prev_log_info s server = do
  next ← at_index (get_elem? s.next_index server)
  if next == s.last_snapshot_include_index + 1
      then ok (s.last_snapshot_include_index, s.last_snapshot_include_term)
      else (do e ← entry_at s (next - 1); ok (next - 1, e.log_term))

-- The entries from behind `prev` to the end.
unfoldable pub entries_after : Raft → (prev : ℕ) → Result (List LogEntry)
unfolding get_slices_index_from_log_index
entries_after s prev =
    if prev == s.last_snapshot_include_index
    then ok s.logs
    else (do slice ← get_slices_index_from_log_index s prev; ok (drop (slice + 1) s.logs))

-- What a heartbeat sends to a peer: a snapshot, or entries.
pub data HeartBeat : Type 0 where
  send_snapshot : (server : ℕ) → HeartBeat
  send_entries : (server : ℕ) → AppendEntriesArgs → HeartBeat

-- One round of the loop of `doHeartBeat`.
unfoldable pub heart_beat_for : Raft → (server : ℕ) → Result HeartBeat
heart_beat_for s server = do
  next ← at_index (get_elem? s.next_index server)
  my_assert (leb 1 next)
  if leb next s.last_snapshot_include_index then ok (send_snapshot server) else (do
    prev ← get_prev_log_info s server
    entries ← entries_after s prev.0
    my_assert (prev.0 + length entries == get_last_log_index s)
    ok (
        send_entries server (record {
          term = s.current_term;
          leader_id = s.me;
          prev_log_index = prev.0;
          prev_log_term = prev.1;
          entries = entries;
          leader_commit = s.commit_index;
        })))

unfoldable pub heart_beats : Raft → List ℕ → Result (List HeartBeat)
heart_beats s [] = ok []
heart_beats s (i ∷ is_) = do h ← heart_beat_for s i; hs ← heart_beats s is_; ok (h ∷ hs)

-- The new state and what the threads it starts will send, with a count that starts from 1.
unfoldable pub do_heart_beat : Raft → (now : ℕ) → Result (Raft × List HeartBeat)
unfolding heart_beats
do_heart_beat s now =
    if is_leader s.status
    then (do
      hs ← heart_beats s (other_peers s)
      ok (record s { last_reset_hear_beat_time = now }, hs))
    else ok (s, [])

-- `args->entries_size() > 0 && last entry's logterm() == m_currentTerm`.
abbrev pub ends_in_term : List LogEntry → ℕ → Bool
ends_in_term [] term = false
ends_in_term (e ∷ []) term = e.log_term == term
ends_in_term (e ∷ f ∷ es) term = ends_in_term (f ∷ es) term

-- `sendAppendEntries` on a success: the peer's indices, and at a majority the commit index. Returns
-- the count of successes beside the state.
unfoldable pub commit_acked : Raft → AppendEntriesArgs → Raft
commit_acked s args =
    if ends_in_term args.entries s.current_term
    then record s { commit_index = max s.commit_index (args.prev_log_index + length args.entries) }
    else s

unfoldable pub append_acked :
    Raft → (server : ℕ) → AppendEntriesArgs → (append_nums : ℕ) → Result (Raft × ℕ)
unfolding commit_acked
append_acked s server args append_nums = do
  matched ← at_index (get_elem? s.match_index server)
  _ ← at_index (get_elem? s.next_index server)
  let m = max matched (args.prev_log_index + length args.entries)
  let t = record s {
    match_index = set s.match_index server m;
    next_index = set s.next_index server (m + 1);
  }
  my_assert (leb (m + 1) (get_last_log_index t + 1))
  if leb (1 + s.peers / 2) (append_nums + 1)
      then (do
        let u = commit_acked t args
        my_assert (leb u.commit_index (get_last_log_index t))
        ok (u, 0))
      else ok (t, append_nums + 1)

-- A refusal moves `nextIndex` to where the follower asks for it.
unfoldable pub append_refused : Raft → (server : ℕ) → Option ℕ → Result Raft
append_refused s server none = ok s
append_refused s server (some next) = do
  _ ← at_index (get_elem? s.next_index server)
  ok (record s { next_index = set s.next_index server next })

abbrev pub is_disconnected : AppState → Bool
is_disconnected disconnected = true
is_disconnected app_normal = false

-- `sendAppendEntries` from the return of the call on; `none` is a call that failed. A larger term in
-- the reply is taken over, and not persisted.
unfoldable pub send_append_entries :
    Raft
    → (server : ℕ) → AppendEntriesArgs
    → Option AppendEntriesReply
    → (append_nums : ℕ) → Result (Raft × ℕ)
unfolding append_acked append_refused
send_append_entries s server args none append_nums = ok (s, append_nums)
send_append_entries s server args (some reply) append_nums =
    if is_disconnected reply.app_state
    then ok (s, append_nums)
    else if ltb s.current_term reply.term
    then ok (step_down s reply.term, append_nums)
    else if ltb reply.term s.current_term
    then ok (s, append_nums)
    else if not (is_leader s.status)
    then ok (s, append_nums)
    else (do
      my_assert (reply.term == s.current_term)
      if reply.success
          then append_acked s server args append_nums
          else (do t ← append_refused s server reply.update_next_index; ok (t, append_nums)))

-- How many nodes hold the entry of a given index: this node, and the peers by their `matchIndex`.
-- The loop from peer `i` on, with `n` rounds left.
unfoldable pub count_matched : Raft → (index i n : ℕ) → Result ℕ
count_matched s index i zero = ok 0
count_matched s index i (suc n) =
    let rest = count_matched s index (suc i) n in
    if i == s.me then (do k ← rest; ok (k + 1)) else (do
      m ← at_index (get_elem? s.match_index i)
      k ← rest
      ok (if leb index m then k + 1 else k))

abbrev pub is_term : Option ℕ → ℕ → Bool
is_term none term = false
is_term (some t) term = t == term

abbrev pub or_snapshot : Option ℕ → Raft → ℕ
or_snapshot none s = s.last_snapshot_include_index
or_snapshot (some index) s = index

-- The loop of `leaderUpdateCommitIndex` from `index` down to the snapshot.
unfoldable pub find_committed : Raft → (index rounds : ℕ) → Result (Option ℕ)
unfolding count_matched
find_committed s index zero = ok none
find_committed s index (suc rounds) =
    let rest = find_committed s (index - 1) rounds in
    do
      sum ← count_matched s index 0 s.peers
      term ←
          (if leb (s.peers / 2 + 1) sum
            then (do t ← get_log_term_from_log_index s index; ok (some t))
            else ok none)
      if is_term term s.current_term then ok (some index) else rest

unfoldable pub leader_update_commit_index : Raft → Result Raft
unfolding find_committed
leader_update_commit_index s = do
  found ←
      find_committed s (get_last_log_index s) (get_last_log_index s - s.last_snapshot_include_index)
  ok (record s { commit_index = or_snapshot found s })
