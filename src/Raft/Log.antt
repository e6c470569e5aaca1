-- ===== src/Raft/Log.antt =====
-- The log and its two indices, raftCore/raft.cpp: `getLastLogIndexAndTerm` to
-- `getSlicesIndexFromLogIndex`, `matchLog`, `UpToDate`, `persist`, `persistData` and `readPersist`.
pub mod Indexing
use rpc_storage_cpp.Common.{
  ℕ, zero, ◌+◌, ◌-◌, Bool, true, false, ◌||◌, ◌&&◌, Option, none, some, List, [], ◌∷◌, Bytes, ltb,
  leb, ◌==◌, if◌then◌else◌, get_elem?, Result, ok, err, assert_failed, ◌>>=◌, ◌>>◌, my_assert,
  at_index,
}
use rpc_storage_cpp.Persister.{Persister, save_raft_state}
use rpc_storage_cpp.Raft.State.{Raft, LogEntry, BoostPersistRaftNode, Archive}

-- The index and the term of the last entry, or those of the snapshot.
abbrev pub last_of : ℕ × ℕ → List LogEntry → ℕ × ℕ
last_of d [] = d
last_of d (e ∷ es) = last_of (e.log_index, e.log_term) es

unfoldable pub get_last_log_index_and_term : Raft → ℕ × ℕ
get_last_log_index_and_term s =
    last_of (s.last_snapshot_include_index, s.last_snapshot_include_term) s.logs

unfoldable pub get_last_log_index : Raft → ℕ
unfolding get_last_log_index_and_term
get_last_log_index s = (get_last_log_index_and_term s).0

unfoldable pub get_last_log_term : Raft → ℕ
unfolding get_last_log_index_and_term
get_last_log_term s = (get_last_log_index_and_term s).1

unfoldable pub get_new_command_index : Raft → ℕ
get_new_command_index s = get_last_log_index s + 1

-- The position in `m_logs` of the entry with a given index.
unfoldable pub get_slices_index_from_log_index : Raft → ℕ → Result ℕ
get_slices_index_from_log_index s log_index = do
  my_assert (ltb s.last_snapshot_include_index log_index)
  my_assert (leb log_index (get_last_log_index s))
  ok (log_index - s.last_snapshot_include_index - 1)

-- `m_logs[getSlicesIndexFromLogIndex(logIndex)]`.
unfoldable pub entry_at : Raft → ℕ → Result LogEntry
unfolding get_slices_index_from_log_index
entry_at s log_index = do
  slice ← get_slices_index_from_log_index s log_index
  at_index (get_elem? s.logs slice)

unfoldable pub get_log_term_from_log_index : Raft → ℕ → Result ℕ
get_log_term_from_log_index s log_index = do
  my_assert (leb s.last_snapshot_include_index log_index)
  my_assert (leb log_index (get_last_log_index s))
  if log_index == s.last_snapshot_include_index
      then ok s.last_snapshot_include_term
      else (do e ← entry_at s log_index; ok e.log_term)

unfoldable pub match_log : Raft → (log_index log_term : ℕ) → Result Bool
match_log s log_index log_term = do
  my_assert (leb s.last_snapshot_include_index log_index && leb log_index (get_last_log_index s))
  t ← get_log_term_from_log_index s log_index
  ok (log_term == t)

unfoldable pub up_to_date : Raft → (index term : ℕ) → Bool
up_to_date s index term =
    let last_index = get_last_log_index s in
    let last_term = get_last_log_term s in
    ltb last_term term || (term == last_term && leb last_index index)

abbrev pub persisted : Raft → BoostPersistRaftNode
persisted s = record {
  current_term = s.current_term;
  voted_for = s.voted_for;
  last_snapshot_include_index = s.last_snapshot_include_index;
  last_snapshot_include_term = s.last_snapshot_include_term;
  logs = s.logs;
}

unfoldable pub persist_data : Raft → Bytes
persist_data s = s.boost.archive (persisted s)

unfoldable pub persist : Raft → Raft
persist s = record s { persister = save_raft_state s.persister (persist_data s) }

unfoldable pub read_persist : Raft → Bytes → Raft
read_persist s [] = s
read_persist s (c ∷ cs) =
    let n = s.boost.restore (c ∷ cs) in
    record s {
      current_term = n.current_term;
      voted_for = n.voted_for;
      last_snapshot_include_index = n.last_snapshot_include_index;
      last_snapshot_include_term = n.last_snapshot_include_term;
      logs = n.logs;
    }
