-- ===== src/Raft/Apply.antt =====
-- What the node hands to the key-value server, raftCore/raft.cpp: `getApplyLogs`.
pub mod Order
use rpc_storage_cpp.Common.{
  ℕ, zero, suc, ◌+◌, ◌-◌, Bool, true, false, List, [], ◌∷◌, leb, ◌==◌, Result, ok, err, ◌>>=◌, ◌>>◌,
  my_assert,
}
use rpc_storage_cpp.Raft.State.{Raft, LogEntry, ApplyMsg, command_msg}
use rpc_storage_cpp.Raft.Log.{get_last_log_index, entry_at}

-- The loop from `m_lastApplied + 1` on, with `n` rounds left.
unfoldable pub apply_from : Raft → (last_applied n : ℕ) → Result (List ApplyMsg)
apply_from s last_applied zero = ok []
apply_from s last_applied (suc n) = do
  e ← entry_at s (last_applied + 1)
  my_assert (e.log_index == last_applied + 1)
  msgs ← apply_from s (last_applied + 1) n
  ok (command_msg e.command (last_applied + 1) ∷ msgs)

unfoldable pub get_apply_logs : Raft → Result (Raft × List ApplyMsg)
get_apply_logs s = do
  my_assert (leb s.commit_index (get_last_log_index s))
  msgs ← apply_from s s.last_applied (s.commit_index - s.last_applied)
  ok (record s { last_applied = s.last_applied + (s.commit_index - s.last_applied) }, msgs)
