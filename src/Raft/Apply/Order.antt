-- ===== src/Raft/Apply/Order.antt =====
-- The order in which committed commands are handed over: raftCore/raft.cpp, `getApplyLogs`.
use rpc_storage_cpp.Common.{
  leb, ◌==◌, length, Returns, Returns-ok, ok, ℕ, zero, suc, ◌+◌, ◌-◌, ◌≤◌, ◌<◌, max, ◌≡◌, refl, ap,
  true, List, [], ◌∷◌, arith,
}
use rpc_storage_cpp.Raft.Log.{entry_at, get_last_log_index}
use rpc_storage_cpp.Raft.Valid.{IsValid}
use rpc_storage_cpp.Raft.Log.Indexing.{get_elem?-Contiguous, entry_at-IsIndexed, IsIndexed}
use rpc_storage_cpp.Raft.Apply.{get_apply_logs, apply_from}
use rpc_storage_cpp.Raft.State.{command_msg, LogEntry, ApplyMsg, Raft}

entry_at-index :
    (s : Raft) (i : ℕ)
    → IsIndexed s
    → s.last_snapshot_include_index < i
    → i ≤ get_last_log_index s
    → (e : LogEntry) × (entry_at s i ≡ ok e) × (e.log_index ≡ i)
entry_at-index s i h lo hi =
    let (e, p, q) = entry_at-IsIndexed s i h lo hi in
    (
      e,
      p,
      omega (
        arith,
        get_elem?-Contiguous (suc s.last_snapshot_include_index)
            (i - s.last_snapshot_include_index - 1) s.logs e h q,
      ),
    )

-- The messages carry the commands of the entries from index `i` on, one by one.
abbrev pub Commands : Raft → (i : ℕ) → List ApplyMsg → Type 0
Commands s i [] = Unit {0}
Commands s i (m ∷ ms) =
    ((e : LogEntry) × (entry_at s i ≡ ok e) × (m ≡ command_msg e.command i)) × Commands s (i + 1) ms

apply_from-Commands :
    (s : Raft) (i n : ℕ)
    → IsIndexed s
    → s.last_snapshot_include_index ≤ i
    → (1 ≤ n → i + n ≤ get_last_log_index s)
    → Returns (apply_from s i n) λ ms. Commands s (i + 1) ms × (length ms ≡ n)
unfolding apply_from
apply_from-Commands s i zero h lo hi = (tt, refl)
apply_from-Commands s i (suc n) h lo hi =
    let end : i + suc n ≤ get_last_log_index s = hi (omega arith) in
    let (e, p, q) = entry_at-index s (i + 1) h (omega arith) (omega arith) in
    let (ms, r, c) =
      Returns-ok (apply_from s (i + 1) n)
        (apply_from-Commands s (i + 1) n h (omega arith) (λ _. omega arith)) in
    let same : (e.log_index == i + 1) ≡ true = ground arith in
    rw (p, same, r) (((e, p, refl), c.0), ap suc c.1)

-- At a valid node `getApplyLogs` does not end the process: it returns the commands of exactly the
-- entries behind the last applied index up to the commit index, in order and with their indices, and
-- moves the last applied index to the commit index, if that is larger.
pub get_apply_logs-Commands :
    (s : Raft)
    → IsValid s
    → Returns (get_apply_logs s) λ p.
      (p.0 ≡ record s { last_applied = max s.last_applied s.commit_index })
      × Commands s (s.last_applied + 1) p.1
      × (s.last_applied + length p.1 ≡ max s.last_applied s.commit_index)
unfolding get_apply_logs
get_apply_logs-Commands s v =
    let (ms, p, c) = Returns-ok (apply_from s s.last_applied (s.commit_index - s.last_applied)) (
      apply_from-Commands s s.last_applied (s.commit_index - s.last_applied) v.indexed v.applied
        (λ some_left. omega (arith, v.committed))) in
    let bounded : leb s.commit_index (get_last_log_index s) ≡ true = ground (arith, v.committed) in
    let moved : s.last_applied + (s.commit_index - s.last_applied)
        ≡ max s.last_applied s.commit_index =
      omega arith in
    rw (bounded, p) (ap (λ (i : ℕ). record s { last_applied = i }) moved, c.0, rw c.1 moved)
