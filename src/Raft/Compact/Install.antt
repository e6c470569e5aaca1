-- ===== src/Raft/Compact/Install.antt =====
-- What `InstallSnapshot` does on each of its ways: raftCore/raft.cpp.
use native.Mathlib.Decide.{dec_le, dec_lt}
use rpc_storage_cpp.Common.{
  ltb, leb, if◌then◌else◌, Bool-cases, drop, Returns, ok, ℕ, ◌+◌, ◌-◌, ◌≤◌, ◌<◌, ◌≡◌, refl, inl,
  inr, true, false, none, some, arith,
}
use rpc_storage_cpp.Raft.Compact.Truncation.{
  compacted-IsValid_beyond, compacted-IsValid, save_with-IsValid, beyond, compacted,
}
use rpc_storage_cpp.Raft.Valid.{IsValid}
use rpc_storage_cpp.Raft.Vote.{step_down}
use rpc_storage_cpp.Raft.Compact.{install_snapshot, save_with, install}
use rpc_storage_cpp.Raft.Log.{get_slices_index_from_log_index, get_last_log_index, persist}
use rpc_storage_cpp.Raft.State.{snapshot_msg, follower, InstallSnapshotRequest, Raft}

-- The handler's node once the term has been accepted.
abbrev pub accepted_node : Raft → (now term : ℕ) → Raft
accepted_node s now term =
    record (if ltb s.current_term term then persist (step_down s term) else s) {
      status = follower;
      last_reset_election_time = now;
    }

accepted_node-fields :
    (s : Raft) (now term : ℕ)
    → let t = accepted_node s now term in
      (t.logs ≡ s.logs)
      × (t.last_snapshot_include_index ≡ s.last_snapshot_include_index)
      × (t.commit_index ≡ s.commit_index)
      × (t.last_applied ≡ s.last_applied)
      × (t.next_index ≡ s.next_index)
      × (t.match_index ≡ s.match_index)
      × (t.peers ≡ s.peers)
      × (t.last_snapshot_include_term ≡ s.last_snapshot_include_term)
      × (t.current_term ≡ (if ltb s.current_term term then term else s.current_term))
unfolding persist
accepted_node-fields s now term = ground arith

get_last_log_index-accepted_node :
    (s : Raft) (now term : ℕ) → get_last_log_index (accepted_node s now term) ≡ get_last_log_index s
unfolding persist get_last_log_index
get_last_log_index-accepted_node s now term = ground arith

accepted_node-IsValid : (s : Raft) (now term : ℕ) → IsValid s → IsValid (accepted_node s now term)
unfolding persist get_last_log_index
accepted_node-IsValid s now term v = elim (Bool-cases (ltb s.current_term term)) [
  | inl e ↦ rw e (record {
    indexed = v.indexed;
    committed = v.committed;
    applied = v.applied;
    next_size = v.next_size;
    match_size = v.match_size;
  })
  | inr e ↦ rw e (record {
    indexed = v.indexed;
    committed = v.committed;
    applied = v.applied;
    next_size = v.next_size;
    match_size = v.match_size;
  })
]

-- A newer snapshot leaves the entries behind it, whether or not it goes beyond the log.
install-compacted :
    (s : Raft) (args : InstallSnapshotRequest)
    → IsValid s
    → s.last_snapshot_include_index < args.last_snapshot_include_index
    → install s args
      ≡ ok (
          save_with
            (compacted s args.last_snapshot_include_index args.last_snapshot_include_term)
            args.snapshot_data)
unfolding install get_slices_index_from_log_index
install-compacted s args v lo =
    elim (Bool-cases (ltb args.last_snapshot_include_index (get_last_log_index s))) [
      | inl inside ↦
          let k : args.last_snapshot_include_index - s.last_snapshot_include_index - 1 + 1
              ≡ args.last_snapshot_include_index - s.last_snapshot_include_index =
            ground arith in
          ground (arith, k)
      | inr past ↦ ground (
        arith,
        beyond s args.last_snapshot_include_index args.last_snapshot_include_term v (omega arith)
            (ground arith),
      )
    ]

-- The three ways of the handler.
install_snapshot_stale :
    (s : Raft) (now : ℕ) (args : InstallSnapshotRequest)
    → args.term < s.current_term
    → install_snapshot s now args
      ≡ ok (record { node = s; reply = record { term = s.current_term }; pushed = none })
unfolding install_snapshot
install_snapshot_stale s now args h = ground arith

install_snapshot_old :
    (s : Raft) (now : ℕ) (args : InstallSnapshotRequest)
    → s.current_term ≤ args.term
    → args.last_snapshot_include_index ≤ s.last_snapshot_include_index
    → install_snapshot s now args
      ≡ ok (record {
        node = accepted_node s now args.term;
        reply = record { term = 0 };
        pushed = none;
      })
unfolding install_snapshot
install_snapshot_old s now args h lo =
    let old : leb args.last_snapshot_include_index
          (accepted_node s now args.term).last_snapshot_include_index
        ≡ true =
      ground (arith, (accepted_node-fields s now args.term).1) in
    let current : ltb args.term s.current_term ≡ false = ground arith in rw (current, old)

installed_node : Raft → (now : ℕ) → InstallSnapshotRequest → Raft
installed_node s now args =
    save_with
      (compacted (accepted_node s now args.term) args.last_snapshot_include_index
        args.last_snapshot_include_term)
      args.snapshot_data

install_snapshot_new :
    (s : Raft) (now : ℕ) (args : InstallSnapshotRequest)
    → IsValid s
    → s.current_term ≤ args.term
    → s.last_snapshot_include_index < args.last_snapshot_include_index
    → install_snapshot s now args
      ≡ ok (record {
        node = installed_node s now args;
        reply = record { term = (installed_node s now args).current_term };
        pushed = some (
            snapshot_msg args.snapshot_data args.last_snapshot_include_term
              args.last_snapshot_include_index);
      })
unfolding install_snapshot installed_node
install_snapshot_new s now args v h lo =
    let fields = accepted_node-fields s now args.term in
    let newer : leb args.last_snapshot_include_index
          (accepted_node s now args.term).last_snapshot_include_index
        ≡ false =
      ground (arith, fields.1) in
    let current : ltb args.term s.current_term ≡ false = ground arith in
    rw (
      current,
      newer,
      install-compacted (accepted_node s now args.term) args
          (accepted_node-IsValid s now args.term v) (omega (arith, fields.1)),
    )

installed_node-IsValid :
    (s : Raft) (now : ℕ) (args : InstallSnapshotRequest)
    → IsValid s
    → s.last_snapshot_include_index < args.last_snapshot_include_index
    → IsValid (installed_node s now args)
unfolding installed_node
installed_node-IsValid s now args v lo =
    let t = accepted_node s now args.term in
    let w = accepted_node-IsValid s now args.term v in
    save_with-IsValid args.snapshot_data
      (elim (dec_le args.last_snapshot_include_index (get_last_log_index t)) [
        | yes inside ↦
            compacted-IsValid t args.last_snapshot_include_index args.last_snapshot_include_term w
              (omega (arith, (accepted_node-fields s now args.term).1)) inside
        | no past ↦
            compacted-IsValid_beyond t args.last_snapshot_include_index
              args.last_snapshot_include_term w
              (omega (arith, (accepted_node-fields s now args.term).1)) (omega arith)
      ])

-- `InstallSnapshot` never ends the process of a valid node, whatever the request, and leaves it valid.
pub install_snapshot-IsValid :
    (s : Raft) (now : ℕ) (args : InstallSnapshotRequest)
    → IsValid s
    → Returns (install_snapshot s now args) (λ r. IsValid r.node)
install_snapshot-IsValid s now args v = elim (dec_lt args.term s.current_term) [
  | yes stale ↦ rw (install_snapshot_stale s now args stale) v
  | no current ↦ elim (dec_le args.last_snapshot_include_index s.last_snapshot_include_index) [
    | yes old ↦
        rw (install_snapshot_old s now args (omega arith) old)
          (accepted_node-IsValid s now args.term v)
    | no new ↦
        rw (install_snapshot_new s now args v (omega arith) (omega arith))
          (installed_node-IsValid s now args v (omega arith))
  ]
]

-- A snapshot that is newer than a valid node's, in a term that is not older, leaves exactly the part
-- of the log behind its index, becomes the node's snapshot and is pushed to the key-value server; the
-- commit index and the last applied index are then not below it.
pub install_snapshot_newer :
    (s : Raft) (now : ℕ) (args : InstallSnapshotRequest)
    → IsValid s
    → s.current_term ≤ args.term
    → s.last_snapshot_include_index < args.last_snapshot_include_index
    → Returns (install_snapshot s now args) λ r.
      (r.node.logs ≡ drop (args.last_snapshot_include_index - s.last_snapshot_include_index) s.logs)
      × (r.node.last_snapshot_include_index ≡ args.last_snapshot_include_index)
      × (r.node.last_snapshot_include_term ≡ args.last_snapshot_include_term)
      × (args.last_snapshot_include_index ≤ r.node.commit_index)
      × (args.last_snapshot_include_index ≤ r.node.last_applied)
      × (r.pushed
          ≡ some (
              snapshot_msg args.snapshot_data args.last_snapshot_include_term
                args.last_snapshot_include_index))
unfolding installed_node save_with
install_snapshot_newer s now args v h lo =
    let fields = accepted_node-fields s now args.term in
    rw (install_snapshot_new s now args v h lo)
      (rw (fields.0, fields.1) refl, refl, refl, omega arith, omega arith, refl)
