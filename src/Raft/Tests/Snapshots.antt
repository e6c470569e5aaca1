-- ===== src/Raft/Tests/Snapshots.antt =====
-- Snapshots at the node of the tests: raftCore/raft.cpp.
use rpc_storage_cpp.Common.{Bytes, Returns, assert_failed, err, ◌≡◌, refl, [], ◌∷◌, arith}
use rpc_storage_cpp.Raft.Compact.Install.{install_snapshot-IsValid}
use rpc_storage_cpp.Raft.Append.Outcome.{append_entries_behind_snapshot}
use rpc_storage_cpp.Raft.Tests.{node-IsValid, entry, node}
use rpc_storage_cpp.Raft.Append.{append_entries}
use rpc_storage_cpp.Raft.Valid.{IsValid}
use rpc_storage_cpp.Raft.Log.{get_last_log_index}
use rpc_storage_cpp.Raft.State.{AppendEntriesArgs, Raft, InstallSnapshotRequest}
use rpc_storage_cpp.Raft.Compact.{install_snapshot}

abbrev image : Bytes
image = 65 ∷ 66 ∷ []

abbrev offer : InstallSnapshotRequest
offer = record {
  leader_id = 0;
  term = 3;
  last_snapshot_include_index = 2;
  last_snapshot_include_term = 1;
  snapshot_data = image;
}

install_snapshot-IsValid_example : Returns (install_snapshot node 6 offer) (λ r. IsValid r.node)
install_snapshot-IsValid_example = install_snapshot-IsValid node 6 offer node-IsValid

-- A node that has the offer's snapshot, and a request from before it.
abbrev behind : Raft
behind = record node {
  logs = entry 2 3 ∷ [];
  last_applied = 2;
  last_snapshot_include_index = 2;
  last_snapshot_include_term = 1;
}

last-behind : get_last_log_index behind ≡ 3
unfolding get_last_log_index
last-behind = refl

behind-IsValid : IsValid behind
behind-IsValid = record {
  indexed = (refl, tt);
  committed = omega (arith, last-behind);
  applied = omega arith;
  next_size = refl;
  match_size = refl;
}

abbrev early : AppendEntriesArgs
early = record {
  term = 3;
  leader_id = 0;
  prev_log_index = 1;
  prev_log_term = 1;
  entries = entry 1 2 ∷ [];
  leader_commit = 2;
}

append_entries_behind_snapshot_example : append_entries behind 7 early ≡ err assert_failed
append_entries_behind_snapshot_example =
    append_entries_behind_snapshot behind 7 early behind-IsValid (omega arith) (omega arith)
