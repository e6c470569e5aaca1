-- ===== src/Raft/Tests.antt =====
-- A small node on which the theorems about raftCore/raft.cpp are tried.
pub mod Elections
pub mod Replication
pub mod Snapshots
use rpc_storage_cpp.Persister.{new_persister}
use rpc_storage_cpp.Raft.Valid.{IsValid}
use rpc_storage_cpp.Raft.Log.{get_last_log_index}
use rpc_storage_cpp.Raft.State.{follower, Raft, LogEntry, Archive}
use rpc_storage_cpp.Common.{length, ℕ, ◌≡◌, refl, none, [], ◌∷◌, arith}

-- An archive of the term alone.
abbrev pub term_archive : Archive
term_archive = record {
  archive = λ n. n.current_term ∷ [];
  restore = λ d. record {
    current_term = 0;
    voted_for = none;
    last_snapshot_include_index = 0;
    last_snapshot_include_term = 0;
    logs = [];
  };
}

abbrev pub entry : (term index : ℕ) → LogEntry
entry term index = record { command = index ∷ []; log_term = term; log_index = index }

-- The second of three nodes, with the entries 1, 2 and 3 of the terms 1, 1 and 2, of which two are
-- committed and one is applied.
abbrev pub node : Raft
node = record {
  boost = term_archive;
  persister = new_persister (λ b. length b) [] [];
  peers = 3;
  me = 1;
  current_term = 2;
  voted_for = none;
  logs = entry 1 1 ∷ entry 1 2 ∷ entry 2 3 ∷ [];
  commit_index = 2;
  last_applied = 1;
  next_index = 4 ∷ 4 ∷ 4 ∷ [];
  match_index = 0 ∷ 0 ∷ 0 ∷ [];
  status = follower;
  last_reset_election_time = 0;
  last_reset_hear_beat_time = 0;
  last_snapshot_include_index = 0;
  last_snapshot_include_term = 0;
}

pub last-node : get_last_log_index node ≡ 3
unfolding get_last_log_index
last-node = refl

pub node-IsValid : IsValid node
node-IsValid = record {
  indexed = (refl, (refl, (refl, tt)));
  committed = omega (arith, last-node);
  applied = omega arith;
  next_size = refl;
  match_size = refl;
}
