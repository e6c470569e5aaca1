-- ===== src/KvServer/Tests.antt =====
-- Requests at a server over an association list: raftCore/kvServer.cpp.
use rpc_storage_cpp.Common.{
  if◌then◌else◌, Bytes, bytes_eq, Returns, ◌≡◌, refl, inr, some, List, [], ◌∷◌, arith,
}
use rpc_storage_cpp.SkipList.{lookup}
use rpc_storage_cpp.KvServer.ExactlyOnce.{get_command_from_raft-new, get_command_from_raft_twice}
use rpc_storage_cpp.Raft.Tests.{node-IsValid, node}
use rpc_storage_cpp.SkipList.Assoc.{one, assoc_ops}
use rpc_storage_cpp.KvServer.Apply.{Seen, IsNew}
use rpc_storage_cpp.KvServer.OpCode.{op_archive}
use rpc_storage_cpp.KvServer.{get_command_from_raft}
use rpc_storage_cpp.KvServer.State.{set_id, append_word, get_id, Op, KvServer}

abbrev server : KvServer (List (Bytes × Bytes))
server = record {
  boost = op_archive;
  raft_node = node;
  max_raft_state = some 1000;
  skip_list = one;
  wait_apply_ch = (2, []) ∷ [];
  last_request_id = ((7 ∷ []), 4) ∷ [];
  last_snap_shot_raft_log_index = 0;
}

-- An `Append` to the key of the store.
abbrev fifth : Op
fifth = record {
  operation = append_word;
  key = 1 ∷ [];
  value = 9 ∷ [];
  client_id = 7 ∷ [];
  request_id = 5;
}

-- A request that has been seen.
abbrev fourth : Op
fourth = record fifth { request_id = 4 }

fifth-IsNew : IsNew server.last_request_id fifth
unfolding get_id bytes_eq
fifth-IsNew n e = ground arith

fourth-Seen : Seen server.last_request_id fourth
unfolding get_id bytes_eq
fourth-Seen = (4, refl, omega arith)

get_command_from_raft_twice_example :
    Returns (get_command_from_raft assoc_ops server (server.boost.as_string fifth) 2) λ t.
      Returns
        (get_command_from_raft assoc_ops t (server.boost.as_string fifth) 3)
        λ u. (u.skip_list ≡ t.skip_list) × (u.last_request_id ≡ t.last_request_id)
get_command_from_raft_twice_example =
    get_command_from_raft_twice assoc_ops server fifth 2 3 node-IsValid (omega arith) fifth-IsNew
      (inr refl)

get_command_from_raft-new_example :
    Returns (get_command_from_raft assoc_ops server (server.boost.as_string fifth) 2) λ t.
      (lookup (1 ∷ []) t.skip_list
        ≡ (if bytes_eq (1 ∷ []) (1 ∷ []) then some (9 ∷ []) else lookup (1 ∷ []) one))
      × (t.last_request_id ≡ set_id (7 ∷ []) 5 server.last_request_id)
get_command_from_raft-new_example =
    get_command_from_raft-new assoc_ops server fifth 2 (1 ∷ []) node-IsValid (omega arith)
      fifth-IsNew (inr refl)
