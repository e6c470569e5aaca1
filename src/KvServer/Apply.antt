-- ===== src/KvServer/Apply.antt =====
-- What applying a committed command does to the store: raftCore/kvServer.cpp.
use rpc_storage_cpp.Common.{
  leb, if◌then◌else◌, Bool-cases, Bytes, bytes_eq, bytes_eq_refl, bytes_eq→eq, ◌>>=◌, Returns,
  Returns-ok, ok, ℕ, ◌≤◌, ◌<◌, ◌≡◌, refl, ◌∙◌, inl, inr, some, List, [], ◌∷◌, arith,
}
use rpc_storage_cpp.Raft.Compact.Truncation.{snapshot-IsValid}
use rpc_storage_cpp.Raft.Compact.{snapshot}
use rpc_storage_cpp.Raft.Valid.{IsValid}
use rpc_storage_cpp.SkipList.{SkipListOps}
use rpc_storage_cpp.KvServer.{
  make_snap_shot, get_command_from_raft, execute, if_request_duplicate, send_message_to_wait_chan,
  if_need_to_send_snap_shot_command,
}
use rpc_storage_cpp.KvServer.State.{KvServer, set_id, Op, get_id}

pub get_id-set_id :
    (c j : Bytes) (n : ℕ) (m : List (Bytes × ℕ))
    → get_id j (set_id c n m) ≡ (if bytes_eq c j then some n else get_id j m)
unfolding get_id set_id
get_id-set_id c j n [] = refl
get_id-set_id c j n ((i, k) ∷ m) = ground (
  arith,
  get_id-set_id c j n m,
  bytes_eq→eq i c,
  bytes_eq→eq i j,
  bytes_eq→eq c j,
  bytes_eq_refl i,
  bytes_eq_refl c,
)

-- The request has a number not above the last one recorded for its client.
abbrev pub Seen : List (Bytes × ℕ) → Op → Type 0
Seen m op = (n : ℕ) × (get_id op.client_id m ≡ some n) × (op.request_id ≤ n)

abbrev pub IsNew : List (Bytes × ℕ) → Op → Type 0
IsNew m op = (n : ℕ) → get_id op.client_id m ≡ some n → n < op.request_id

module _ {S : Type 0} (ops : SkipListOps S) where
  -- The store and the clients' numbers, and the state of the Raft node.
  abbrev pub After : KvServer S → KvServer S → Type 0
  After s t =
      (t.skip_list ≡ s.skip_list)
      × (t.last_request_id ≡ s.last_request_id)
      × (t.last_snap_shot_raft_log_index ≡ s.last_snap_shot_raft_log_index)
      × (t.boost ≡ s.boost)
      × IsValid t.raft_node

  if_need-After :
      (s : KvServer S) (i : ℕ)
      → IsValid s.raft_node
      → Returns (if_need_to_send_snap_shot_command ops s i) (After s)
  unfolding if_need_to_send_snap_shot_command
  if_need-After s i v =
      let (r, p, w) =
        Returns-ok (snapshot s.raft_node i (make_snap_shot ops s))
          (snapshot-IsValid s.raft_node i (make_snap_shot ops s) v) in
      ground (arith, p, w)

  send_message-After :
      (s : KvServer S) (op : Op) (i : ℕ)
      → IsValid s.raft_node
      → After s (send_message_to_wait_chan ops s op i)
  unfolding send_message_to_wait_chan
  send_message-After s op i v = ground arith

  -- The server's data after a command has been applied.
  abbrev pub applied : KvServer S → Op → (command_index : ℕ) → KvServer S
  applied s op command_index =
      if leb command_index s.last_snap_shot_raft_log_index
      then s
      else if if_request_duplicate ops s op.client_id op.request_id
      then s
      else execute ops s op

  raft_node-execute : (s : KvServer S) (op : Op) → (execute ops s op).raft_node ≡ s.raft_node
  unfolding execute
  raft_node-execute s op = ground arith

  pub last_snap-execute :
      (s : KvServer S) (op : Op)
      → ((execute ops s op).last_snap_shot_raft_log_index ≡ s.last_snap_shot_raft_log_index)
        × ((execute ops s op).boost ≡ s.boost)
  unfolding execute
  last_snap-execute s op = ground arith

  tail-After :
      (s : KvServer S) (op : Op) (i : ℕ)
      → IsValid s.raft_node
      → Returns
          (if_need_to_send_snap_shot_command ops s i >>= λ u.
            ok (send_message_to_wait_chan ops u op i))
          (After s)
  tail-After s op i v =
      let (u, p, a) =
        Returns-ok (if_need_to_send_snap_shot_command ops s i) (if_need-After s i v) in
      let b = send_message-After u op i a.4 in
      rw p (b.0 ∙ a.0, b.1 ∙ a.1, b.2 ∙ a.2, b.3 ∙ a.3, b.4)

  -- Applying a command never ends the process of a server whose Raft node is valid, and changes its
  -- data as `applied` says.
  pub get_command_from_raft-After :
      (s : KvServer S) (op : Op) (i : ℕ)
      → IsValid s.raft_node
      → Returns (get_command_from_raft ops s (s.boost.as_string op) i) (After (applied s op i))
  unfolding get_command_from_raft
  get_command_from_raft-After s op i v =
      rw (s.boost.parse-as_string op) (elim (Bool-cases (leb i s.last_snap_shot_raft_log_index)) [
        | inl old ↦ rw old (refl, refl, refl, refl, v)
        | inr new ↦
            rw new (elim (Bool-cases (if_request_duplicate ops s op.client_id op.request_id)) [
              | inl dup ↦ rw dup (tail-After s op i v)
              | inr fresh ↦
                  rw fresh (tail-After (execute ops s op) op i (rw (raft_node-execute s op) v))
            ])
      ])
