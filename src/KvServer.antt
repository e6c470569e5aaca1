-- ===== src/KvServer.antt =====
-- The key-value server, raftCore/kvServer.cpp and include/kvServer.h, with `Op` of
-- common/include/util.h. The server stands on a skip list, by its interface, and on a Raft node.
pub mod State
pub mod Apply
pub mod ExactlyOnce
pub mod Requests
pub mod OpCode
mod Tests
use rpc_storage_cpp.KvServer.State.{
  Op, KvServer, get_id, set_id, get_queue, set_queue, erase_queue, ensure_queue, put_word,
  append_word, Err, GetReply, popped, same_request, get_answer, all_ok, err_wrong_leader,
}
use rpc_storage_cpp.Raft.Vote.{is_leader}
use rpc_storage_cpp.Raft.Replicate.{start}
use rpc_storage_cpp.Raft.Compact.{snapshot}
use rpc_storage_cpp.SkipList.{load_file, dump_file, insert_set_element, SkipListOps}
use rpc_storage_cpp.Raft.State.{snapshot_msg, command_msg, ApplyMsg, Raft}
use rpc_storage_cpp.Common.{
  ◌>>=◌, ltb, leb, ◌==◌, if◌then◌else◌, Bytes, bytes_eq, Result, ok, ℕ, ◌*◌, ◌≡◌, Bool, false, ◌&&◌,
  Option, none, some, List, [], ◌∷◌, ◌++◌,
}

module _ {S : Type 0} (ops : SkipListOps S) where
  unfoldable pub execute_put_op : KvServer S → Op → KvServer S
  execute_put_op s op = record s {
    skip_list = insert_set_element ops s.skip_list op.key op.value;
    last_request_id = set_id op.client_id op.request_id s.last_request_id;
  }

  unfoldable pub execute_append_op : KvServer S → Op → KvServer S
  execute_append_op s op = record s {
    skip_list = insert_set_element ops s.skip_list op.key op.value;
    last_request_id = set_id op.client_id op.request_id s.last_request_id;
  }

  -- `none` is `*exist == false`.
  unfoldable pub execute_get_op : KvServer S → Op → KvServer S × Option Bytes
  execute_get_op s op = (
    record s { last_request_id = set_id op.client_id op.request_id s.last_request_id },
    ops.search_element s.skip_list op.key,
  )

  unfoldable pub if_request_duplicate : KvServer S → (client_id : Bytes) → (request_id : ℕ) → Bool
  if_request_duplicate s client_id request_id = elim (get_id client_id s.last_request_id) [
    | none ↦ false
    | some last ↦ leb request_id last
  ]

  unfoldable pub make_snap_shot : KvServer S → Bytes
  make_snap_shot s = s.boost.write_snapshot (dump_file ops s.skip_list, s.last_request_id)

  -- `GetRaftStateSize() > m_maxRaftState / 10.0`.
  unfoldable pub if_need_to_send_snap_shot_command :
      KvServer S → (raft_index : ℕ) → Result (KvServer S)
  unfolding make_snap_shot
  if_need_to_send_snap_shot_command s raft_index = elim s.max_raft_state [
    | none ↦ ok s
    | some limit ↦
        if ltb limit (10 * s.raft_node.persister.raft_state_size)
        then (do
          r ← snapshot s.raft_node raft_index (make_snap_shot s)
          ok (record s { raft_node = r }))
        else ok s
  ]

  unfoldable pub send_message_to_wait_chan : KvServer S → Op → (raft_index : ℕ) → KvServer S
  send_message_to_wait_chan s op raft_index = elim (get_queue raft_index s.wait_apply_ch) [
    | none ↦ s
    | some q ↦ record s { wait_apply_ch = set_queue raft_index (q ++ op ∷ []) s.wait_apply_ch }
  ]

  -- The two tests on `op.Operation`.
  unfoldable pub execute : KvServer S → Op → KvServer S
  unfolding execute_put_op execute_append_op
  execute s op =
      let t = if bytes_eq op.operation put_word then execute_put_op s op else s in
      if bytes_eq op.operation append_word then execute_append_op t op else t

  unfoldable pub get_command_from_raft :
      KvServer S → (command : Bytes) → (command_index : ℕ) → Result (KvServer S)
  get_command_from_raft s command command_index =
      let op = s.boost.parse_from_string command in
      if leb command_index s.last_snap_shot_raft_log_index then ok s else do
        let t = if if_request_duplicate s op.client_id op.request_id then s else execute s op
        u ← if_need_to_send_snap_shot_command t command_index
        ok (send_message_to_wait_chan u op command_index)

  -- `parseFromString`: the skip list is loaded on top of what it holds.
  unfoldable pub read_snap_shot_to_install : KvServer S → Bytes → KvServer S
  read_snap_shot_to_install s [] = s
  read_snap_shot_to_install s (c ∷ cs) =
      let d = s.boost.read_snapshot (c ∷ cs) in
      record s { skip_list = load_file ops s.skip_list d.0; last_request_id = d.1 }

  unfoldable pub get_snap_shot_from_raft : KvServer S → Bytes → (snapshot_index : ℕ) → KvServer S
  unfolding read_snap_shot_to_install
  get_snap_shot_from_raft s d snapshot_index = record (read_snap_shot_to_install s d) {
    last_snap_shot_raft_log_index = snapshot_index;
  }

  -- One round of `ReadRaftApplyCommandLoop`.
  unfoldable pub apply_message : KvServer S → ApplyMsg → Result (KvServer S)
  unfolding get_snap_shot_from_raft
  apply_message s (command_msg command index) = get_command_from_raft s command index
  apply_message s (snapshot_msg d term index) = ok (get_snap_shot_from_raft s d index)

  unfoldable pub apply_messages : KvServer S → List ApplyMsg → Result (KvServer S)
  apply_messages s [] = ok s
  apply_messages s (m ∷ ms) = do t ← apply_message s m; apply_messages t ms

  -- `Get` and `PutAppend` up to the wait: `none` is the answer of a node that is not the leader, and
  -- otherwise there is a queue for the index of the new entry.
  unfoldable pub begin_request : KvServer S → Op → KvServer S × Option ℕ
  begin_request s op =
      let (r, entry) = start s.raft_node (s.boost.as_string op) in
      elim entry [
        | none ↦ (record s { raft_node = r }, none)
        | some (index, term) ↦ (
          record s { raft_node = r; wait_apply_ch = ensure_queue index s.wait_apply_ch },
          some index,
        )
      ]

  abbrev pub drop_queue : KvServer S → ℕ → KvServer S
  drop_queue s index = record s { wait_apply_ch = erase_queue index s.wait_apply_ch }

  -- `PutAppend` from the end of the wait on.
  unfoldable pub finish_put_append : KvServer S → Op → (index : ℕ) → KvServer S × Err
  finish_put_append s op index = (
    drop_queue s index,
    elim (popped (get_queue index s.wait_apply_ch)) [
      | none ↦
          if if_request_duplicate s op.client_id op.request_id then all_ok else err_wrong_leader
      | some committed ↦ if same_request committed op then all_ok else err_wrong_leader
    ],
  )

  abbrev answer_get : KvServer S → Op → (index : ℕ) → KvServer S × GetReply
  answer_get s op index =
      let (t, found) = execute_get_op s op in (drop_queue t index, get_answer found)

  abbrev refuse_get : KvServer S → (index : ℕ) → KvServer S × GetReply
  refuse_get s index = (drop_queue s index, record { err_word = err_wrong_leader; value = [] })

  -- `Get` from the end of the wait on.
  unfoldable pub finish_get : KvServer S → Op → (index : ℕ) → KvServer S × GetReply
  unfolding execute_get_op
  finish_get s op index = elim (popped (get_queue index s.wait_apply_ch)) [
    | none ↦
        if if_request_duplicate s op.client_id op.request_id && is_leader s.raft_node.status
        then answer_get s op index
        else refuse_get s index
    | some committed ↦
        if same_request committed op then answer_get s op index else refuse_get s index
  ]
