-- ===== src/KvServer/ExactlyOnce.antt =====
-- A client's command takes effect once: raftCore/kvServer.cpp, `GetCommandFromRaft`.
use native.Mathlib.Nat.{le_refl}
use rpc_storage_cpp.Common.{
  if◌then◌else◌, Option-cases, Bytes, bytes_eq, bytes_eq_refl, Returns, Returns-ok, ℕ, ◌<◌, ◌≡◌,
  refl, ap, ◌∙◌, subst, ◌⊎◌, inl, inr, true, false, some, arith,
}
use rpc_storage_cpp.SkipList.Laws.{search-insert_set_element}
use rpc_storage_cpp.Raft.Valid.{IsValid}
use rpc_storage_cpp.KvServer.Apply.{
  last_snap-execute, get_command_from_raft-After, get_id-set_id, applied, IsNew, Seen,
}
use rpc_storage_cpp.SkipList.{insert_set_element, SkipListOps}
use rpc_storage_cpp.KvServer.{get_command_from_raft, execute, if_request_duplicate}
use rpc_storage_cpp.KvServer.State.{set_id, get_id, append_word, KvServer, put_word, Op}

-- `Put` or `Append`.
abbrev pub IsWrite : Op → Type 0
IsWrite op = (op.operation ≡ put_word) ⊎ (op.operation ≡ append_word)

module _ {S : Type 0} (ops : SkipListOps S) where
  duplicate-Seen :
      (s : KvServer S) (op : Op)
      → Seen s.last_request_id op
      → if_request_duplicate ops s op.client_id op.request_id ≡ true
  unfolding if_request_duplicate
  duplicate-Seen s op (n, e, le) = ground arith

  duplicate-IsNew :
      (s : KvServer S) (op : Op)
      → IsNew s.last_request_id op
      → if_request_duplicate ops s op.client_id op.request_id ≡ false
  unfolding if_request_duplicate
  duplicate-IsNew s op new = elim (Option-cases (get_id op.client_id s.last_request_id)) [
    | inl e ↦ ground (arith, e)
    | inr (n, e) ↦ let lt : n < op.request_id = new n e in ground (arith, e)
  ]

  execute-IsWrite :
      (s : KvServer S) (op : Op)
      → IsWrite op
      → ((execute ops s op).skip_list ≡ insert_set_element ops s.skip_list op.key op.value)
        × ((execute ops s op).last_request_id ≡ set_id op.client_id op.request_id s.last_request_id)
  unfolding execute bytes_eq
  execute-IsWrite s op (inl e) = rw e (refl, refl)
  execute-IsWrite s op (inr e) = rw e (refl, refl)

  applied-Seen :
      (s : KvServer S) (op : Op) (i : ℕ) → Seen s.last_request_id op → applied ops s op i ≡ s
  applied-Seen s op i seen = ground (arith, duplicate-Seen s op seen)

  applied-IsNew :
      (s : KvServer S) (op : Op) (i : ℕ)
      → s.last_snap_shot_raft_log_index < i
      → IsNew s.last_request_id op
      → applied ops s op i ≡ execute ops s op
  applied-IsNew s op i lo new = ground (arith, duplicate-IsNew s op new)

  Seen-execute :
      (s : KvServer S) (op : Op) → IsWrite op → Seen (execute ops s op).last_request_id op
  Seen-execute s op w = (
    op.request_id,
    ap (get_id op.client_id) (execute-IsWrite s op w).1
        ∙ get_id-set_id op.client_id op.client_id op.request_id s.last_request_id
        ∙ rw (bytes_eq_refl op.client_id),
    le_refl op.request_id,
  )

  -- At a server whose Raft node is valid, a command of a request whose number is not above its client's
  -- last one does not end the process, and changes neither the store nor the recorded numbers.
  pub get_command_from_raft-duplicate :
      (s : KvServer S) (op : Op) (i : ℕ)
      → IsValid s.raft_node
      → Seen s.last_request_id op
      → Returns
          (get_command_from_raft ops s (s.boost.as_string op) i)
          λ t. (t.skip_list ≡ s.skip_list) × (t.last_request_id ≡ s.last_request_id)
  get_command_from_raft-duplicate s op i v seen =
      let (t, p, a) =
        Returns-ok (get_command_from_raft ops s (s.boost.as_string op) i)
          (get_command_from_raft-After ops s op i v) in
      let same = applied-Seen s op i seen in
      rw p (a.0 ∙ ap (λ u. u.skip_list) same, a.1 ∙ ap (λ u. u.last_request_id) same)

  -- At a server whose Raft node is valid, a new `Put` or `Append` above the installed snapshot does not
  -- end the process, sets the value of its key to its value, for
  -- `Append` too, leaves all other keys, and records the request's number for the client.
  pub get_command_from_raft-new :
      (s : KvServer S) (op : Op) (i : ℕ) (j : Bytes)
      → IsValid s.raft_node
      → s.last_snap_shot_raft_log_index < i
      → IsNew s.last_request_id op
      → IsWrite op
      → Returns (get_command_from_raft ops s (s.boost.as_string op) i) λ t.
        (ops.search_element t.skip_list j
          ≡ (if bytes_eq op.key j then some op.value else ops.search_element s.skip_list j))
        × (t.last_request_id ≡ set_id op.client_id op.request_id s.last_request_id)
  get_command_from_raft-new s op i j v lo new w =
      let (t, p, a) =
        Returns-ok (get_command_from_raft ops s (s.boost.as_string op) i)
          (get_command_from_raft-After ops s op i v) in
      let same = applied-IsNew s op i lo new in
      let done = execute-IsWrite s op w in
      rw p (
        ap (λ l. ops.search_element l j) (a.0 ∙ ap (λ u. u.skip_list) same ∙ done.0)
            ∙ search-insert_set_element ops s.skip_list op.key op.value j,
        a.1 ∙ ap (λ u. u.last_request_id) same ∙ done.1,
      )

  -- At a server whose Raft node is valid, if the same new `Put` or `Append` is applied twice, first
  -- above the installed snapshot and then at any index, the process goes on, and the second time
  -- changes neither the store nor the recorded numbers.
  pub get_command_from_raft_twice :
      (s : KvServer S) (op : Op) (i k : ℕ)
      → IsValid s.raft_node
      → s.last_snap_shot_raft_log_index < i
      → IsNew s.last_request_id op
      → IsWrite op
      → Returns (get_command_from_raft ops s (s.boost.as_string op) i) λ t.
        Returns
          (get_command_from_raft ops t (s.boost.as_string op) k)
          λ u. (u.skip_list ≡ t.skip_list) × (u.last_request_id ≡ t.last_request_id)
  get_command_from_raft_twice s op i k v lo new w =
      let (t, p, a) =
        Returns-ok (get_command_from_raft ops s (s.boost.as_string op) i)
          (get_command_from_raft-After ops s op i v) in
      let same = applied-IsNew s op i lo new in
      let (n, e, le) = Seen-execute s op w in
      let ids : t.last_request_id ≡ (execute ops s op).last_request_id =
        a.1 ∙ ap (λ u. u.last_request_id) same in
      let boost : t.boost ≡ s.boost =
        a.3 ∙ ap (λ u. u.boost) same ∙ (last_snap-execute ops s op).1 in
      rw p (
        subst
          (λ b.
            Returns (get_command_from_raft ops t (b.as_string op) k)
              λ u. (u.skip_list ≡ t.skip_list) × (u.last_request_id ≡ t.last_request_id))
          boost
          (get_command_from_raft-duplicate t op k a.4 (n, ap (get_id op.client_id) ids ∙ e, le)))
