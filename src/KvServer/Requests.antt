-- ===== src/KvServer/Requests.antt =====
-- The answers to the clients: raftCore/kvServer.cpp, `PutAppend` and `Get`.
use rpc_storage_cpp.Common.{
  ◌==◌, if◌then◌else◌, Option-cases, bytes_eq_refl, bytes_eq→eq, ℕ, ◌≤◌, ◌≡◌, refl, sym, ◌∙◌, ◌↔◌,
  ◌⊎◌, inl, inr, true, Option, none, some, List, [], ◌∷◌, arith,
}
use rpc_storage_cpp.SkipList.{SkipListOps}
use rpc_storage_cpp.KvServer.{
  send_message_to_wait_chan, finish_get, finish_put_append, if_request_duplicate,
}
use rpc_storage_cpp.KvServer.State.{
  get_answer, Err, err_wrong_leader, all_ok, get_id, same_request, popped, Op, KvServer, set_queue,
  get_queue,
}

get_queue-set_queue :
    (i j : ℕ) (q : List Op) (m : List (ℕ × List Op))
    → get_queue j (set_queue i q m) ≡ (if i == j then some q else get_queue j m)
unfolding get_queue set_queue
get_queue-set_queue i j q [] = refl
get_queue-set_queue i j q ((k, r) ∷ m) = ground (arith, get_queue-set_queue i j q m)

module _ {S : Type 0} (ops : SkipListOps S) where
  -- The queue's front is the request's own operation, or the queue is empty and the request's number
  -- is not above the last one recorded for its client.
  abbrev pub MayAnswer : KvServer S → Op → (index : ℕ) → Type 0
  MayAnswer s op index =
      ((c : Op) × (popped (get_queue index s.wait_apply_ch) ≡ some c)
        × (c.client_id ≡ op.client_id)
        × (c.request_id ≡ op.request_id))
      ⊎ ((popped (get_queue index s.wait_apply_ch) ≡ none)
          × ((n : ℕ) × (get_id op.client_id s.last_request_id ≡ some n) × (op.request_id ≤ n)))

  same_request_sound :
      (a b : Op)
      → same_request a b ≡ true
      → (a.client_id ≡ b.client_id) × (a.request_id ≡ b.request_id)
  same_request_sound a b h = ground (arith, bytes_eq→eq a.client_id b.client_id)

  same_request_complete :
      (a b : Op) → a.client_id ≡ b.client_id → a.request_id ≡ b.request_id → same_request a b ≡ true
  same_request_complete a b p q = ground (arith, bytes_eq_refl a.client_id)

  duplicate_sound :
      (s : KvServer S) (op : Op)
      → if_request_duplicate ops s op.client_id op.request_id ≡ true
      → (n : ℕ) × (get_id op.client_id s.last_request_id ≡ some n) × (op.request_id ≤ n)
  unfolding if_request_duplicate
  duplicate_sound s op h = elim (Option-cases (get_id op.client_id s.last_request_id)) [
    | inl e ↦ absurd (ground (arith, e))
    | inr (n, e) ↦ (n, e, ground (arith, e))
  ]

  duplicate_complete :
      (s : KvServer S) (op : Op)
      → (n : ℕ) × (get_id op.client_id s.last_request_id ≡ some n) × (op.request_id ≤ n)
      → if_request_duplicate ops s op.client_id op.request_id ≡ true
  unfolding if_request_duplicate
  duplicate_complete s op (n, e, le) = ground arith

  answer : KvServer S → Op → Option Op → Err
  answer s op none =
      if if_request_duplicate ops s op.client_id op.request_id then all_ok else err_wrong_leader
  answer s op (some c) = if same_request c op then all_ok else err_wrong_leader

  finish_put_append-answer :
      (s : KvServer S) (op : Op) (index : ℕ)
      → (finish_put_append ops s op index).1
        ≡ answer s op (popped (get_queue index s.wait_apply_ch))
  unfolding finish_put_append answer
  finish_put_append-answer s op index = ground arith

  -- `PutAppend` answers `OK` exactly if the operation at the front of its queue has its client and its
  -- number, or its queue is empty at the end of the wait and its number is not above the last one
  -- recorded for its client.
  pub finish_put_append_ok :
      (s : KvServer S) (op : Op) (index : ℕ)
      → ((finish_put_append ops s op index).1 ≡ all_ok) ↔ MayAnswer s op index
  unfolding answer
  finish_put_append_ok s op index =
      rw (finish_put_append-answer s op index)
        (elim (Option-cases (popped (get_queue index s.wait_apply_ch))) [
          | inl e ↦ (
            λ h. inr (e, duplicate_sound s op (ground (arith, h, e))),
            λ m. elim m [
              | inl (c, p, q, r) ↦ absurd (cc (sym e ∙ p))
              | inr (p, seen) ↦ ground (arith, e, duplicate_complete s op seen)
            ],
          )
          | inr (c, e) ↦ (
            λ h. inl (
              c,
              e,
              (same_request_sound c op (ground (arith, h, e))).0,
              (same_request_sound c op (ground (arith, h, e))).1,
            ),
            λ m. elim m [
              | inl (d, p, q, r) ↦ ground (arith, e, p, same_request_complete d op q r)
              | inr (p, seen) ↦ absurd (cc (sym p ∙ e))
            ],
          )
        ])

  -- An operation that is handed to a waiting request whose queue is empty makes `PutAppend` answer
  -- `OK` exactly if it is that request's own, and `ErrWrongLeader` if not.
  pub finish_put_append-send :
      (s : KvServer S) (committed op : Op) (index : ℕ)
      → get_queue index s.wait_apply_ch ≡ some []
      → (finish_put_append ops (send_message_to_wait_chan ops s committed index) op index).1
        ≡ (if same_request committed op then all_ok else err_wrong_leader)
  unfolding finish_put_append send_message_to_wait_chan
  finish_put_append-send s committed op index e =
      ground (arith, get_queue-set_queue index index (committed ∷ []) s.wait_apply_ch)

  -- A `Get` whose own operation stands at the front of its queue is answered from the store: with the
  -- key's value, or with `ErrNoKey` if there is none. The store does not change.
  pub finish_get-value :
      (s : KvServer S) (op c : Op) (index : ℕ)
      → popped (get_queue index s.wait_apply_ch) ≡ some c
      → c.client_id ≡ op.client_id
      → c.request_id ≡ op.request_id
      → ((finish_get ops s op index).1 ≡ get_answer (ops.search_element s.skip_list op.key))
        × ((finish_get ops s op index).0.skip_list ≡ s.skip_list)
  unfolding finish_get
  finish_get-value s op c index e p q = ground (arith, same_request_complete c op p q)
