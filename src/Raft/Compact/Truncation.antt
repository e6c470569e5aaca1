-- ===== src/Raft/Compact/Truncation.antt =====
-- What a snapshot leaves of the log: raftCore/raft.cpp, `Snapshot` and `InstallSnapshot`.
use native.Mathlib.Decide.{dec_lt, dec_le}
use rpc_storage_cpp.Common.{
  inr, inl, Bytes, length, get_elem?, drop, length-drop, drop_all, drop-get_elem?, Returns, ok, ℕ,
  zero, suc, ◌+◌, ◌-◌, ◌≤◌, ◌<◌, max, ◌≡◌, refl, sym, ap, ◌∙◌, subst, ◌⊎◌, some, [], arith,
}
use rpc_storage_cpp.Persister.{save}
use rpc_storage_cpp.Raft.Log.{persist_data, get_log_term_from_log_index, get_last_log_index}
use rpc_storage_cpp.Raft.Valid.{IsValid}
use rpc_storage_cpp.Raft.Log.Indexing.{
  Contiguous-drop, entry_at-IsIndexed, Contiguous, get_last_log_index-IsIndexed, IsIndexed,
}
use rpc_storage_cpp.Raft.State.{Raft}
use rpc_storage_cpp.Raft.Compact.{snapshot, save_with, truncked_logs}

truncked_logs-drop :
    (s : Raft) (i n : ℕ)
    → IsIndexed s
    → s.last_snapshot_include_index ≤ i
    → i + n ≡ get_last_log_index s
    → truncked_logs s (i + 1) n ≡ ok (drop (i - s.last_snapshot_include_index) s.logs)
unfolding truncked_logs
truncked_logs-drop s i zero h lo e = ap ok (
    sym (
      drop_all (i - s.last_snapshot_include_index) s.logs
        (omega (arith, get_last_log_index-IsIndexed s h))))
truncked_logs-drop s i (suc n) h lo e =
    let (x, p, q) = entry_at-IsIndexed s (i + 1) h (omega arith) (omega arith) in
    let k : i + 1 - s.last_snapshot_include_index - 1 ≡ i - s.last_snapshot_include_index =
      omega arith in
    let next : i + 1 - s.last_snapshot_include_index ≡ suc (i - s.last_snapshot_include_index) =
      omega arith in
    let rest = truncked_logs-drop s (i + 1) n h (omega arith) (omega arith) in
    rw (p, rest, next)
      (ap ok (
        sym (
          drop-get_elem? (i - s.last_snapshot_include_index) s.logs x
            (subst (λ j. get_elem? s.logs j ≡ some x) k q))))

-- The node with its log cut down to what stands behind `index`.
abbrev pub compacted : Raft → (index term : ℕ) → Raft
compacted s index term = record s {
  last_snapshot_include_index = index;
  last_snapshot_include_term = term;
  logs = drop (index - s.last_snapshot_include_index) s.logs;
  commit_index = max s.commit_index index;
  last_applied = max s.last_applied index;
}

module _ (s : Raft) (index term : ℕ) (v : IsValid s)
    (lo : s.last_snapshot_include_index ≤ index) where
  compacted-IsIndexed : index ≤ get_last_log_index s → IsIndexed (compacted s index term)
  compacted-IsIndexed hi =
      subst (λ k. Contiguous k (drop (index - s.last_snapshot_include_index) s.logs)) (omega arith)
        (Contiguous-drop (suc s.last_snapshot_include_index) (index - s.last_snapshot_include_index)
          s.logs (omega (arith, get_last_log_index-IsIndexed s v.indexed)) v.indexed)

  get_last_log_index-compacted :
      index ≤ get_last_log_index s
      → get_last_log_index (compacted s index term) ≡ get_last_log_index s
  get_last_log_index-compacted hi = omega (
    arith,
    get_last_log_index-IsIndexed (compacted s index term) (compacted-IsIndexed hi),
    get_last_log_index-IsIndexed s v.indexed,
    length-drop (index - s.last_snapshot_include_index) s.logs,
  )

  -- A snapshot that goes beyond the log empties it.
  pub beyond : get_last_log_index s ≤ index → (compacted s index term).logs ≡ []
  beyond hi =
      drop_all (index - s.last_snapshot_include_index) s.logs
        (omega (arith, get_last_log_index-IsIndexed s v.indexed))

  pub compacted-IsValid_beyond : get_last_log_index s ≤ index → IsValid (compacted s index term)
  compacted-IsValid_beyond hi = record {
    indexed = subst (Contiguous (suc index)) (sym (beyond hi)) tt;
    committed = omega (
      arith,
      v.committed,
      get_last_log_index-IsIndexed (compacted s index term)
          (subst (Contiguous (suc index)) (sym (beyond hi)) tt),
    );
    applied = omega arith;
    next_size = v.next_size;
    match_size = v.match_size;
  }

  pub compacted-IsValid : index ≤ get_last_log_index s → IsValid (compacted s index term)
  compacted-IsValid hi = record {
    indexed = compacted-IsIndexed hi;
    committed = omega (arith, get_last_log_index-compacted hi, v.committed);
    applied = omega arith;
    next_size = v.next_size;
    match_size = v.match_size;
  }

pub save_with-IsValid : {s : Raft} (d : Bytes) → IsValid s → IsValid (save_with s d)
unfolding save_with get_last_log_index
save_with-IsValid d v = record {
  indexed = v.indexed;
  committed = v.committed;
  applied = v.applied;
  next_size = v.next_size;
  match_size = v.match_size;
}

save_with-fields :
    (s : Raft) (d : Bytes)
    → let t = save_with s d in
      (t.logs ≡ s.logs)
      × (t.last_snapshot_include_index ≡ s.last_snapshot_include_index)
      × (s.last_snapshot_include_term ≡ t.last_snapshot_include_term)
      × (t.persister ≡ save s.persister (persist_data t) d)
      × (get_last_log_index t ≡ get_last_log_index s)
unfolding save_with get_last_log_index persist_data
save_with-fields s d = (refl, refl, refl, refl, refl)

-- A snapshot up to an index that is not above the one the node has, or is not committed, changes
-- nothing.
snapshot-rejected :
    (s : Raft) (index : ℕ) (d : Bytes)
    → (index ≤ s.last_snapshot_include_index) ⊎ (s.commit_index < index)
    → snapshot s index d ≡ ok s
unfolding snapshot
snapshot-rejected s index d h = ground arith

snapshot-compacted :
    (s : Raft) (index : ℕ) (d : Bytes)
    → IsValid s
    → s.last_snapshot_include_index < index
    → index ≤ s.commit_index
    → (t : ℕ) × (get_log_term_from_log_index s index ≡ ok t)
      × (snapshot s index d ≡ ok (save_with (compacted s index t) d))
unfolding snapshot get_log_term_from_log_index
snapshot-compacted s index d v lo hi =
    let (x, p, q) = entry_at-IsIndexed s index v.indexed lo (omega (arith, v.committed)) in
    let es =
      truncked_logs-drop s index (get_last_log_index s - index) v.indexed (omega arith)
        (omega (arith, v.committed)) in
    let size : length (drop (index - s.last_snapshot_include_index) s.logs) + index
        ≡ get_last_log_index s =
      omega (
        arith,
        length-drop (index - s.last_snapshot_include_index) s.logs,
        get_last_log_index-IsIndexed s v.indexed,
        v.committed,
      ) in
    (x.log_term, ground (arith, p, v.committed), ground (arith, p, es, size))

-- A valid node that is told to take a snapshot up to a committed index above its last one does so
-- without ending the process: it keeps exactly the entries behind that index, with the term of the
-- entry at the index as the snapshot's, saves its state with the snapshot, and is valid again with the
-- same last index.
pub snapshot_lem :
    (s : Raft) (index : ℕ) (d : Bytes)
    → IsValid s
    → s.last_snapshot_include_index < index
    → index ≤ s.commit_index
    → Returns (snapshot s index d) λ t.
      (t.logs ≡ drop (index - s.last_snapshot_include_index) s.logs)
      × (t.last_snapshot_include_index ≡ index)
      × (get_log_term_from_log_index s index ≡ ok t.last_snapshot_include_term)
      × (t.persister ≡ save s.persister (persist_data t) d)
      × (get_last_log_index t ≡ get_last_log_index s)
      × IsValid t
snapshot_lem s index d v lo hi =
    let (t, p, q) = snapshot-compacted s index d v lo hi in
    let saved = save_with-fields (compacted s index t) d in
    rw q (
      saved.0,
      saved.1,
      p ∙ ap ok saved.2,
      saved.3,
      saved.4 ∙ get_last_log_index-compacted s index t v (omega arith) (omega (arith, v.committed)),
      save_with-IsValid d
          (compacted-IsValid s index t v (omega arith) (omega (arith, v.committed))),
    )

-- `Snapshot` never ends the process of a valid node, and leaves it valid.
pub snapshot-IsValid :
    (s : Raft) (index : ℕ) (d : Bytes) → IsValid s → Returns (snapshot s index d) IsValid
snapshot-IsValid s index d v = elim (dec_le index s.last_snapshot_include_index) [
  | yes old ↦ rw (snapshot-rejected s index d (inl old)) v
  | no new ↦ elim (dec_lt s.commit_index index) [
    | yes early ↦ rw (snapshot-rejected s index d (inr early)) v
    | no fine ↦
        let (t, p, q) = snapshot-compacted s index d v (omega arith) (omega arith) in
        rw q (
          save_with-IsValid d
            (compacted-IsValid s index t v (omega arith) (omega (arith, v.committed))))
  ]
]
