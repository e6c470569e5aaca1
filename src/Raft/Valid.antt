-- ===== src/Raft/Valid.antt =====
-- The invariant of a node: raftCore/raft.cpp.
use rpc_storage_cpp.Common.{
  get_elem?-append_right, ◌∙◌, get_elem?-append_left, get_elem?, ◌<◌, refl, ℕ, ◌+◌, ◌≤◌, ◌≡◌, List,
  ◌++◌, arith, length, take, drop, length-append, length-take, length-drop, drop_all,
  take-append-drop, subst, sym, max,
}
use native.Mathlib.Decide.{dec_le}
use rpc_storage_cpp.Raft.State.{Raft, LogEntry}
use rpc_storage_cpp.Raft.Log.{get_last_log_index, persist}
use rpc_storage_cpp.Raft.Log.Indexing.{
  Contiguous, IsIndexed, Contiguous-append, Contiguous-split, Contiguous-drop,
}

-- The entries' indices follow the snapshot's one by one, the commit index is not behind the end of
-- the log, what the snapshot covers counts as applied, and there is a `nextIndex` and a `matchIndex`
-- for each peer.
pub record IsValid (s : Raft) : Type 0 where
  pub indexed : IsIndexed s
  pub committed : s.commit_index ≤ get_last_log_index s
  pub applied : s.last_snapshot_include_index ≤ s.last_applied
  pub next_size : length s.next_index ≡ s.peers
  pub match_size : length s.match_index ≡ s.peers

-- `es` put in the place of as many entries of `xs`, from position `k` on.
abbrev pub splice : (k : ℕ) → (es xs : List LogEntry) → List LogEntry
splice k es xs = take k xs ++ es ++ drop (length es) (drop k xs)

pub length-splice :
    (k : ℕ) (es xs : List LogEntry)
    → k ≤ length xs
    → length (splice k es xs) ≡ max (length xs) (k + length es)
length-splice k es xs h = omega (
  arith,
  length-append (take k xs ++ es) (drop (length es) (drop k xs)),
  length-append (take k xs) es,
  length-take k xs,
  length-drop (length es) (drop k xs),
  length-drop k xs,
)

Contiguous-rest : (n m : ℕ) (ys : List LogEntry) → Contiguous n ys → Contiguous (n + m) (drop m ys)
Contiguous-rest n m ys h = elim (dec_le m (length ys)) [
  | yes p ↦ Contiguous-drop n m ys p h
  | no p ↦ subst (Contiguous (n + m)) (sym (drop_all m ys (omega arith))) tt
]

pub Contiguous-splice :
    (n k : ℕ) (es xs : List LogEntry)
    → k ≤ length xs
    → Contiguous n xs
    → Contiguous (n + k) es
    → Contiguous n (splice k es xs)
Contiguous-splice n k es xs b h c =
    let parts =
      Contiguous-split n (take k xs) (drop k xs)
        (subst (Contiguous n) (sym (take-append-drop k xs)) h) in
    let size : length (take k xs) ≡ k = omega (arith, length-take k xs) in
    let front : Contiguous n (take k xs ++ es) =
      Contiguous-append n (take k xs) es parts.0 (rw size c) in
    Contiguous-append n (take k xs ++ es) (drop (length es) (drop k xs)) front (
      subst (λ j. Contiguous j (drop (length es) (drop k xs)))
        (omega (arith, length-append (take k xs) es))
        (Contiguous-rest (n + length (take k xs)) (length es) (drop k xs) parts.1))

pub get_last_log_index-persist : (s : Raft) → get_last_log_index (persist s) ≡ get_last_log_index s
unfolding get_last_log_index persist
get_last_log_index-persist s = refl

pub persist-IsValid : {s : Raft} → IsValid s → IsValid (persist s)
unfolding persist get_last_log_index
persist-IsValid v = record {
  indexed = v.indexed;
  committed = v.committed;
  applied = v.applied;
  next_size = v.next_size;
  match_size = v.match_size;
}

pub get_elem?-splice :
    (k j : ℕ) (es xs : List LogEntry)
    → k ≤ length xs
    → j < length es
    → get_elem? (splice k es xs) (k + j) ≡ get_elem? es j
get_elem?-splice k j es xs h l =
    let size : length (take k xs) ≡ k = omega (arith, length-take k xs) in
    get_elem?-append_left (take k xs ++ es) (drop (length es) (drop k xs)) (k + j)
      (omega (arith, length-append (take k xs) es))
    ∙ subst (λ n. get_elem? (take k xs ++ es) (n + j) ≡ get_elem? es j) size
        (get_elem?-append_right (take k xs) es j)
