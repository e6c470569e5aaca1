-- ===== src/Persister/Reads.antt =====
-- What a read of stable storage returns: raftCore/Persister.cpp.
use rpc_storage_cpp.Common.{
  ◌≡◌, ◌≢◌, refl, ap, ◌∙◌, sym, Bool, true, false, ◌||◌, [], ◌∷◌, Bytes, arith, length, take, ◌≤◌,
  take_all, take-append-drop,
}
use rpc_storage_cpp.Persister.{
  Persister, is_space, extract, word, skip_spaces, save, save_raft_state, read_raft_state,
  read_snapshot,
}

abbrev pub has_space : Bytes → Bool
has_space [] = false
has_space (c ∷ cs) = is_space c || has_space cs

has_space-word : (cs : Bytes) → has_space (word cs) ≡ false
has_space-word [] = refl
has_space-word (c ∷ cs) = ground (arith, has_space-word cs)

word-eq_self : (cs : Bytes) → has_space cs ≡ false → word cs ≡ cs
word-eq_self [] h = refl
word-eq_self (c ∷ cs) h = ground (arith, word-eq_self cs)

extract-eq_self : (cs : Bytes) → has_space cs ≡ false → extract cs ≡ cs
extract-eq_self [] h = refl
extract-eq_self (c ∷ cs) h = ground (arith, word-eq_self cs)

on_disk :
    (p : Persister) (d : Bytes)
    → read_raft_state (save_raft_state p d) ≡ extract (take (p.spill d) d)
unfolding read_raft_state save_raft_state
on_disk p d = ground arith

-- If the saved data has no white space and the stream has put all of it on disk, a read of the
-- Raft state returns it.
pub read_raft_state-save_raft_state :
    (p : Persister) (d : Bytes)
    → has_space d ≡ false
    → length d ≤ p.spill d
    → read_raft_state (save_raft_state p d) ≡ d
read_raft_state-save_raft_state p d clean spilled =
    on_disk p d ∙ ap extract (take_all (p.spill d) d spilled) ∙ extract-eq_self d clean

-- If the saved data has white space in it, a read of the Raft state does not return it, however
-- much of it the stream has put on disk.
pub read_raft_state_loses :
    (p : Persister) (d : Bytes) → has_space d ≡ true → read_raft_state (save_raft_state p d) ≢ d
read_raft_state_loses p d spaced e =
    cc (ap has_space (sym (on_disk p d) ∙ e), has_space-word (skip_spaces (take (p.spill d) d)))

-- After `Save` with a snapshot that has no white space, `ReadSnapshot` returns the snapshot, and a
-- second `ReadSnapshot` returns the empty string: reopening the stream has emptied the file.
pub read_snapshot-save :
    (p : Persister) (d s : Bytes)
    → has_space s ≡ false
    → let first = read_snapshot (save p d s) in (first.1 ≡ s) × ((read_snapshot first.0).1 ≡ [])
unfolding read_snapshot save
read_snapshot-save p d s clean =
    (ground (arith, take-append-drop (p.spill s) s, extract-eq_self s clean), ground arith)

-- `SaveRaftState` counts the bytes of its data, and `Save` leaves the count at 0.
pub raft_state_size_lem :
    (p : Persister) (d s : Bytes)
    → ((save_raft_state p d).raft_state_size ≡ length d) × ((save p d s).raft_state_size ≡ 0)
unfolding save_raft_state save
raft_state_size_lem p d s = (omega arith, refl)
