-- ===== src/Persister.antt =====
-- Stable storage: raftCore/Persister.cpp and include/Persister.h, over output streams with a buffer.
pub mod Reads
mod Tests
use rpc_storage_cpp.Common.{
  ℕ, ◌+◌, Bool, true, false, ◌||◌, ◌&&◌, List, [], ◌∷◌, ◌++◌, Bytes, ◌==◌, leb, if◌then◌else◌,
  length, take, drop,
}

-- A `std::ofstream`: what the file holds on disk, and what was written and is still in the buffer.
pub record OutStream : Type 0 where
  pub is_open : Bool
  pub disk : Bytes
  pub buffer : Bytes

-- `close` writes the buffer out.
abbrev pub close : OutStream → OutStream
close st = record { is_open = false; disk = st.disk ++ st.buffer; buffer = [] }

-- `open` in the modes `out` and `out | trunc`, which both empty the file. It fails on an open stream.
abbrev pub open_out : OutStream → OutStream
open_out st = if st.is_open then st else record { is_open = true; disk = []; buffer = [] }

-- `<<` appends to the buffer, of which the library may move a first part to the file.
abbrev pub put : (Bytes → ℕ) → OutStream → Bytes → OutStream
put spill st d =
    if st.is_open
    then (let written = st.buffer ++ d in
        record st {
          disk = st.disk ++ take (spill written) written;
          buffer = drop (spill written) written;
        })
    else st

-- The fields of class `Persister`. `spill` is how many bytes of a written buffer the stream library
-- moves to the file before the stream is closed.
pub record Persister : Type 0 where
  pub spill : Bytes → ℕ
  pub raft_state_stream : OutStream
  pub snapshot_stream : OutStream
  pub raft_state_size : ℕ

-- `isspace`.
abbrev pub is_space : ℕ → Bool
is_space c = (c == 32) || (leb 9 c && leb c 13)

abbrev pub skip_spaces : Bytes → Bytes
skip_spaces [] = []
skip_spaces (c ∷ cs) = if is_space c then skip_spaces cs else c ∷ cs

abbrev pub word : Bytes → Bytes
word [] = []
word (c ∷ cs) = if is_space c then [] else c ∷ word cs

-- `ifs >> s` into a string: the first word of the file.
abbrev pub extract : Bytes → Bytes
extract cs = word (skip_spaces cs)

-- `if (stream.is_open()) stream.close();`
abbrev pub close_if_open : OutStream → OutStream
close_if_open st = if st.is_open then close st else st

unfoldable pub clear_raft_state : Persister → Persister
clear_raft_state p = record p {
  raft_state_size = 0;
  raft_state_stream = open_out (close_if_open p.raft_state_stream);
}

unfoldable pub clear_snapshot : Persister → Persister
clear_snapshot p = record p { snapshot_stream = open_out (close_if_open p.snapshot_stream) }

unfoldable pub clear_raft_state_and_snapshot : Persister → Persister
unfolding clear_raft_state clear_snapshot
clear_raft_state_and_snapshot p = clear_snapshot (clear_raft_state p)

-- `Save` counts no bytes.
unfoldable pub save : Persister → Bytes → Bytes → Persister
unfolding clear_raft_state_and_snapshot
save p raftstate snapshot =
    let q = clear_raft_state_and_snapshot p in
    record q {
      raft_state_stream = put q.spill q.raft_state_stream raftstate;
      snapshot_stream = put q.spill q.snapshot_stream snapshot;
    }

unfoldable pub save_raft_state : Persister → Bytes → Persister
unfolding clear_raft_state
save_raft_state p d =
    let q = clear_raft_state p in
    record q {
      raft_state_stream = put q.spill q.raft_state_stream d;
      raft_state_size = q.raft_state_size + length d;
    }

-- Reads the file while the output stream is open: the buffer is not seen.
unfoldable pub read_raft_state : Persister → Bytes
read_raft_state p = extract p.raft_state_stream.disk

-- Closes the stream, reads the file, and opens the stream again on leaving.
unfoldable pub read_snapshot : Persister → Persister × Bytes
read_snapshot p =
    let closed = close_if_open p.snapshot_stream in
    (record p { snapshot_stream = open_out closed }, extract closed.disk)

-- The constructor: both files are emptied and both streams opened, whatever the files held.
unfoldable pub new_persister : (Bytes → ℕ) → (raft_state_file snapshot_file : Bytes) → Persister
new_persister spill raft_state_file snapshot_file = record {
  spill = spill;
  raft_state_stream =
      open_out (close (open_out (record { is_open = false; disk = raft_state_file; buffer = [] })));
  snapshot_stream =
      open_out (close (open_out (record { is_open = false; disk = snapshot_file; buffer = [] })));
  raft_state_size = 0;
}
