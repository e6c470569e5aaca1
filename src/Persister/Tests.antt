-- ===== src/Persister/Tests.antt =====
-- Reads of stable storage: raftCore/Persister.cpp.
use rpc_storage_cpp.Common.{Bytes, length, ◌≡◌, refl, [], ◌∷◌}
use rpc_storage_cpp.Persister.Reads.{read_snapshot-save}
use rpc_storage_cpp.Persister.{save, new_persister, read_snapshot, Persister}

-- A stream library that puts everything on disk at once.
abbrev fresh : Persister
fresh = new_persister (λ b. length b) [] []

-- "22 serialization", as an archive begins, and "22".
abbrev spaced : Bytes
spaced = 50 ∷ 50 ∷ 32 ∷ 115 ∷ []

abbrev solid : Bytes
solid = 50 ∷ 50 ∷ []

read_snapshot-save_example :
    let first = read_snapshot (save fresh spaced solid) in
    (first.1 ≡ solid) × ((read_snapshot first.0).1 ≡ [])
read_snapshot-save_example = read_snapshot-save fresh spaced solid refl
