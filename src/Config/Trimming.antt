-- ===== src/Config/Trimming.antt =====
-- Strings without spaces, and strings in front of a byte: rpc/mprpcconfig.cpp.
use rpc_storage_cpp.Common.{
  leb, ◌==◌, Bool-cases, Bytes, length, ℕ, ◌-◌, ◌<◌, ◌≡◌, refl, ap, ◌∙◌, inl, inr, true, false,
  ◌||◌, some, [], ◌∷◌, ◌++◌, arith,
}
use rpc_storage_cpp.Config.{
  all_spaces, cons_unless_blank, read_pieces, split_at_byte, trim, trim_back, trim_front,
}

-- The byte does not stand in the string.
abbrev pub Free : ℕ → Bytes → Type 0
Free b [] = Unit {0}
Free b (c ∷ s) = (c == b ≡ false) × Free b s

pub Free-append : (b : ℕ) (s t : Bytes) → Free b s → Free b t → Free b (s ++ t)
Free-append b [] t h k = k
Free-append b (c ∷ s) t h k = (h.0, Free-append b s t h.1 k)

trim_front-Free : (s : Bytes) → Free b' ' s → trim_front s ≡ s
unfolding trim_front
trim_front-Free [] h = refl
trim_front-Free (c ∷ s) h = rw (h.0) refl

trim_back-Free : (s : Bytes) → Free b' ' s → trim_back s ≡ s
unfolding trim_back
trim_back-Free [] h = refl
trim_back-Free (c ∷ []) h = rw (h.0) refl
trim_back-Free (c ∷ d ∷ s) h = ap (cons_unless_blank c) (trim_back-Free (d ∷ s) h.1)

pub trim-Free : (s : Bytes) → Free b' ' s → trim s ≡ s
unfolding trim
trim-Free s h = elim (Bool-cases (all_spaces s)) [
  | inl e ↦ rw (trim, e) refl
  | inr e ↦ rw (trim, e) (ap trim_back (trim_front-Free s h) ∙ trim_back-Free s h)
]

pub split_at_byte-append :
    (b : ℕ) (s t : Bytes) → Free b s → split_at_byte b (s ++ (b ∷ t)) ≡ some (s, t)
unfolding split_at_byte
split_at_byte-append b [] t h = let e : b == b ≡ true = ground arith in rw e refl
split_at_byte-append b (c ∷ s) t h = rw (h.0, split_at_byte-append b s t h.1) refl

-- A line that fits is read whole.
pub read_pieces-line :
    (room : ℕ) (l rest : Bytes)
    → Free b'\n' l
    → length l < room
    → read_pieces room (l ++ (b'\n' ∷ rest))
      ≡ (l ++ b'\n' ∷ [], (read_pieces 511 rest).0 ∷ (read_pieces 511 rest).1)
unfolding read_pieces
read_pieces-line room [] rest h l = refl
read_pieces-line room (c ∷ s) rest h l =
    let ends : (c == b'\n' || leb room 1) ≡ false = ground (arith, h.0) in
    rw (ends, read_pieces-line (room - 1) s rest h.1 (omega arith)) refl
