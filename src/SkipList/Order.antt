-- ===== src/SkipList/Order.antt =====
-- The order of `std::string` by its bytes, which is the order of the keys in skipList/include/skipList.h.
use rpc_storage_cpp.Common.{
  ltb, ◌==◌, Bool-cases, Bytes, bytes_eq, bytes_eq→eq, ◌≡◌, refl, inl, inr, Bool, true, false, ◌&&◌,
  ◌||◌, [], ◌∷◌, arith,
}

-- `operator<` on `std::string`.
unfoldable pub bytes_lt : Bytes → Bytes → Bool
bytes_lt a [] = false
bytes_lt [] (b ∷ bs) = true
bytes_lt (a ∷ as_) (b ∷ bs) = ltb a b || (a == b && bytes_lt as_ bs)

pub bytes_lt_irrefl : (a : Bytes) → bytes_lt a a ≡ false
unfolding bytes_lt
bytes_lt_irrefl [] = refl
bytes_lt_irrefl (a ∷ r) = ground (arith, bytes_lt_irrefl r)

pub bytes_lt_trans :
    (a b c : Bytes) → bytes_lt a b ≡ true → bytes_lt b c ≡ true → bytes_lt a c ≡ true
unfolding bytes_lt
bytes_lt_trans a [] c h k = absurd (ground arith)
bytes_lt_trans a (y ∷ b) [] h k = absurd (ground arith)
bytes_lt_trans [] (y ∷ b) (z ∷ c) h k = refl
bytes_lt_trans (x ∷ a) (y ∷ b) (z ∷ c) h k = ground (arith, bytes_lt_trans a b c)

pub bytes_lt_total :
    (a b : Bytes) → bytes_lt a b ≡ false → bytes_eq a b ≡ false → bytes_lt b a ≡ true
unfolding bytes_lt bytes_eq
bytes_lt_total [] [] h k = absurd (ground arith)
bytes_lt_total [] (y ∷ b) h k = absurd (ground arith)
bytes_lt_total (x ∷ a) [] h k = refl
bytes_lt_total (x ∷ a) (y ∷ b) h k = ground (arith, bytes_lt_total a b)

pub bytes_lt-eq : (a b : Bytes) → bytes_lt a b ≡ true → bytes_eq a b ≡ false
bytes_lt-eq a b h = elim (Bool-cases (bytes_eq a b)) [
  | inl e ↦ absurd (cc (h, bytes_eq→eq a b e, bytes_lt_irrefl a))
  | inr e ↦ e
]
