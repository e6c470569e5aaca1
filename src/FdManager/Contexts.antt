-- ===== src/FdManager/Contexts.antt =====
-- What `get` and `del` do to the contexts: fiber/fd_manager.cpp.
use rpc_storage_cpp.Common.{
  leb, ◌==◌, if◌then◌else◌, Bool-cases, Option-cases, length, get_elem?, set, replicate,
  length-append, length-set, get_elem?-lt, take_all, length-replicate, Returns, ℕ, zero, suc, ◌-◌,
  ◌*◌, ◌/◌, ◌≤◌, ◌<◌, ◌≡◌, refl, ap, ◌∙◌, ◌⊎◌, inl, inr, true, Option, none, some, List, [], ◌∷◌,
  ◌++◌, arith,
}
use rpc_storage_cpp.FdManager.{
  Stat, new_fd_ctx, get_ctx, create_ctx, resize_datas, known, FdCtx, FdManager,
}

-- The context of a descriptor, if there is one.
abbrev pub ctx_of : FdManager → ℕ → Option FdCtx
ctx_of s fd = known (get_elem? s.datas fd)

get_elem?-past : (ds : List (Option FdCtx)) (i : ℕ) → length ds ≤ i → get_elem? ds i ≡ none
get_elem?-past [] i l = refl
get_elem?-past (d ∷ ds) zero l = absurd (omega arith)
get_elem?-past (d ∷ ds) (suc i) l = get_elem?-past ds i (omega arith)

pub known-set :
    (ds : List (Option FdCtx)) (i j : ℕ) (p : Option FdCtx)
    → i < length ds
    → known (get_elem? (set ds i p) j) ≡ (if i == j then p else known (get_elem? ds j))
known-set [] i j p l = absurd (omega arith)
known-set (d ∷ ds) zero zero p l = refl
known-set (d ∷ ds) zero (suc j) p l = ground arith
known-set (d ∷ ds) (suc i) zero p l = ground arith
known-set (d ∷ ds) (suc i) (suc j) p l = known-set ds i j p (omega arith) ∙ ground arith

abbrev empty_place : Option FdCtx
empty_place = none

known-replicate : (n j : ℕ) → known (get_elem? (replicate n empty_place) j) ≡ none
known-replicate zero j = refl
known-replicate (suc n) zero = refl
known-replicate (suc n) (suc j) = known-replicate n j

known-append :
    (ds : List (Option FdCtx)) (n j : ℕ)
    → known (get_elem? (ds ++ replicate n none) j) ≡ known (get_elem? ds j)
known-append [] n j = known-replicate n j
known-append (d ∷ ds) n zero = refl
known-append (d ∷ ds) n (suc j) = known-append ds n j

known-resize_datas :
    (ds : List (Option FdCtx)) (n j : ℕ)
    → length ds ≤ n
    → (known (get_elem? (resize_datas ds n) j) ≡ known (get_elem? ds j))
      × (length (resize_datas ds n) ≡ n)
unfolding resize_datas
known-resize_datas ds n j l = rw (take_all n ds l) (
  known-append ds (n - length ds) j,
  length-append ds (replicate (n - length ds) none)
      ∙ omega (arith, length-replicate (n - length ds) empty_place),
)

-- What `get` leaves and returns, for the descriptor `fd`.
pub record Got (s : FdManager) (fd : ℕ) (stat : Stat) (r : FdManager × Option FdCtx) : Type 0 where
  pub context : FdCtx
  pub returned : r.1 ≡ some context
  pub old_or_new :
      (ctx_of s fd ≡ some context) ⊎ ((ctx_of s fd ≡ none) × (context ≡ new_fd_ctx fd stat))
  pub contexts : (j : ℕ) → ctx_of r.0 j ≡ (if fd == j then some context else ctx_of s j)
  pub size : length s.datas ≤ length r.0.datas

created :
    (s : FdManager) (fd : ℕ) (stat : Stat)
    → 2 ≤ length s.datas
    → ctx_of s fd ≡ none
    → Returns (create_ctx s fd stat) (Got s fd stat)
unfolding create_ctx
created s fd stat l e = elim (Bool-cases (leb (length s.datas) fd)) [
  | inl past ↦
      let ds = resize_datas s.datas (fd * 3 / 2) in
      let m : length s.datas ≤ fd * 3 / 2 = ground (arith, past) in
      let size = (known-resize_datas s.datas (fd * 3 / 2) 0 m).1 in
      let (old, f) = get_elem?-lt ds fd (ground (arith, past, size)) in
      rw (Returns, past, f)
        (record {
          context = new_fd_ctx fd stat;
          returned = refl;
          old_or_new = inr (e, refl);
          contexts = λ j.
              known-set ds fd j (some (new_fd_ctx fd stat)) (ground (arith, past, size))
              ∙ ap (λ p. if fd == j then some (new_fd_ctx fd stat) else p)
                  (known-resize_datas s.datas (fd * 3 / 2) j m).0;
          size = omega (arith, m, size, length-set ds fd (some (new_fd_ctx fd stat)));
        })
  | inr inside ↦
      let n : fd < length s.datas = ground (arith, inside) in
      let (old, f) = get_elem?-lt s.datas fd n in
      rw (Returns, inside, f)
        (record {
          context = new_fd_ctx fd stat;
          returned = refl;
          old_or_new = inr (e, refl);
          contexts = λ j. known-set s.datas fd j (some (new_fd_ctx fd stat)) n;
          size = omega (arith, length-set s.datas fd (some (new_fd_ctx fd stat)));
        })
]

-- With two places or more (the constructor makes 64), `get` that may create stays within the places for
-- a descriptor of any size, and returns the context of the descriptor, the old one if there is one and
-- a new one otherwise; it is kept for the next `get`, and the contexts of all others are as before.
pub get_ctx-Got :
    (s : FdManager) (fd : ℕ) (stat : Stat)
    → 2 ≤ length s.datas
    → Returns (get_ctx s (some fd) true stat) (Got s fd stat)
unfolding get_ctx
get_ctx-Got s fd stat l = elim (Option-cases (ctx_of s fd)) [
  | inl e ↦ rw (Returns, e) (created s fd stat l e)
  | inr (c, e) ↦
      rw (Returns, e)
        (record {
          context = c;
          returned = refl;
          old_or_new = inl e;
          contexts = λ j. ground (arith, e);
          size = omega arith;
        })
]
