-- ===== src/Common/Results.antt =====
-- Code that can end the process: `myAssert` exits, and memory is read out of range. A loop that is run
-- on fuel may also have too little of it.
use rpc_storage_cpp.Common.Tests.{if◌then◌else◌}
use mathlib.Core.Path.{◌≡◌, refl}
use mathlib.Core.Bool.{Bool, true, false}
use mathlib.Core.Option.{Option, none, some}

pub data Fault : Type 0 where
  assert_failed out_of_range out_of_fuel : Fault

-- The value that a call returns, or the end of the process.
pub data Result {ℓ} (A : Type ℓ) : Type ℓ where
  err : Fault → Result A
  ok : A → Result A

infixl 5 ◌>>=◌ ◌>>◌
-- What follows a call that may end the process.
abbrev pub ◌>>=◌ {ℓ κ} : {A : Type ℓ} {B : Type κ} → Result A → (A → Result B) → Result B
err fault >>= next = err fault
ok value >>= next = next value

-- What follows a check.
abbrev pub ◌>>◌ {ℓ} : {B : Type ℓ} → Result (Unit {0}) → Result B → Result B
err fault >> next = err fault
ok done >> next = next

-- `myAssert` of common/util.cpp.
abbrev pub my_assert : Bool → Result (Unit {0})
my_assert true = ok tt
my_assert false = err assert_failed

-- `operator[]` of a `std::vector`, whose result out of range is undefined.
abbrev pub at_index {ℓ} : {A : Type ℓ} → Option A → Result A
at_index none = err out_of_range
at_index (some a) = ok a

-- The code returns, and what it returns satisfies `P`.
abbrev pub Returns : {A : Type 0} → Result A → (A → Type 0) → Type 0
Returns (ok a) P = P a
Returns (err e) P = ⊥

pub if-bind :
    {A B : Type 0} (b : Bool) (m n : Result A) (f : A → Result B)
    → ((if b then m else n) >>= f) ≡ (if b then m >>= f else n >>= f)
if-bind true m n f = refl
if-bind false m n f = refl

pub Returns-ok :
    {A : Type 0} {P : A → Type 0} (m : Result A) → Returns m P → (a : A) × (m ≡ ok a) × P a
Returns-ok (ok a) h = (a, refl, h)
Returns-ok (err e) h = absurd h

pub Returns-at : {A : Type 0} (P : A → Type 0) (m : Result A) (a : A) → m ≡ ok a → Returns m P → P a
Returns-at P m a e h = rw e at h
