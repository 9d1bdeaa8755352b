-- ===== src/Core/Results.antt =====
-- include/simplenet/core/error.hpp, include/simplenet/core/result.hpp, src/core/error.cpp: errors as
-- errno values, results, and what a system call leaves behind.
use libsimplenet.Base.{ℕ, ℤ, ◌≡◌, refl}

-- The value of `code_`. Its category is the system category throughout the library; `message()` is
-- a text of the standard library.
pub record Error : Type 0 where
  pub value : ℕ

-- `error::from_errno(int)` and `make_error_from_errno`
abbrev pub from_errno : ℕ → Error
from_errno value = record { value = value }

pub data Result {ℓ} (A : Type ℓ) : Type ℓ where
  ok : A → Result A
  err : Error → Result A

-- `result<void>`
abbrev pub Status : Type 0
Status = Result (Unit {0})

abbrev pub done : Status
done = ok tt

-- A system call's return value, the `errno` that it leaves (of use only when the call fails), and
-- the state of the world outside the program after it.
pub record Outcome (W : Type 0) : Type 0 where
  pub value : ℤ
  pub errno : ℕ
  pub world : W

-- A property of both branches of a match on a result, each proved under its equation.
pub result_elim {ℓ κ ι} :
    {A : Type ℓ} {B : Type κ} (P : B → Type ι) (r : Result A) {f : A → B} {g : Error → B}
    → ((a : A) → r ≡ ok a → P (f a))
    → ((e : Error) → r ≡ err e → P (g e))
    → P (elim r [ ok a ↦ f a | err e ↦ g e ])
result_elim P (ok a) h k = h a refl
result_elim P (err e) h k = k e refl
