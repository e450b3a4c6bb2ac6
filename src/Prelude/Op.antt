-- ===== src/Prelude/Op.antt =====
-- Operations of the driver: they change a state and return a value or an error code; an error
-- keeps the changes made so far.
use mathlib.Core.Bool.{Bool, true, false}
use amc_pci_dev.Prelude.Errors.{Errno, Result, ok, err}

abbrev pub Op : Type 0 → Type 0 → Type 0
Op S A = S → Result A × S

module _ {S A : Type 0} where
  abbrev pub pure : A → Op S A
  pure a s = (ok a, s)

  abbrev pub fail : Errno → Op S A
  fail e s = (err e, s)

  abbrev pub lift : Result A → Op S A
  lift r s = (r, s)

  -- On an error the rest is skipped.
  abbrev pub and_then : {B : Type 0} → Result A × S → (A → Op S B) → Result B × S
  and_then (ok a, s) f = f a s
  and_then (err e, s) f = (err e, s)

abbrev pub modify : {S : Type 0} → (S → S) → Op S (Unit {0})
modify f s = (ok tt, f s)

infixl 5 ◌>>=◌ ◌>>◌
abbrev pub ◌>>=◌ : {S A B : Type 0} → Op S A → (A → Op S B) → Op S B
◌>>=◌ m f s = and_then (m s) f

abbrev pub ◌>>◌ : {S A B : Type 0} → Op S A → Op S B → Op S B
◌>>◌ m k s = and_then (m s) (λ _. k)

-- `TEST_OK(test, rc = e, target, …)`
abbrev pub require : {S : Type 0} → Bool → Errno → Op S (Unit {0})
require true e s = (ok tt, s)
require false e s = (err e, s)

-- What a `goto` target does on the way out of a failed call.
abbrev pub cleaned : {S A : Type 0} → Result A × S → (S → S) → Result A × S
cleaned (ok a, s) clean = (ok a, s)
cleaned (err e, s) clean = (err e, clean s)

abbrev pub on_error : {S A : Type 0} → Op S A → (S → S) → Op S A
on_error m clean s = cleaned (m s) clean
