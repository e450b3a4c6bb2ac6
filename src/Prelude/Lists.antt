-- ===== src/Prelude/Lists.antt =====
-- Lists measured and indexed by native numbers, under the library's names, and filters by a test.
use Prim.Native.Nat.{ℕ, zero, suc, ◌+◌, ◌≤◌, ◌<◌}
use mathlib.Core.Path.{◌≡◌, refl, ap}
use mathlib.Core.Bool.{Bool, true}
use mathlib.Core.List.{List, [], ◌∷◌, ◌++◌}
use mathlib.Core.Option.{Option, none, some}
use native.Mathlib.Omega.{arith}
use mathlib.Core.Logic.{inl, inr}
use amc_pci_dev.Prelude.Tests.{◌==◌, if◌then◌else◌, Bool-cases}

module _ {ℓ} {A : Type ℓ} where
  abbrev pub length : List A → ℕ
  length [] = 0
  length (x ∷ xs) = suc (length xs)

  abbrev pub get_elem? : List A → ℕ → Option A
  get_elem? [] i = none
  get_elem? (x ∷ xs) zero = some x
  get_elem? (x ∷ xs) (suc i) = get_elem? xs i

  abbrev pub get_or : List A → ℕ → A → A
  get_or [] i d = d
  get_or (x ∷ xs) zero d = x
  get_or (x ∷ xs) (suc i) d = get_or xs i d

  abbrev pub All {κ} : (A → Type κ) → List A → Type κ
  All P [] = Unit
  All P (x ∷ xs) = P x × All P xs

  -- The items that pass a test, in order.
  abbrev pub select : (A → Bool) → List A → List A
  select p [] = []
  select p (x ∷ xs) = if p x then x ∷ select p xs else select p xs

  -- The first item that passes a test.
  abbrev pub first_with : (A → Bool) → List A → Option A
  first_with p [] = none
  first_with p (x ∷ xs) = if p x then some x else first_with p xs

  pub length-select-le : (p : A → Bool) (xs : List A) → length (select p xs) ≤ length xs
  length-select-le p [] = omega arith
  length-select-le p (x ∷ xs) = ground (arith, length-select-le p xs)

  pub length-append : (xs ys : List A) → length (xs ++ ys) ≡ length xs + length ys
  length-append [] ys = omega arith
  length-append (x ∷ xs) ys = omega (arith, length-append xs ys)

  pub get_elem?-lt : (xs : List A) (i : ℕ) → i < length xs → (x : A) × (get_elem? xs i ≡ some x)
  get_elem?-lt [] i h = absurd (omega arith)
  get_elem?-lt (x ∷ xs) zero h = (x, refl)
  get_elem?-lt (x ∷ xs) (suc i) h = get_elem?-lt xs i (omega arith)

  pub get_elem?-ge : (xs : List A) (i : ℕ) → length xs ≤ i → get_elem? xs i ≡ none
  get_elem?-ge [] i h = refl
  get_elem?-ge (x ∷ xs) zero h = absurd (omega arith)
  get_elem?-ge (x ∷ xs) (suc i) h = get_elem?-ge xs i (omega arith)

  -- What is selected passes the test, and stands somewhere in the list.
  pub get_elem?-select :
      (p : A → Bool) (xs : List A) (i : ℕ) (x : A)
      → get_elem? (select p xs) i ≡ some x
      → (p x ≡ true) × ((k : ℕ) × (get_elem? xs k ≡ some x))
  get_elem?-select p [] i x h = cc
  get_elem?-select p (y ∷ ys) zero x h = elim (Bool-cases (p y)) [
    | inl passes ↦ (ground (arith, rw passes at h), (0, ground (arith, rw passes at h)))
    | inr fails ↦ later (get_elem?-select p ys zero x (rw fails at h))
  ]
    where
      later :
          (p x ≡ true) × ((k : ℕ) × (get_elem? ys k ≡ some x))
          → (p x ≡ true) × ((k : ℕ) × (get_elem? (y ∷ ys) k ≡ some x))
      later (t, (k, e)) = (t, (suc k, e))
  get_elem?-select p (y ∷ ys) (suc i) x h = elim (Bool-cases (p y)) [
    | inl passes ↦ later (get_elem?-select p ys i x (rw passes at h))
    | inr fails ↦ later (get_elem?-select p ys (suc i) x (rw fails at h))
  ]
    where
      later :
          (p x ≡ true) × ((k : ℕ) × (get_elem? ys k ≡ some x))
          → (p x ≡ true) × ((k : ℕ) × (get_elem? (y ∷ ys) k ≡ some x))
      later (t, (k, e)) = (t, (suc k, e))

module _ {ℓ} {A : Type ℓ} where
  -- A write out of bounds changes nothing.
  abbrev pub set : List A → ℕ → A → List A
  set [] i v = []
  set (x ∷ xs) zero v = v ∷ xs
  set (x ∷ xs) (suc i) v = x ∷ set xs i v

  pub length-set : (xs : List A) (i : ℕ) (v : A) → length (set xs i v) ≡ length xs
  length-set [] i v = refl
  length-set (x ∷ xs) zero v = refl
  length-set (x ∷ xs) (suc i) v = ap suc (length-set xs i v)

  pub get_or-set :
      (xs : List A) (i : ℕ) (v : A) (j : ℕ) (d : A)
      → i < length xs
      → get_or (set xs i v) j d ≡ (if i == j then v else get_or xs j d)
  get_or-set [] i v j d h = absurd (omega arith)
  get_or-set (x ∷ xs) zero v zero d h = refl
  get_or-set (x ∷ xs) zero v (suc j) d h = ground arith
  get_or-set (x ∷ xs) (suc i) v zero d h = ground arith
  get_or-set (x ∷ xs) (suc i) v (suc j) d h = ground (arith, get_or-set xs i v j d)

-- A bound on the items of a list of numbers holds for reads with a default below it.
pub get_or-lt : (xs : List ℕ) (m : ℕ) → All (λ x. x < m) xs → 0 < m → (j : ℕ) → get_or xs j 0 < m
get_or-lt [] m h p j = p
get_or-lt (x ∷ xs) m h p zero = h.0
get_or-lt (x ∷ xs) m h p (suc j) = get_or-lt xs m h.1 p j
