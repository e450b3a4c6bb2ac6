-- ===== src/Registers/Invariant.antt =====
-- What every step of the register files of driver/registers.c preserves.
use amc_pci_dev.Prelude.{
  ℕ, zero, suc, ◌+◌, ◌≤◌, ◌<◌, ◌≡◌, ◌≢◌, refl, sym, ap, arith, Bool, true, false, if◌then◌else◌,
  some, List, [], ◌∷◌, ◌++◌, length, All, update, ℕ_discrete,
}
use amc_pci_dev.Interrupts.{n_event_readers}
use amc_pci_dev.Registers.{RegisterContext}
use amc_pci_dev.Registers.System.{System}

-- How many of the first `n` slots are taken.
abbrev pub count_taken : ℕ → (ℕ → Bool) → ℕ
count_taken zero f = 0
count_taken (suc n) f = if f n then count_taken n f + 1 else count_taken n f

pub count_taken-le : (n : ℕ) (f : ℕ → Bool) → count_taken n f ≤ n
count_taken-le zero f = omega arith
count_taken-le (suc n) f = ground (arith, count_taken-le n f)

pub count_taken-none : (n : ℕ) → count_taken n (λ i. false) ≡ 0
count_taken-none zero = refl
count_taken-none (suc n) = count_taken-none n

count_taken-above :
    (n i : ℕ) (f : ℕ → Bool) (b : Bool) → n ≤ i → count_taken n (update f i b) ≡ count_taken n f
count_taken-above zero i f b h = refl
count_taken-above (suc n) i f b h = ground (arith, count_taken-above n i f b)

pub count_taken-assign :
    (n i : ℕ) (f : ℕ → Bool)
    → i < n
    → f i ≡ false
    → count_taken n (update f i true) ≡ count_taken n f + 1
count_taken-assign zero i f h e = absurd (omega arith)
count_taken-assign (suc n) i f h e = elim (ℕ_discrete n i) [
  | yes last ↦ ground (arith, count_taken-above n i f true)
  | no before ↦ ground (arith, count_taken-assign n i f)
]

pub count_taken-unassign :
    (n i : ℕ) (f : ℕ → Bool)
    → i < n
    → f i ≡ true
    → count_taken n (update f i false) + 1 ≡ count_taken n f
count_taken-unassign zero i f h e = absurd (omega arith)
count_taken-unassign (suc n) i f h e = elim (ℕ_discrete n i) [
  | yes last ↦ ground (arith, count_taken-above n i f false)
  | no before ↦ ground (arith, count_taken-unassign n i f)
]

-- The slot is one of the eight and taken.
abbrev pub Holds : (ℕ → Bool) → RegisterContext → Type 0
Holds f c = (c.reader_number < n_event_readers) × (f c.reader_number ≡ true)

abbrev pub Other : RegisterContext → RegisterContext → Type 0
Other c d = d.reader_number ≢ c.reader_number

-- No two files have the same slot.
abbrev pub Distinct : List RegisterContext → Type 0
Distinct [] = Unit
Distinct (c ∷ cs) = All (Other c) cs × Distinct cs

-- The counter counts the open files, each of which has a slot of its own, and a file that holds the
-- lock is the only one that is open.
pub record IsSound (s : System) : Type 0 where
  pub counted : s.registers.locking.reference_count ≡ length s.files
  pub taken : count_taken n_event_readers s.registers.control.active_readers ≡ length s.files
  pub slots : All (Holds s.registers.control.active_readers) s.files
  pub distinct : Distinct s.files
  pub alone :
      (a : ℕ)
      → s.registers.locking.locked_by ≡ some a
      → (c : RegisterContext) × (s.files ≡ c ∷ []) × (c.address ≡ a)

module _ (P : RegisterContext → Type 0) where
  pub All-middle :
      (xs : List RegisterContext) (c : RegisterContext) (ys : List RegisterContext)
      → All P (xs ++ c ∷ ys)
      → P c × All P (xs ++ ys)
  All-middle [] c ys h = h
  All-middle (x ∷ xs) c ys h = let ih = All-middle xs c ys h.1 in (ih.0, (h.0, ih.1))

pub Distinct-middle :
    (xs : List RegisterContext) (c : RegisterContext) (ys : List RegisterContext)
    → Distinct (xs ++ c ∷ ys)
    → All (Other c) (xs ++ ys) × Distinct (xs ++ ys)
Distinct-middle [] c ys h = h
Distinct-middle (x ∷ xs) c ys h =
    let ih = Distinct-middle xs c ys h.1 in
    let out = All-middle (Other x) xs c ys h.0 in (((λ e. out.0 (sym e)), ih.0), (out.1, ih.1))

-- Both a holder and another file keep their slots when one is given or taken back.
pub Holds-update :
    (f : ℕ → Bool) (n : ℕ) (b : Bool) (xs : List RegisterContext)
    → All (λ d. d.reader_number ≢ n) xs
    → All (Holds f) xs
    → All (Holds (update f n b)) xs
Holds-update f n b [] o h = tt
Holds-update f n b (x ∷ xs) o h =
    ((h.0.0, ground (arith, o.0, h.0.1)), Holds-update f n b xs o.1 h.1)

-- Nobody holds a slot that is free.
pub free-Other :
    (f : ℕ → Bool) (n : ℕ) (xs : List RegisterContext)
    → f n ≡ false
    → All (Holds f) xs
    → All (λ d. d.reader_number ≢ n) xs
free-Other f n [] e h = tt
free-Other f n (x ∷ xs) e h = ((λ same. ground (arith, h.0.1, ap f same)), free-Other f n xs e h.1)
