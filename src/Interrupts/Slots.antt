-- ===== src/Interrupts/Slots.antt =====
-- The reader slots of driver/interrupts.c.
use amc_pci_dev.Prelude.{
  ℕ, zero, suc, ◌+◌, ◌≤◌, ◌<◌, ◌≡◌, refl, arith, true, false, Option, none, some, update,
  Bool-cases, inl, inr, subst, ℕ_discrete,
}
use mathlib.Core.Option.{some-injective}
use amc_pci_dev.Interrupts.{InterruptControl, assign_from, assign_reader_number, n_event_readers}

-- What the search from `bit` on finds, up to `limit`.
pub record IsAssigned (bit limit : ℕ) (s : InterruptControl) (r : Option ℕ × InterruptControl)
    : Type 0 where
  pub full : r.0 ≡ none → (r.1 ≡ s) × ((i : ℕ) → bit ≤ i → i < limit → s.active_readers i ≡ true)
  pub found :
      (n : ℕ)
      → r.0 ≡ some n
      → (bit ≤ n)
        × (n < limit)
        × (s.active_readers n ≡ false)
        × ((i : ℕ) → bit ≤ i → i < n → s.active_readers i ≡ true)
        × (r.1 ≡ record s {
          active_readers = update s.active_readers n true;
          events = update s.events n 0;
        })

assign_from-IsAssigned :
    (n bit : ℕ) (s : InterruptControl) → IsAssigned bit (bit + n) s (assign_from n bit s)
unfolding assign_from
assign_from-IsAssigned zero bit s = record {
  full = λ e. (refl, λ i p q. absurd (omega arith));
  found = λ n e. cc;
}
assign_from-IsAssigned (suc n) bit s = elim (Bool-cases (s.active_readers bit)) [
  | inl taken ↦ rw (taken, assign_from) (later taken (assign_from-IsAssigned n (suc bit) s))
  | inr free ↦
      rw (free, assign_from)
        (record {
          full = λ e. cc;
          found = λ m e.
              let same : bit ≡ m = some-injective bit m e in
              (
                omega arith,
                omega arith,
                ground arith,
                (λ i p q. absurd (omega arith)),
                ground arith,
              );
        })
]
  where
    later :
        {r : Option ℕ × InterruptControl}
        → s.active_readers bit ≡ true
        → IsAssigned (suc bit) (suc bit + n) s r
        → IsAssigned bit (bit + suc n) s r
    later taken ih = record {
      full = λ e.
          let p = ih.full e in
          (
            p.0,
            λ i low high. elim (ℕ_discrete bit i) [
              | yes same ↦ subst (λ k. s.active_readers k ≡ true) same taken
              | no other ↦ p.1 i (omega arith) (omega arith)
            ],
          );
      found = λ m e.
          let p = ih.found m e in
          (
            omega (arith, p.0),
            omega (arith, p.1),
            p.2,
            (λ i low high. elim (ℕ_discrete bit i) [
              | yes same ↦ subst (λ k. s.active_readers k ≡ true) same taken
              | no other ↦ p.3 i (omega arith) high
            ]),
            p.4,
          );
    }

-- `assign_reader_number` fails, with no change, only if all eight slots are taken. Otherwise it
-- returns the lowest free slot, takes it, clears its events, and changes nothing else.
pub assign_reader_number-IsAssigned :
    (s : InterruptControl) → IsAssigned 0 n_event_readers s (assign_reader_number s)
unfolding assign_reader_number
assign_reader_number-IsAssigned s = assign_from-IsAssigned n_event_readers 0 s
