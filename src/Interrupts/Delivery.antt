-- ===== src/Interrupts/Delivery.antt =====
-- How events travel in driver/interrupts.c: from the interrupt handler to every reader, once.
use amc_pci_dev.Prelude.{
  ℕ, zero, suc, ◌/◌, ◌≤◌, ◌<◌, ◌≡◌, ◌≢◌, refl, ap, ◌∙◌, arith, Bool, true, false, ◌||◌, ◌==◌, ltb,
  if◌then◌else◌, List, [], ◌∷◌, All, Bool-cases, Option-cases, inl, inr, bit_or, test_bit,
  test_bit-bit_or, bit_and_mask, ◌%◌, Option, none, some, ◌⊎◌,
}
use amc_pci_dev.Dma.{Dma, Transfer, cdmasr}
use amc_pci_dev.Interrupts.{
  InterruptControl, Action, interrupt, take, assign, unassign, iar, or_events, event_interrupt,
  n_event_readers, dma_cdmasr, amc_pci_isr, act, acts, assign_reader_number, clear_events,
}
use amc_pci_dev.Interrupts.Slots.{IsAssigned, assign_reader_number-IsAssigned}

or_events_lem :
    (n mask : ℕ) (events : ℕ → ℕ) (j : ℕ)
    → or_events n mask events j ≡ (if ltb j n then bit_or (events j) mask else events j)
unfolding or_events
or_events_lem zero mask events j = ground arith
or_events_lem (suc n) mask events j =
    ground (arith, or_events_lem n mask events j, or_events_lem n mask events n)

-- Bit `k` stands in one of the masks.
abbrev pub any_bit : ℕ → List ℕ → Bool
any_bit k [] = false
any_bit k (x ∷ xs) = test_bit k x || any_bit k xs

-- The event masks that interrupts raise.
abbrev pub raised : List Action → List ℕ
raised [] = []
raised (interrupt isr dma_status ∷ xs) = isr / 2 ∷ raised xs
raised (take reader ∷ xs) = raised xs
raised (assign ∷ xs) = raised xs
raised (unassign reader ∷ xs) = raised xs

-- The reader keeps its slot.
abbrev pub Keeps : ℕ → Action → Type 0
Keeps reader (interrupt isr dma_status) = Unit
Keeps reader (take other) = Unit
Keeps reader assign = Unit
Keeps reader (unassign other) = other ≢ reader

zero-bits : (k : ℕ) → test_bit k 0 ≡ false
zero-bits zero = refl
zero-bits (suc k) = zero-bits k

module _ (engine : Transfer → (ℕ → ℕ) → ℕ → ℕ) where
  -- What one interrupt does.
  pub record IsHandled (isr dma_status : ℕ) (s t : InterruptControl) : Type 0 where
    pub dma_quiet :
        (isr % 2 ≡ 0) ⊎ (s.dma ≡ none) → (t.dma ≡ s.dma) × (t.writes ≡ (iar, isr) ∷ s.writes)
    pub dma_done :
        (dma : Dma)
        → isr % 2 ≡ 1
        → s.dma ≡ some dma
        → (t.dma ≡ some (record dma { done = true; writes = (cdmasr, dma_status) ∷ dma.writes }))
          × (t.writes ≡ (iar, isr) ∷ (dma_cdmasr, dma_status) ∷ s.writes)
    pub events :
        (j : ℕ)
        → j < n_event_readers
        → t.events j ≡ (if isr / 2 == 0 then s.events j else bit_or (s.events j) (isr / 2))
    pub others : (j : ℕ) → n_event_readers ≤ j → t.events j ≡ s.events j
    pub readers : t.active_readers ≡ s.active_readers

  -- An interrupt whose bit 0 is set, on a card with a DMA controller, completes `dma_done`, writes
  -- the status of the controller back to it, and only then acknowledges the interrupts; any other
  -- leaves the DMA controller alone and only acknowledges. It acknowledges the status that it
  -- read, no more and no less. Its other bits are added to the events of all eight readers, and
  -- nothing else changes.
  pub amc_pci_isr-IsHandled :
      (isr dma_status : ℕ) (s : InterruptControl)
      → IsHandled isr dma_status s (amc_pci_isr engine isr dma_status s)
  unfolding amc_pci_isr event_interrupt
  amc_pci_isr-IsHandled isr dma_status s = record {
    dma_quiet = λ h. quiet s.dma refl h;
    dma_done = λ dma odd has. ground (arith, bit_and_mask 1 isr, odd, has);
    events = λ j h. ground (arith, or_events_lem n_event_readers (isr / 2) s.events j);
    others = λ j h. ground (arith, or_events_lem n_event_readers (isr / 2) s.events j);
    readers = ground arith;
  }
    where
      quiet :
          (d : Option Dma)
          → s.dma ≡ d
          → (isr % 2 ≡ 0) ⊎ (s.dma ≡ none)
          → ((amc_pci_isr engine isr dma_status s).dma ≡ s.dma)
            × ((amc_pci_isr engine isr dma_status s).writes ≡ (iar, isr) ∷ s.writes)
      quiet d e (inl even) = ground (arith, bit_and_mask 1 isr, even)
      quiet d e (inr absent) = ground (arith, bit_and_mask 1 isr, absent)

  module _ (reader : ℕ) where
    -- The masks that reads of the reader return, in a run from `s`.
    abbrev pub taken : List Action → InterruptControl → List ℕ
    taken [] s = []
    taken (take other ∷ xs) s =
        if other == reader
        then s.events reader ∷ taken xs (clear_events other s)
        else taken xs (clear_events other s)
    taken (a ∷ xs) s = taken xs (act engine a s)

    kept-interrupt :
        (k isr dma_status : ℕ) (s : InterruptControl)
        → reader < n_event_readers
        → test_bit k ((amc_pci_isr engine isr dma_status s).events reader)
          ≡ test_bit k (s.events reader) || test_bit k (isr / 2)
    kept-interrupt k isr dma_status s small =
        let h = (amc_pci_isr-IsHandled isr dma_status s).events reader small in
        elim (Bool-cases (isr / 2 == 0)) [
          | inl quiet ↦ ground (arith, h, quiet, zero-bits k)
          | inr loud ↦ ground (arith, h, loud, test_bit-bit_or k (s.events reader) (isr / 2))
        ]

    -- Another reader that is given a slot does not disturb this one.
    kept-assign :
        (s : InterruptControl)
        → s.active_readers reader ≡ true
        → ((assign_reader_number s).1.active_readers reader ≡ true)
          × ((assign_reader_number s).1.events reader ≡ s.events reader)
    kept-assign s active = elim (Option-cases (assign_reader_number s).0) [
      | inl full ↦ ground (arith, (r.full full).0)
      | inr (n, found) ↦ ground (arith, r.found n found)
    ]
      where
        r : IsAssigned 0 n_event_readers s (assign_reader_number s)
        r = assign_reader_number-IsAssigned s

    -- Take a reader that holds its slot, and any sequence of interrupts, of reads by it and others,
    -- and of slots assigned and given back, in which it keeps its slot. Then an event was returned
    -- by one of its reads or is still pending at the end if and only if it was pending at the
    -- beginning or was raised by one of the interrupts.
    pub acts-kept :
        (k : ℕ) (xs : List Action) (s : InterruptControl)
        → reader < n_event_readers
        → s.active_readers reader ≡ true
        → All (Keeps reader) xs
        → any_bit k (taken xs s) || test_bit k ((acts engine xs s).events reader)
          ≡ test_bit k (s.events reader) || any_bit k (raised xs)
    unfolding acts
    acts-kept k [] s small active keeps = ground arith
    acts-kept k (interrupt isr dma_status ∷ xs) s small active keeps = ground (
      arith,
      acts-kept k xs (amc_pci_isr engine isr dma_status s) small
          (ap (λ (f : ℕ → Bool). f reader) (amc_pci_isr-IsHandled isr dma_status s).readers
            ∙ active)
          keeps.1,
      kept-interrupt k isr dma_status s small,
    )
    acts-kept k (take other ∷ xs) s small active keeps =
        ground (arith, acts-kept k xs (clear_events other s) small active keeps.1, zero-bits k)
    acts-kept k (assign ∷ xs) s small active keeps =
        let h = kept-assign s active in
        acts-kept k xs (assign_reader_number s).1 small h.0 keeps.1
        ∙ ap (λ e. test_bit k e || any_bit k (raised xs)) h.1
    acts-kept k (unassign other ∷ xs) s small active keeps =
        acts-kept k xs (act engine (unassign other) s) small (ground (arith, keeps.0)) keeps.1
