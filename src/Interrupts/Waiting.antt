-- ===== src/Interrupts/Waiting.antt =====
-- The waiting read of driver/interrupts.c.
use amc_pci_dev.Prelude.{
  ℕ, ◌/◌, ◌≤◌, ◌<◌, ◌≡◌, ◌≢◌, sym, arith, Bool, true, false, ◌||◌, Option, none, some, List, [],
  ◌∷◌, ◌++◌, bit_or-positive, Result, ok, err, erestartsys, Errno, subst,
}
use amc_pci_dev.Dma.{Transfer}
use amc_pci_dev.Interrupts.{
  InterruptControl, Action, interrupt, Wakeup, n_event_readers, act, acts, clear_events, wait_event,
  read_interrupt_events,
}
use amc_pci_dev.Interrupts.Delivery.{amc_pci_isr-IsHandled}

-- A signal comes with one of the wake-ups.
abbrev pub signalled : List Wakeup → Bool
signalled [] = false
signalled (w ∷ ws) = w.signal || signalled ws

-- What a wait comes to.
pub record IsWaited (interrupted : Bool) (reader : ℕ) (r : Option (Result ℕ) × InterruptControl)
    : Type 0 where
  pub some_events : (n : ℕ) → r.0 ≡ some (ok n) → 0 < n
  pub by_signal : (e : Errno) → r.0 ≡ some (err e) → (e ≡ erestartsys) × (interrupted ≡ true)
  pub emptied : r.1.events reader ≡ 0

module _ (engine : Transfer → (ℕ → ℕ) → ℕ → ℕ) (reader : ℕ) where
  wait_event-IsWaited :
      (signal : Bool) (ws : List Wakeup) (s : InterruptControl)
      → IsWaited (signal || signalled ws) reader (wait_event engine reader signal ws s)
  unfolding wait_event
  wait_event-IsWaited signal [] s = record {
    some_events = λ n e. ground arith;
    by_signal = λ x e. ground arith;
    emptied = ground arith;
  }
  wait_event-IsWaited true (w ∷ ws) s = record {
    some_events = λ n e. ground arith;
    by_signal = λ x e. ground arith;
    emptied = ground arith;
  }
  wait_event-IsWaited false (w ∷ ws) s =
      let ih = wait_event-IsWaited w.signal ws (acts engine w.actions (clear_events reader s)) in
      record {
        some_events = λ n e. ground (arith, ih.some_events n);
        by_signal = λ x e. ground (arith, ih.by_signal x);
        emptied = ground (arith, ih.emptied);
      }

  -- With events pending, the condition holds at once.
  woken :
      (signal : Bool) (ws : List Wakeup) (s : InterruptControl)
      → 0 < s.events reader
      → (wait_event engine reader signal ws s).0 ≡ some (ok (s.events reader))
  unfolding wait_event
  woken signal [] s h = ground arith
  woken signal (w ∷ ws) s h = ground arith

  raises :
      (xs : List Action) (isr dma_status : ℕ) (s : InterruptControl)
      → reader < n_event_readers
      → 2 ≤ isr
      → 0 < (acts engine (xs ++ interrupt isr dma_status ∷ []) s).events reader
  unfolding acts
  raises [] isr dma_status s small two = ground (
    arith,
    (amc_pci_isr-IsHandled engine isr dma_status s).events reader small,
    bit_or-positive (s.events reader) (isr / 2) (omega arith),
  )
  raises (x ∷ xs) isr dma_status s small two = raises xs isr dma_status (act engine x s) small two

  wait_event-returns :
      (signal : Bool) (us : List Wakeup) (w : Wakeup) (vs : List Wakeup) (s : InterruptControl)
      (xs : List Action) (isr dma_status : ℕ)
      → reader < n_event_readers
      → 2 ≤ isr
      → w.actions ≡ xs ++ interrupt isr dma_status ∷ []
      → (wait_event engine reader signal (us ++ w ∷ vs) s).0 ≢ none
  unfolding wait_event
  wait_event-returns true [] w vs s xs isr dma_status small two e = ground arith
  wait_event-returns false [] w vs s xs isr dma_status small two e =
      let pending : 0 < (acts engine w.actions (clear_events reader s)).events reader =
        rw e (raises xs isr dma_status (clear_events reader s) small two) in
      ground (arith, woken w.signal vs (acts engine w.actions (clear_events reader s)) pending)
  wait_event-returns true (u ∷ us) w vs s xs isr dma_status small two e = ground arith
  wait_event-returns false (u ∷ us) w vs s xs isr dma_status small two e = ground (
    arith,
    wait_event-returns u.signal us w vs (acts engine u.actions (clear_events reader s)) xs isr
        dma_status small two e,
  )

  -- A read that waits returns events, never 0, or -ERESTARTSYS, and this only after a signal; the
  -- reader's events are cleared behind it. It does return when, before one of the wake-ups, an
  -- interrupt has raised an event and nothing else has happened since.
  pub read_interrupt_events_lem :
      (ws : List Wakeup) (s : InterruptControl)
      → IsWaited (signalled ws) reader (read_interrupt_events engine false reader ws s)
        × ((us : List Wakeup) (w : Wakeup) (vs : List Wakeup) (xs : List Action)
              (isr dma_status : ℕ)
            → reader < n_event_readers
            → 2 ≤ isr
            → ws ≡ us ++ w ∷ vs
            → w.actions ≡ xs ++ interrupt isr dma_status ∷ []
            → (read_interrupt_events engine false reader ws s).0 ≢ none)
  read_interrupt_events_lem ws s = (
    wait_event-IsWaited false ws s,
    λ us w vs xs isr dma_status small two split last.
        subst (λ x. (wait_event engine reader false x s).0 ≢ none) (sym split)
          (wait_event-returns false us w vs s xs isr dma_status small two last),
  )
