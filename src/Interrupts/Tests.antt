-- ===== src/Interrupts/Tests.antt =====
-- Two readers of one card without DMA areas.
use amc_pci_dev.Prelude.{
  ℕ, ◌<◌, ◌≤◌, ◌≡◌, ◌≢◌, refl, arith, test_bit, ◌++◌, ◌==◌, if◌then◌else◌, true, false, ◌||◌, ltb,
  none, some, List, [], ◌∷◌, ok,
}
use amc_pci_dev.Dma.{Transfer}
use amc_pci_dev.Interrupts.{
  InterruptControl, Action, interrupt, take, assign, unassign, Wakeup, event_interrupt, amc_pci_isr,
  acts, wait_event, read_interrupt_events, n_event_readers, assign_reader_number, or_events,
  assign_from,
}
use amc_pci_dev.Interrupts.{iar, ier, mer}
use amc_pci_dev.Interrupts.Setup.{
  IrqSetup, initialise_interrupt_control, terminate_interrupt_control,
}
use amc_pci_dev.Interrupts.Ladder.{initialise_interrupt_control_lem}
use amc_pci_dev.Prelude.{Result, Errno, ◌^◌, ◌-◌, err, ok}
use amc_pci_dev.Interrupts.Slots.{IsAssigned, assign_reader_number-IsAssigned}
use amc_pci_dev.Interrupts.Delivery.{
  IsHandled, amc_pci_isr-IsHandled, any_bit, taken, raised, acts-kept,
}
use amc_pci_dev.Interrupts.Waiting.{IsWaited, signalled, read_interrupt_events_lem}

abbrev engine : Transfer → (ℕ → ℕ) → ℕ → ℕ
engine t memory = memory

-- Readers 0 and 1 hold their slots, and event 4 is pending for reader 1.
abbrev control : InterruptControl
control = record {
  dma = none;
  events = λ j. if j == 1 then 4 else 0;
  active_readers = λ j. ltb j 2;
  writes = [];
}

-- Events 1 and 2, a read by each, another reader, and event 8.
abbrev trace : List Action
trace = interrupt 6 0 ∷ take 1 ∷ assign ∷ take 0 ∷ unassign 2 ∷ interrupt 17 0 ∷ []

assign_reader_number-IsAssigned_example :
    IsAssigned 0 n_event_readers control (assign_reader_number control)
assign_reader_number-IsAssigned_example = assign_reader_number-IsAssigned control

amc_pci_isr-IsHandled_example : IsHandled engine 7 2 control (amc_pci_isr engine 7 2 control)
amc_pci_isr-IsHandled_example = amc_pci_isr-IsHandled engine 7 2 control

acts-kept_example :
    any_bit 2 (taken engine 1 trace control) || test_bit 2 ((acts engine trace control).events 1)
    ≡ test_bit 2 (control.events 1) || any_bit 2 (raised trace)
acts-kept_example =
    acts-kept engine 1 2 trace control (omega arith) refl
      (tt, (tt, (tt, (tt, ((λ e. absurd (omega (arith, e))), (tt, tt))))))

-- The reader sleeps through a wake-up that brings nothing.
abbrev sleep : List Wakeup
sleep =
    record { actions = take 0 ∷ []; signal = false }
    ∷ record { actions = take 1 ∷ interrupt 6 0 ∷ []; signal = true }
    ∷ []

read_interrupt_events_lem_example :
    IsWaited (signalled sleep) 0 (read_interrupt_events engine false 0 sleep control)
    × ((us : List Wakeup) (w : Wakeup) (vs : List Wakeup) (xs : List Action) (isr dma_status : ℕ)
        → 0 < n_event_readers
        → 2 ≤ isr
        → sleep ≡ us ++ w ∷ vs
        → w.actions ≡ xs ++ interrupt isr dma_status ∷ []
        → (read_interrupt_events engine false 0 sleep control).0 ≢ none)
read_interrupt_events_lem_example = read_interrupt_events_lem engine 0 sleep control

wait_returns : (read_interrupt_events engine false 0 sleep control).0 ≡ some (ok 3)
unfolding wait_event acts amc_pci_isr event_interrupt or_events
wait_returns = refl

trace_runs : taken engine 1 trace control ≡ 7 ∷ []
unfolding amc_pci_isr event_interrupt or_events assign_reader_number assign_from
trace_runs = refl

abbrev set_up : Result InterruptControl × IrqSetup
set_up = initialise_interrupt_control none true (ok tt) (record { writes = []; held = [] })

initialise_interrupt_control_lem_example :
    ((e : Errno)
      → set_up.0 ≡ err e
      → (set_up.1.held ≡ [])
        × (set_up.1.writes ≡ (ier, 2 ^ 32 - 1) ∷ (iar, 2 ^ 32 - 1) ∷ (mer, 0) ∷ []))
    × ((c : InterruptControl)
        → set_up.0 ≡ ok c
        → (c.dma ≡ none)
          × ((i : ℕ) → (c.events i ≡ 0) × (c.active_readers i ≡ false))
          × (c.writes ≡ (mer, 3) ∷ (ier, 2 ^ 32 - 1) ∷ (iar, 2 ^ 32 - 1) ∷ (mer, 0) ∷ [])
          × (terminate_interrupt_control set_up.1
              ≡ record { writes = (mer, 0) ∷ c.writes; held = [] }))
initialise_interrupt_control_lem_example =
    initialise_interrupt_control_lem none true (ok tt) (record { writes = []; held = [] })
