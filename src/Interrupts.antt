-- ===== src/Interrupts.antt =====
-- driver/interrupts.c: the reader slots, their event masks, the interrupt handler and the waiting
-- read. The registers are the log of the writes to the interrupt controller, and the wait queue is
-- the sequence of wake-ups that a waiting call is given.
pub mod Slots
pub mod Setup
pub mod Ladder
pub mod Delivery
pub mod Waiting
mod Tests
use amc_pci_dev.Prelude.{
  ℕ, zero, suc, ◌/◌, Bool, true, false, not, Option, none, some, List, [], ◌∷◌, ◌==◌, if◌then◌else◌,
  bit_or, update, Result, ok, err, erestartsys,
}
use amc_pci_dev.Dma.{Dma, Transfer, dma_interrupt, has_bits}

-- The registers of `struct axi_interrupt_controller` that the driver writes, and the status
-- register of the DMA controller, which the interrupt handler writes in between.
pub data Intc : Type 0 where
  iar ier mer dma_cdmasr : Intc

-- `struct interrupt_control`; `dma` is NULL on a card without DMA areas.
pub record InterruptControl : Type 0 where
  pub dma : Option Dma
  pub events : ℕ → ℕ
  pub active_readers : ℕ → Bool
  -- register writes of the interrupt controller and of the interrupt handler, in the order in which
  -- they reach the card, the last one first
  pub writes : List (Intc × ℕ)

abbrev pub n_event_readers : ℕ
n_event_readers = 8

-- The loop of `assign_reader_number` from `bit` on, with `n` rounds to go.
unfoldable pub assign_from : ℕ → ℕ → InterruptControl → Option ℕ × InterruptControl
assign_from zero bit s = (none, s)
assign_from (suc n) bit s = elim (s.active_readers bit) [
  | true ↦ assign_from n (suc bit) s
  | false ↦ (
    some bit,
    record s { active_readers = update s.active_readers bit true; events = update s.events bit 0 },
  )
]

unfoldable pub assign_reader_number : InterruptControl → Option ℕ × InterruptControl
unfolding assign_from
assign_reader_number s = assign_from n_event_readers 0 s

abbrev pub unassign_reader_number : ℕ → InterruptControl → InterruptControl
unassign_reader_number reader s = record s { active_readers = update s.active_readers reader false }

abbrev pub interrupt_events_ready : ℕ → InterruptControl → Bool
interrupt_events_ready reader s = not (s.events reader == 0)

-- `atomic_xchg(&control->events[reader], 0)`, and what it leaves.
abbrev pub clear_events : ℕ → InterruptControl → InterruptControl
clear_events reader s = record s { events = update s.events reader 0 }

-- The first `n` event masks with the new events.
pub or_events : ℕ → ℕ → (ℕ → ℕ) → ℕ → ℕ
or_events zero mask events = events
or_events (suc n) mask events =
    let rest = or_events n mask events in update rest n (bit_or (rest n) mask)

unfoldable pub event_interrupt : ℕ → InterruptControl → InterruptControl
unfolding or_events
event_interrupt mask s = record s { events = or_events n_event_readers mask s.events }

-- What happens to the control while a reader waits.
pub data Action : Type 0 where
  interrupt : ℕ → ℕ → Action
  take : ℕ → Action
  assign : Action
  unassign : ℕ → Action

-- What the others did until the waiting process ran again, and whether a signal is pending then.
pub record Wakeup : Type 0 where
  pub actions : List Action
  pub signal : Bool

module _ (engine : Transfer → (ℕ → ℕ) → ℕ → ℕ) where
  -- `dma_interrupt(control->dma)`, which reads `dma_status` from the DMA controller.
  abbrev pub dma_handled : ℕ → InterruptControl → Option Dma → InterruptControl
  dma_handled dma_status s none = s
  dma_handled dma_status s (some dma) = record s {
    dma = some (dma_interrupt engine dma_status dma).1;
    writes = (dma_cdmasr, dma_status) ∷ s.writes;
  }

  abbrev pub handle_dma : ℕ → ℕ → InterruptControl → InterruptControl
  handle_dma isr dma_status s = if has_bits isr 1 then dma_handled dma_status s s.dma else s

  abbrev pub handle_events : ℕ → InterruptControl → InterruptControl
  handle_events isr s =
      let user_isr = isr / 2 in if user_isr == 0 then s else event_interrupt user_isr s

  abbrev pub acknowledge : ℕ → InterruptControl → InterruptControl
  acknowledge isr s = record s { writes = (iar, isr) ∷ s.writes }

  -- `isr` is what the status register reads.
  unfoldable pub amc_pci_isr : ℕ → ℕ → InterruptControl → InterruptControl
  amc_pci_isr isr dma_status s = acknowledge isr (handle_events isr (handle_dma isr dma_status s))

  abbrev pub act : Action → InterruptControl → InterruptControl
  act (interrupt isr dma_status) s = amc_pci_isr isr dma_status s
  act (take reader) s = clear_events reader s
  act assign s = (assign_reader_number s).1
  act (unassign reader) s = unassign_reader_number reader s

  unfoldable pub acts : List Action → InterruptControl → InterruptControl
  acts [] s = s
  acts (a ∷ xs) s = acts xs (act a s)

  -- `wait_event_interruptible`: the condition takes the events; if there are none, a signal ends
  -- the wait, and without one the process sleeps until the next wake-up. `none` is a process that
  -- still sleeps after those given.
  unfoldable pub wait_event :
      ℕ → Bool → List Wakeup → InterruptControl → Option (Result ℕ) × InterruptControl
  wait_event reader signal [] s =
      if s.events reader == 0
      then (if signal
          then (some (err erestartsys), clear_events reader s)
          else (none, clear_events reader s))
      else (some (ok (s.events reader)), clear_events reader s)
  wait_event reader signal (w ∷ ws) s = elim (s.events reader == 0) [
    | true ↦ elim signal [
      | true ↦ (some (err erestartsys), clear_events reader s)
      | false ↦ wait_event reader w.signal ws (acts w.actions (clear_events reader s))
    ]
    | false ↦ (some (ok (s.events reader)), clear_events reader s)
  ]

  abbrev pub read_interrupt_events :
      Bool → ℕ → List Wakeup → InterruptControl → Option (Result ℕ) × InterruptControl
  read_interrupt_events true reader ws s = (some (ok (s.events reader)), clear_events reader s)
  read_interrupt_events false reader ws s = wait_event reader false ws s
