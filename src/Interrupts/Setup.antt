-- ===== src/Interrupts/Setup.antt =====
-- `initialise_interrupt_control` and `terminate_interrupt_control` of driver/interrupts.c.
use amc_pci_dev.Prelude.{
  ℕ, ◌-◌, ◌^◌, Bool, false, if◌then◌else◌, Option, List, ◌∷◌, Result, ok, err, enomem,
}
use amc_pci_dev.Prelude.Op.{Op, modify, on_error, ◌>>◌}
use amc_pci_dev.Dma.{Dma}
use amc_pci_dev.Interrupts.{InterruptControl, Intc, iar, ier, mer}
use amc_pci_dev.Resources.{Resource, Held, acquire, release, interrupt_state, irq_line}

-- The writes to the interrupt controller, the last one first, and what the driver holds.
pub record IrqSetup : Type 0 where
  pub writes : List (Intc × ℕ)
  pub held : Held

abbrev pub writel : ℕ → Intc → Op IrqSetup (Unit {0})
writel value register = modify (λ s. record s { writes = (register, value) ∷ s.writes })

abbrev with_held : {A : Type 0} → Result A × Held → IrqSetup → Result A × IrqSetup
with_held (r, held) s = (r, record s { held = held })

abbrev pub hold : {A : Type 0} → Op Held A → Op IrqSetup A
hold m s = with_held (m s.held) s

abbrev pub drop : Resource → IrqSetup → IrqSetup
drop r s = record s { held = release r s.held }

-- The control, with the writes so far.
abbrev pub control_of : Option Dma → Op IrqSetup InterruptControl
control_of dma s =
    (ok (record { dma = dma; events = λ i. 0; active_readers = λ i. false; writes = s.writes }), s)

-- `irq` is what `request_irq` returns.
abbrev pub start_interrupts : Option Dma → Result (Unit {0}) → Op IrqSetup InterruptControl
start_interrupts dma irq =
    on_error
      (do
        writel 0 mer
        writel (2 ^ 32 - 1) iar
        writel (2 ^ 32 - 1) ier
        hold (acquire irq_line irq)
        writel 3 mer
        control_of dma)
      (drop interrupt_state)

unfoldable pub initialise_interrupt_control :
    Option Dma → Bool → Result (Unit {0}) → Op IrqSetup InterruptControl
initialise_interrupt_control dma allocated irq = do
  hold (acquire interrupt_state (if allocated then ok tt else err enomem))
  start_interrupts dma irq

abbrev pub terminate_interrupt_control : IrqSetup → IrqSetup
terminate_interrupt_control s = record {
  writes = (mer, 0) ∷ s.writes;
  held = release interrupt_state (release irq_line s.held);
}
