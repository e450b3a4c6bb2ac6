-- ===== src/Interrupts/Ladder.antt =====
-- What the setup of driver/interrupts.c leaves behind.
use amc_pci_dev.Prelude.{
  ℕ, ◌-◌, ◌^◌, ◌≡◌, refl, arith, Bool, true, false, if◌then◌else◌, Option, ◌∷◌, Result, ok, err,
  Errno,
}
use amc_pci_dev.Dma.{Dma}
use amc_pci_dev.Interrupts.{InterruptControl, iar, ier, mer}
use amc_pci_dev.Resources.{interrupt_state, irq_line}
use amc_pci_dev.Interrupts.Setup.{
  IrqSetup, initialise_interrupt_control, terminate_interrupt_control,
}

-- If the setup of the interrupts fails, it holds what it held before, and the controller was not
-- enabled. If it succeeds, no reader has a slot and no event is pending, the controller was
-- disabled, cleared, set to all interrupts and then enabled, in this order, and
-- `terminate_interrupt_control` disables it and gives back exactly what was acquired.
pub initialise_interrupt_control_lem :
    (dma : Option Dma) (allocated : Bool) (irq : Result (Unit {0})) (s : IrqSetup)
    → ((e : Errno)
        → (initialise_interrupt_control dma allocated irq s).0 ≡ err e
        → ((initialise_interrupt_control dma allocated irq s).1.held ≡ s.held)
          × ((initialise_interrupt_control dma allocated irq s).1.writes ≡ (
              if allocated
              then (ier, 2 ^ 32 - 1) ∷ (iar, 2 ^ 32 - 1) ∷ (mer, 0) ∷ s.writes
              else s.writes)))
      × ((c : InterruptControl)
          → (initialise_interrupt_control dma allocated irq s).0 ≡ ok c
          → (c.dma ≡ dma)
            × ((i : ℕ) → (c.events i ≡ 0) × (c.active_readers i ≡ false))
            × (c.writes ≡ (mer, 3) ∷ (ier, 2 ^ 32 - 1) ∷ (iar, 2 ^ 32 - 1) ∷ (mer, 0) ∷ s.writes)
            × (terminate_interrupt_control (initialise_interrupt_control dma allocated irq s).1
                ≡ record { writes = (mer, 0) ∷ c.writes; held = s.held }))
unfolding initialise_interrupt_control
initialise_interrupt_control_lem dma true (ok u) s = (
  (λ e h. cc),
  (λ c h. (
    ground (arith, h),
    (λ i. (ground (arith, h), ground (arith, h))),
    ground (arith, h),
    ground (arith, h),
  )),
)
initialise_interrupt_control_lem dma true (err x) s = ((λ e h. (refl, refl)), (λ c h. cc))
initialise_interrupt_control_lem dma false irq s = ((λ e h. (refl, refl)), (λ c h. cc))

pub initialise_interrupt_control-held :
    (dma : Option Dma) (allocated : Bool) (irq : Result (Unit {0})) (s : IrqSetup)
    → ((e : Errno)
        → (initialise_interrupt_control dma allocated irq s).0 ≡ err e
        → (initialise_interrupt_control dma allocated irq s).1.held ≡ s.held)
      × ((c : InterruptControl)
          → (initialise_interrupt_control dma allocated irq s).0 ≡ ok c
          → (initialise_interrupt_control dma allocated irq s).1.held
            ≡ irq_line ∷ interrupt_state ∷ s.held)
unfolding initialise_interrupt_control
initialise_interrupt_control-held dma true (ok u) s = ((λ e h. cc), (λ c h. refl))
initialise_interrupt_control-held dma true (err x) s = ((λ e h. refl), (λ c h. cc))
initialise_interrupt_control-held dma false irq s = ((λ e h. refl), (λ c h. cc))
