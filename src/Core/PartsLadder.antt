-- ===== src/Core/PartsLadder.antt =====
-- What the parts of `initialise_board` of driver/amc_pci_core.c leave behind.
use amc_pci_dev.Prelude.{
  ℕ, ◌≡◌, arith, true, leb, if◌then◌else◌, Option, none, some, List, ◌∷◌, Result, ok, err, Errno,
  Bool-cases, Result-cases, inl, inr, ◌⊎◌,
}
use amc_pci_dev.Prom.{PromContext}
use amc_pci_dev.Dma.{Dma, DmaControl, Transfer}
use amc_pci_dev.Dma.Setup.{Setup, initialise_dma_control, terminate_dma_control}
use amc_pci_dev.Dma.Ladder.{initialise_dma_control-held}
use amc_pci_dev.Interrupts.{InterruptControl}
use amc_pci_dev.Interrupts.Setup.{IrqSetup, initialise_interrupt_control}
use amc_pci_dev.Interrupts.Ladder.{initialise_interrupt_control-held}
use amc_pci_dev.Resources.{
  Held, release, prom_data, interrupt_state, irq_line, dma_state, dma_pages, dma_mapping,
}
use amc_pci_dev.Core.Board.{
  Board, BoardAnswers, Parts, start_dma, start_irq, start_parts, uses_dma, dma_mask,
  alignment_shift,
}

-- What the DMA controller takes, if the card uses it.
abbrev pub dma_held : PromContext → Held → Held
dma_held prom held = if uses_dma prom then dma_mapping ∷ dma_pages ∷ dma_state ∷ held else held

-- The setup of the DMA controller of a card fails with this error.
abbrev pub DmaFails :
    (Transfer → (ℕ → ℕ) → ℕ → ℕ) → ℕ → BoardAnswers → PromContext → Dma → Held → Errno → Type 0
DmaFails engine block_shift a prom card held e =
    (initialise_dma_control engine a.dma a.reset block_shift (dma_mask prom) (alignment_shift prom)
      (record { card = card; held = held })).0
    ≡ err e

module _ (default_prom : List ℕ) (beyond ioread32 : ℕ → ℕ) (engine : Transfer → (ℕ → ℕ) → ℕ → ℕ)
    (block_shift : ℕ) (a : BoardAnswers) where
  abbrev irq_done : PromContext → Option DmaControl → Board → Result Parts × Board
  irq_done prom dma s = start_irq default_prom beyond ioread32 engine block_shift a prom dma s

  start_irq_lem :
      (prom : PromContext) (dma : Option DmaControl) (s : Board)
      → ((e : Errno)
          → (irq_done prom dma s).0 ≡ err e
          → (irq_done prom dma s).1.held
            ≡ release prom_data (if uses_dma prom then terminate_dma_control s.held else s.held))
        × ((p : Parts)
            → (irq_done prom dma s).0 ≡ ok p
            → (p.prom ≡ prom)
              × ((irq_done prom dma s).1.held ≡ irq_line ∷ interrupt_state ∷ s.held))
  start_irq_lem prom dma s = elim (Result-cases (init.0)) [
    | inl (c, good) ↦ (
      (λ e h. absurd (ground (arith, h, good))),
      (λ p h. (ground (arith, h, good), ground (arith, good, facts.1 c good))),
    )
    | inr (x, bad) ↦
        ((λ e h. ground (arith, bad, facts.0 x bad)), (λ p h. absurd (ground (arith, h, bad))))
  ]
    where
      handle : Option Dma
      handle = if uses_dma prom then some s.card else none

      before : IrqSetup
      before = record { writes = s.writes; held = s.held }

      init : Result InterruptControl × IrqSetup
      init = initialise_interrupt_control handle a.irq_allocated a.irq before

      facts :
          ((e : Errno) → init.0 ≡ err e → init.1.held ≡ s.held)
          × ((c : InterruptControl)
              → init.0 ≡ ok c
              → init.1.held ≡ irq_line ∷ interrupt_state ∷ s.held)
      facts = initialise_interrupt_control-held handle a.irq_allocated a.irq before

  abbrev dma_done : PromContext → Board → Result (Option DmaControl) × Board
  dma_done prom s = start_dma default_prom beyond ioread32 engine block_shift a prom s

  start_dma_lem :
      (prom : PromContext) (s : Board)
      → ((e : Errno)
          → (dma_done prom s).0 ≡ err e
          → (uses_dma prom ≡ true)
            × DmaFails engine block_shift a prom s.card s.held e
            × ((dma_done prom s).1.held ≡ s.held))
        × ((d : Option DmaControl)
            → (dma_done prom s).0 ≡ ok d
            → (dma_done prom s).1.held ≡ dma_held prom s.held)
  start_dma_lem prom s = elim (Bool-cases (uses_dma prom)) [
    | inl used ↦ elim (Result-cases (init.0)) [
      | inl (c, good) ↦ (
        (λ e h. absurd (ground (arith, h, used, good))),
        (λ d h. ground (arith, used, good, facts.1 c good)),
      )
      | inr (x, bad) ↦ (
        (λ e h. (used, ground (arith, h, used, bad), ground (arith, used, bad, facts.0 x bad))),
        (λ d h. absurd (ground (arith, h, used, bad))),
      )
    ]
    | inr unused ↦ ((λ e h. absurd (ground (arith, h, unused))), (λ d h. ground (arith, unused)))
  ]
    where
      before : Setup
      before = record { card = s.card; held = s.held }

      init : Result DmaControl × Setup
      init =
          initialise_dma_control engine a.dma a.reset block_shift (dma_mask prom)
            (alignment_shift prom) before

      facts :
          ((e : Errno) → init.0 ≡ err e → init.1.held ≡ s.held)
          × ((c : DmaControl)
              → init.0 ≡ ok c
              → init.1.held ≡ dma_mapping ∷ dma_pages ∷ dma_state ∷ s.held)
      facts =
          initialise_dma_control-held engine a.dma a.reset block_shift (dma_mask prom)
            (alignment_shift prom) before

  abbrev parts_done : PromContext → Board → Result Parts × Board
  parts_done prom s = start_parts default_prom beyond ioread32 engine block_shift a prom s

  pub start_parts_lem :
      (prom : PromContext) (s : Board) (held : Held)
      → s.held ≡ prom_data ∷ held
      → ((e : Errno)
          → (parts_done prom s).0 ≡ err e
          → ((parts_done prom s).1.held ≡ held)
            ⊎ ((uses_dma prom ≡ true)
                × DmaFails engine block_shift a prom s.card s.held e
                × ((parts_done prom s).1.held ≡ prom_data ∷ held)))
        × ((p : Parts)
            → (parts_done prom s).0 ≡ ok p
            → (p.prom ≡ prom)
              × ((parts_done prom s).1.held
                  ≡ irq_line ∷ interrupt_state ∷ dma_held prom (prom_data ∷ held)))
  start_parts_lem prom s held at = elim (Bool-cases (leb prom.nentries 16)) [
    | inr many ↦
        ((λ e h. inl (ground (arith, many, at))), (λ p h. absurd (ground (arith, h, many))))
    | inl few ↦ elim (Result-cases (dma_done prom s).0) [
      | inr (x, bad) ↦ (
        (λ e h.
            let same : (dma_done prom s).0 ≡ err e = ground (arith, h, few, bad) in
            let f = d.0 e same in inr (f.0, f.1, ground (arith, few, bad, f.2, at))),
        (λ p h. absurd (ground (arith, h, few, bad))),
      )
      | inl (c, good) ↦
          let i = start_irq_lem prom c (dma_done prom s).1 in
          (
            (λ e h.
                inl (
                  ground (arith, few, good, at, d.1 c good, i.0 e (ground (arith, h, few, good))))),
            (λ p h.
                ground (arith, few, good, at, d.1 c good, i.1 p (ground (arith, h, few, good)))),
          )
    ]
  ]
    where
      d :
          ((e : Errno)
            → (dma_done prom s).0 ≡ err e
            → (uses_dma prom ≡ true)
              × DmaFails engine block_shift a prom s.card s.held e
              × ((dma_done prom s).1.held ≡ s.held))
          × ((c : Option DmaControl)
              → (dma_done prom s).0 ≡ ok c
              → (dma_done prom s).1.held ≡ dma_held prom s.held)
      d = start_dma_lem prom s
