-- ===== src/Core/Board.antt =====
-- `enable_board`, `initialise_board` and the functions that undo them, of driver/amc_pci_core.c.
use amc_pci_dev.Prelude.{
  ℕ, ◌+◌, Bool, not, leb, ◌==◌, if◌then◌else◌, Option, none, some, List, Result, ok, err, enomem,
  e2big, einval,
}
use amc_pci_dev.Prelude.Op.{Op, pure, require, on_error, ◌>>=◌, ◌>>◌}
use amc_pci_dev.Prom.{PromContext, prom_dma_align_tag, prom_dma_mask_tag}
use amc_pci_dev.Prom.Entries.{prom_find_entry_by_tag, mask_at, shift_at}
use amc_pci_dev.Prom.Load.{load_prom}
use amc_pci_dev.Dma.{Dma, DmaControl, Transfer, Answers}
use amc_pci_dev.Dma.Setup.{Setup, SetupAnswers, initialise_dma_control, terminate_dma_control}
use amc_pci_dev.Interrupts.{InterruptControl, Intc}
use amc_pci_dev.Interrupts.Setup.{
  IrqSetup, initialise_interrupt_control, terminate_interrupt_control,
}
use amc_pci_dev.Resources.{
  Resource, Held, acquire, release, enabled_device, regions, bus_master, msi, bar2, prom_data,
}

-- The DMA controller, the writes to the interrupt controller, and what the driver holds.
pub record Board : Type 0 where
  pub card : Dma
  pub writes : List (Intc × ℕ)
  pub held : Held

abbrev with_held : {A : Type 0} → Result A × Held → Board → Result A × Board
with_held (r, held) s = (r, record s { held = held })

abbrev pub hold : {A : Type 0} → Op Held A → Op Board A
hold m s = with_held (m s.held) s

abbrev pub drop : Resource → Board → Board
drop r s = record s { held = release r s.held }

abbrev with_dma : {A : Type 0} → Result A × Setup → Board → Result A × Board
with_dma (r, d) s = (r, record s { card = d.card; held = d.held })

abbrev pub on_dma : {A : Type 0} → Op Setup A → Op Board A
on_dma m s = with_dma (m (record { card = s.card; held = s.held })) s

abbrev with_irq : {A : Type 0} → Result A × IrqSetup → Board → Result A × Board
with_irq (r, i) s = (r, record s { writes = i.writes; held = i.held })

abbrev pub on_irq : {A : Type 0} → Op IrqSetup A → Op Board A
on_irq m s = with_irq (m (record { writes = s.writes; held = s.held })) s

abbrev pub terminated_irq : IrqSetup → Board → Board
terminated_irq i s = record s { writes = i.writes; held = i.held }

-- What the calls of `enable_board` return.
unfoldable pub enable_board :
    Result (Unit {0}) → Result (Unit {0}) → Result (Unit {0}) → Op Board (Unit {0})
enable_board enabled requested msi_enabled = do
  hold (acquire enabled_device enabled)
  on_error
      (do
        hold (acquire regions requested)
        hold (acquire bus_master (ok tt))
        on_error (hold (acquire msi msi_enabled)) (λ s. drop regions (drop bus_master s)))
      (drop enabled_device)

abbrev pub disable_board : Board → Board
disable_board s = drop enabled_device (drop regions (drop bus_master (drop msi s)))

abbrev pub bar2_length : ℕ
bar2_length = 16384

abbrev pub max_minors_per_board : ℕ
max_minors_per_board = 16

abbrev pub dma_default_alignment_shift : ℕ
dma_default_alignment_shift = 5

-- What the kernel and the card answer, beside what `load_prom` reads.
pub record BoardAnswers : Type 0 where
  -- as the driver reads it into an `int`, below 2 GiB
  pub bar2_len : ℕ
  -- the address of BAR2, if it can be mapped
  pub mapped : Result ℕ
  pub prom_allocated : Bool
  pub dma : SetupAnswers
  pub reset : Answers
  pub irq_allocated : Bool
  pub irq : Result (Unit {0})

-- The parts of `struct amc_pci` that are set up.
pub record Parts : Type 0 where
  pub prom : PromContext
  pub dma : Option DmaControl
  pub interrupts : InterruptControl

abbrev pub dma_default_mask : ℕ
dma_default_mask = 47

abbrev pub dma_mask : PromContext → ℕ
dma_mask prom = elim (prom_find_entry_by_tag prom prom_dma_mask_tag) [
  | none ↦ dma_default_mask
  | some entry ↦ mask_at prom.buff entry
]

abbrev pub alignment_shift : PromContext → ℕ
alignment_shift prom = elim (prom_find_entry_by_tag prom prom_dma_align_tag) [
  | none ↦ dma_default_alignment_shift
  | some entry ↦ shift_at prom.buff entry
]

abbrev pub prom_offset : ℕ
prom_offset = 0x2000

-- `pci_iomap`, whose NULL is -ENOMEM.
abbrev pub iomapped : Result ℕ → Result ℕ
iomapped (ok b) = ok b
iomapped (err e) = err enomem

abbrev pub uses_dma : PromContext → Bool
uses_dma prom = not (prom.dma_nentries == 0)

module _ (default_prom : List ℕ) (beyond ioread32 : ℕ → ℕ) (engine : Transfer → (ℕ → ℕ) → ℕ → ℕ)
    (block_shift : ℕ) (a : BoardAnswers) where
  -- The DMA controller, on a card that has a DMA area.
  abbrev pub start_dma : PromContext → Op Board (Option DmaControl)
  start_dma prom =
      if uses_dma prom
      then (do
        dma ← on_dma (
            initialise_dma_control engine a.dma a.reset block_shift (dma_mask prom)
              (alignment_shift prom))
        pure (some dma))
      else pure none

  -- The labels `no_irq` and `no_minor`.
  abbrev pub undo_irq : PromContext → Board → Board
  undo_irq prom s =
      drop prom_data (if uses_dma prom then record s { held = terminate_dma_control s.held } else s)

  -- The label `no_irq`; what handle the interrupts get of the DMA controller is its state.
  abbrev pub start_irq : PromContext → Option DmaControl → Op Board Parts
  start_irq prom dma =
      on_error
        (do
          interrupts ← (λ s.
              on_irq
                (initialise_interrupt_control (if uses_dma prom then some s.card else none)
                  a.irq_allocated a.irq)
                s)
          pure (record { prom = prom; dma = dma; interrupts = interrupts }))
        (undo_irq prom)

  -- Too many entries end at `no_minor`; an error of the DMA setup goes to `no_dma`, behind the
  -- release of the PROM.
  abbrev pub start_parts : PromContext → Op Board Parts
  start_parts prom = do
    on_error (require (leb prom.nentries max_minors_per_board) e2big) (drop prom_data)
    dma ← start_dma prom
    start_irq prom dma

  unfoldable pub initialise_board : Op Board Parts
  initialise_board = do
    require (leb bar2_length a.bar2_len) einval
    ctrl_memory ← hold (acquire bar2 (iomapped a.mapped))
    on_error
        (do
          prom ← hold (
              acquire prom_data (
                load_prom default_prom beyond ioread32 a.prom_allocated
                  (ctrl_memory + prom_offset)))
          start_parts prom)
        (drop bar2)

abbrev pub terminate_board : PromContext → Board → Board
terminate_board prom s =
    let t =
      terminated_irq (terminate_interrupt_control (record { writes = s.writes; held = s.held }))
        s in
    drop bar2 (
      drop prom_data
        (if uses_dma prom then record t { held = terminate_dma_control t.held } else t))
