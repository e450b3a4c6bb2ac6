-- ===== src/Dma/Setup.antt =====
-- `initialise_dma_control` and `terminate_dma_control` of driver/dma_control.c.
use amc_pci_dev.Prelude.{
  ℕ, ◌-◌, ◌^◌, min, Bool, leb, if◌then◌else◌, align_down, Result, ok, err, eio, einval, enomem,
}
use amc_pci_dev.Prelude.Op.{Op, pure, lift, require, on_error, ◌>>=◌, ◌>>◌}
use amc_pci_dev.Dma.{Dma, DmaControl, Transfer, Answers, reset_dma_controller}
use amc_pci_dev.Resources.{Resource, Held, acquire, release, dma_state, dma_pages, dma_mapping}

abbrev pub page_shift : ℕ
page_shift = 12

abbrev pub max_dma_transfer : ℕ
max_dma_transfer = 2 ^ 23 - 1

-- What the kernel answers.
pub record SetupAnswers : Type 0 where
  -- `dma_set_mask`, of the number of bits of the mask
  pub set_mask : ℕ → Result (Unit {0})
  pub allocated : Bool
  pub pages : Bool
  -- the DMA address of the buffer, if it can be mapped
  pub mapped : Result ℕ

-- The card, and what the driver holds.
pub record Setup : Type 0 where
  pub card : Dma
  pub held : Held

abbrev with_held : {A : Type 0} → Result A × Held → Setup → Result A × Setup
with_held (r, held) s = (r, record s { held = held })

abbrev pub hold : {A : Type 0} → Op Held A → Op Setup A
hold m s = with_held (m s.held) s

abbrev with_card : {A : Type 0} → Result A × Dma → Setup → Result A × Setup
with_card (r, card) s = (r, record s { card = card })

abbrev pub on_card : {A : Type 0} → Op Dma A → Op Setup A
on_card m s = with_card (m s.card) s

abbrev pub drop : Resource → Setup → Setup
drop r s = record s { held = release r s.held }

-- `TEST_OK(!dma_mapping_error(…), rc = -EIO, …)`
abbrev pub mapping : Result ℕ → Result ℕ
mapping (ok b) = ok b
mapping (err e) = err eio

abbrev pub alloc : Bool → Result (Unit {0})
alloc b = if b then ok tt else err enomem

abbrev pub control_of : ℕ → ℕ → ℕ → DmaControl
control_of dma_block_shift dma_alignment_shift buffer_dma = record {
  buffer_shift = dma_block_shift;
  buffer_size = 2 ^ dma_block_shift;
  buffer_dma = buffer_dma;
  alignment = 2 ^ dma_alignment_shift;
  max_transfer = align_down (min max_dma_transfer (2 ^ dma_block_shift)) (2 ^ dma_alignment_shift);
}

module _ (engine : Transfer → (ℕ → ℕ) → ℕ → ℕ) (a : SetupAnswers) (r : Answers)
    (dma_block_shift dma_mask dma_alignment_shift : ℕ) where
  -- From the label `no_dma_map` back to the top: what fails is followed by giving back what was
  -- acquired before it.
  abbrev pub reset_mapped : ℕ → Op Setup DmaControl
  reset_mapped buffer_dma =
      on_error
        (do
          on_card (reset_dma_controller engine r)
          pure (control_of dma_block_shift dma_alignment_shift buffer_dma))
        (drop dma_mapping)

  abbrev pub map_buffer : Op Setup DmaControl
  map_buffer =
      on_error
        (do buffer_dma ← hold (acquire dma_mapping (mapping a.mapped)); reset_mapped buffer_dma)
        (drop dma_pages)

  abbrev pub allocate_buffer : Op Setup DmaControl
  allocate_buffer =
      on_error (do hold (acquire dma_pages (alloc a.pages)); map_buffer) (drop dma_state)

  unfoldable pub initialise_dma_control : Op Setup DmaControl
  initialise_dma_control = do
    require (leb page_shift dma_block_shift) einval
    lift (a.set_mask dma_mask)
    hold (acquire dma_state (alloc a.allocated))
    allocate_buffer

abbrev pub terminate_dma_control : Held → Held
terminate_dma_control held = release dma_state (release dma_pages (release dma_mapping held))
