-- ===== src/Dma.antt =====
-- driver/dma_control.c: the Xilinx DMA controller. The card's registers are the last values
-- written; a write of `btt` starts a transfer, which the parameter `engine` carries out on the
-- memory that both ends address. What the controller and the kernel answer during one operation is
-- the record `Answers`.
pub mod Laws
pub mod Setup
pub mod Ladder
mod Tests
use amc_pci_dev.Prelude.{
  ℕ, ◌+◌, ◌*◌, ◌/◌, ◌%◌, ◌^◌, Bool, true, false, not, ◌&&◌, ◌||◌, ltb, ◌==◌, if◌then◌else◌, List,
  [], ◌∷◌, u32, bit_and, bit_or, low_bits, is_aligned, Errno, eio, einval, erestartsys,
}
use amc_pci_dev.Prelude.Op.{Op, pure, fail, modify, require, ◌>>=◌, ◌>>◌}

-- The registers of `struct axi_dma_controller` that the driver uses.
pub data Register : Type 0 where
  cdmacr cdmasr sa sa_msb da da_msb btt : Register

-- `struct dma_control` without the handles of other objects.
pub record DmaControl : Type 0 where
  pub buffer_shift : ℕ
  pub buffer_size : ℕ
  pub buffer_dma : ℕ
  pub alignment : ℕ
  pub max_transfer : ℕ

pub record Transfer : Type 0 where
  pub src : ℕ
  pub dst : ℕ
  pub count : ℕ

-- The state that the operations change; `memory` is what the transfers read and write, and the
-- buffer is its part from `buffer_dma` on.
pub record Dma : Type 0 where
  pub source : ℕ
  pub source_msb : ℕ
  pub dest : ℕ
  pub dest_msb : ℕ
  pub memory : ℕ → ℕ
  -- register writes, the last one first
  pub writes : List (Register × ℕ)
  -- transfers started, the last one first
  pub transfers : List Transfer
  -- `dma_done` is completed
  pub done : Bool
  -- the mutex is held
  pub locked : Bool

-- Register values that are read during an operation, and whether the completion interrupt comes
-- before the waiting process is killed.
pub record Answers : Type 0 where
  pub status : ℕ
  pub first_poll : ℕ
  pub more_polls : List ℕ
  pub completes : Bool
  pub irq_status : ℕ
  pub status_after : ℕ

abbrev pub cdmacr_err_irq_en : ℕ
cdmacr_err_irq_en = 2 ^ 14

abbrev pub cdmacr_irq_en : ℕ
cdmacr_irq_en = 2 ^ 12

abbrev pub cdmacr_reset : ℕ
cdmacr_reset = 2 ^ 2

-- CDMASR_DMADecErr | CDMASR_DMASlvErr | CDMASR_DMAIntErr
abbrev pub cdmasr_errors : ℕ
cdmasr_errors = bit_or (2 ^ 6) (bit_or (2 ^ 5) (2 ^ 4))

abbrev pub cdmasr_idle : ℕ
cdmasr_idle = 2 ^ 1

abbrev pub has_bits : ℕ → ℕ → Bool
has_bits value mask = not (bit_and value mask == 0)

-- `enum dma_data_direction`
pub data Direction : Type 0 where
  dma_bidirectional dma_to_device dma_from_device dma_none : Direction

-- The polling loop of the reset: it ends when the bit is clear, or with the last value read before
-- the deadline.
pub poll_reset : ℕ → List ℕ → ℕ
poll_reset reset_stat [] = reset_stat
poll_reset reset_stat (x ∷ xs) =
    if has_bits reset_stat cdmacr_reset then poll_reset x xs else reset_stat

module _ (engine : Transfer → (ℕ → ℕ) → ℕ → ℕ) where
  abbrev pub start_transfer : ℕ → Dma → Dma
  start_transfer count s =
      let t : Transfer = record {
        src = s.source + 2 ^ 32 * s.source_msb;
        dst = s.dest + 2 ^ 32 * s.dest_msb;
        count = count;
      } in
      record s { memory = engine t s.memory; transfers = t ∷ s.transfers }

  -- What a write does to the card.
  abbrev pub put : Register → ℕ → Dma → Dma
  put cdmacr value s = s
  put cdmasr value s = s
  put sa value s = record s { source = value }
  put sa_msb value s = record s { source_msb = value }
  put da value s = record s { dest = value }
  put da_msb value s = record s { dest_msb = value }
  put btt value s = start_transfer value s

  abbrev pub logged : Register → ℕ → Dma → Dma
  logged r value s = record s { writes = (r, value) ∷ s.writes }

  abbrev pub writel : ℕ → Register → Op Dma (Unit {0})
  writel value r = modify (λ s. put r value (logged r value s))

  pub reset_dma_controller : Answers → Op Dma (Unit {0})
  unfolding poll_reset
  reset_dma_controller a = do
    writel cdmacr_reset cdmacr
    require (not (has_bits (poll_reset a.first_poll a.more_polls) cdmacr_reset)) eio
    writel (bit_or cdmacr_irq_en cdmacr_err_irq_en) cdmacr

  abbrev pub check_dma_status : Answers → Op Dma (Unit {0})
  check_dma_status a = require (not (has_bits a.status_after cdmasr_errors)) eio

  pub maybe_reset_dma : Answers → Op Dma (Unit {0})
  unfolding reset_dma_controller
  maybe_reset_dma a =
      if has_bits a.status cdmasr_errors || not (has_bits a.status cdmasr_idle)
      then reset_dma_controller a
      else pure tt

  -- Acknowledges what it reads, and completes `dma_done`.
  abbrev pub dma_interrupt : ℕ → Op Dma (Unit {0})
  dma_interrupt status = do writel status cdmasr; modify (λ s. record s { done = true })

  module _ (dma : DmaControl) where
    unfoldable pub configure_dma_engine : Answers → ℕ → ℕ → ℕ → Op Dma (Unit {0})
    unfolding maybe_reset_dma
    configure_dma_engine a src dst count = do
      require
          (is_aligned src dma.alignment
            && is_aligned dst dma.alignment
            && is_aligned count dma.alignment)
          einval
      maybe_reset_dma a
      writel (u32 (src / 2 ^ 32)) sa_msb
      writel (u32 src) sa
      writel (u32 dst) da
      writel (u32 (dst / 2 ^ 32)) da_msb
      writel (u32 count) btt

    -- `wait_for_completion_killable`. The transfer was carried out as a whole when it was started,
    -- so that a killed wait leaves the memory that its end would leave; that it still runs then,
    -- and may write to the buffer behind the release of the mutex, is not modelled.
    abbrev pub wait_for_completion : Answers → Op Dma (Unit {0})
    wait_for_completion a =
        if a.completes
        then (do dma_interrupt a.irq_status; modify (λ s. record s { done = false }))
        else fail erestartsys

    abbrev pub configure : Answers → Direction → ℕ → ℕ → Op Dma (Unit {0})
    configure a dma_to_device start count = configure_dma_engine a dma.buffer_dma start count
    configure a dma_from_device start count = configure_dma_engine a start dma.buffer_dma count
    configure a _ start count = fail einval

    -- The `dma_sync_single_*` calls only hand the buffer over between caches.
    unfoldable pub dma_operation_unlocked : Answers → ℕ → ℕ → Direction → Op Dma ℕ
    dma_operation_unlocked a start requested dir =
        let count = if ltb dma.max_transfer requested then dma.max_transfer else requested in
        do
          modify (λ s. record s { done = false })
          configure a dir start count
          wait_for_completion a
          check_dma_status a
          pure count

abbrev pub dma_memory_lock : Op Dma (Unit {0})
dma_memory_lock = modify (λ s. record s { locked = true })

abbrev pub dma_memory_unlock : Dma → Dma
dma_memory_unlock s = record s { locked = false }
