-- ===== src/Memory/Progress.antt =====
-- `amc_pci_dma_read` of driver/memory.c on a healthy card: the read returns bytes.
use amc_pci_dev.Prelude.{ℕ, ◌+◌, ◌-◌, ◌%◌, ◌≤◌, ◌<◌, ◌≡◌, true, false, ◌∙◌}
use native.Mathlib.Nat.{add-mod, zero-mod}
use amc_pci_dev.Dma.{Dma, Transfer, Answers, has_bits, cdmasr_errors}
use amc_pci_dev.Dma.Laws.{is_ready}
use amc_pci_dev.Memory.{MemoryContext, File, Copy}
use amc_pci_dev.Memory.Plan.{IsArea, max_rw_count}
use amc_pci_dev.Memory.Lock.{Copies, CopiesTo}
use amc_pci_dev.Memory.Reading.{read_transfer}

-- The controller is ready or resets, completes the transfer, and reports no error.
pub record IsHealthy (a : Answers) : Type 0 where
  pub ready : is_ready a ≡ true
  pub completes : a.completes ≡ true
  pub no_errors : has_bits a.status_after cdmasr_errors ≡ false

-- Area and buffer begin at a multiple of the alignment, one unit fits a transfer, and the unit that
-- holds the position lies whole in the area.
pub record IsReadable (context : MemoryContext) (pos : ℕ) : Type 0 where
  pub base : context.base % context.dma.alignment ≡ 0
  pub buffer : context.dma.buffer_dma % context.dma.alignment ≡ 0
  pub unit : context.dma.alignment ≤ context.dma.max_transfer
  pub whole : pos - pos % context.dma.alignment + context.dma.alignment ≤ context.length

-- A sum of multiples.
pub sum_multiples : (x y n : ℕ) → x % n ≡ 0 → y % n ≡ 0 → (x + y) % n ≡ 0
sum_multiples x y n h k = add-mod x y n ∙ rw (h, k) (zero-mod n)

module _ (engine : Transfer → (ℕ → ℕ) → ℕ → ℕ) (copy_from_user copy_to_user : Copy)
    (context : MemoryContext) (a : Answers) (copies : Copies engine) (to : CopiesTo copy_to_user)
    (v : IsArea context) (count : ℕ) (sane : count ≤ max_rw_count) (s : File)
    (healthy : IsHealthy a) (readable : IsReadable context s.f_pos) (some_wanted : 0 < count)
    (all : (src n : ℕ) (memory user : ℕ → ℕ) → (copy_to_user src n memory user).0 ≡ 0) where
  abbrev unit : ℕ
  unit = context.dma.alignment

  abbrev xfer : Transfer
  xfer = read_transfer engine copy_from_user copy_to_user context a copies to v count sane s
