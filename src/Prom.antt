-- ===== src/Prom.antt =====
-- driver/prom_processing.h and driver/prom_processing.c: the identity PROM. A pointer to an entry
-- is an offset into `buff`; offsets from 4097 on lie beyond the array, in memory that the model
-- knows nothing of.
pub mod Entries
pub mod Read
pub mod Load
pub mod Chain
pub mod Scanning
pub mod Image
pub mod Loading
pub mod Corruption
pub mod Find
pub mod Minors
pub mod Tests
use amc_pci_dev.Prelude.{ℕ, ◌+◌, ◌*◌, ◌^◌, Bool, ◌||◌, ◌==◌, bit_and, if◌then◌else◌, not}

abbrev pub prom_end_tag : ℕ
prom_end_tag = 0

abbrev pub prom_device_tag : ℕ
prom_device_tag = 1

abbrev pub prom_dma_tag : ℕ
prom_dma_tag = 2

abbrev pub prom_dma_ext_tag : ℕ
prom_dma_ext_tag = 3

abbrev pub prom_dma_mask_tag : ℕ
prom_dma_mask_tag = 4

abbrev pub prom_dma_align_tag : ℕ
prom_dma_align_tag = 5

abbrev pub prom_max_length : ℕ
prom_max_length = 4096

abbrev pub prom_version : ℕ
prom_version = 1

abbrev pub prom_first_entry_offset : ℕ
prom_first_entry_offset = 5

abbrev pub prom_version_offset : ℕ
prom_version_offset = 4

abbrev pub prom_checksum_size : ℕ
prom_checksum_size = 2

-- `struct prom_context`; `buff` has `prom_max_length + 1` bytes.
pub record PromContext : Type 0 where
  pub base : ℕ
  pub buff : ℕ → ℕ
  pub data_len : ℕ
  pub nentries : ℕ
  pub dma_nentries : ℕ
  pub nentries_with_minor : ℕ

-- `entry->tag` and `entry->size`
abbrev pub tag_at : (ℕ → ℕ) → ℕ → ℕ
tag_at buff entry = buff entry

abbrev pub size_at : (ℕ → ℕ) → ℕ → ℕ
size_at buff entry = buff (entry + 1)

abbrev pub prom_entry_needs_minor : (ℕ → ℕ) → ℕ → Bool
prom_entry_needs_minor buff entry =
    tag_at buff entry == prom_device_tag
    || tag_at buff entry == prom_dma_tag
    || tag_at buff entry == prom_dma_ext_tag

-- `PROM_PERM_CAN_WRITE` and `PROM_PERM_CAN_READ`, as truth values
abbrev pub prom_perm_can_write : ℕ → Bool
prom_perm_can_write perm = not (bit_and perm 2 == 0)

abbrev pub prom_perm_can_read : ℕ → Bool
prom_perm_can_read perm = not (bit_and perm 4 == 0)
