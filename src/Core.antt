-- ===== src/Core.antt =====
-- driver/amc_pci_core.c: what an open of a device file does, and the count of the users of a card.
pub mod Opening
pub mod Lifetime
pub mod Numbers
pub mod Board
pub mod PartsLadder
pub mod BoardLadder
pub mod Nodes
pub mod NodeNames
pub mod NodeLaws
pub mod NodeTrips
pub mod NodesLeft
pub mod Probe
pub mod FilesLadder
pub mod ProbeLadder
pub mod Probing
mod Tests
mod SetupTests
use amc_pci_dev.Prelude.{
  ℕ, ◌+◌, ◌-◌, ◌*◌, ◌^◌, bit_or, Bool, true, false, not, ◌&&◌, ◌||◌, ltb, ◌==◌, if◌then◌else◌,
  Option, none, some, Result, ok, err, enxio, eacces, einval,
}
use amc_pci_dev.Prelude.Op.{Op, pure, fail, on_error, ◌>>=◌, ◌>>◌}
use amc_pci_dev.Prom.{
  PromContext, tag_at, prom_device_tag, prom_dma_tag, prom_dma_ext_tag, prom_perm_can_read,
  prom_perm_can_write,
}
use amc_pci_dev.Prom.Entries.{
  prom_find_entry_with_minor, dma_base_at, dma_length_at, dma_perm_at, dma_ext_base_at,
  dma_ext_length_at, dma_ext_perm_at,
}
use amc_pci_dev.Dma.{DmaControl}
use amc_pci_dev.Memory.{MemoryContext, amc_pci_dma_open}
use amc_pci_dev.Registers.{Registers, RegisterContext, amc_pci_reg_open}

-- `struct amc_pci`, with the registers' shared state. `dma` is set on a card whose PROM has a DMA
-- entry, and only read for such an entry.
pub record AmcPci : Type 0 where
  pub minor : ℕ
  pub refcount : ℕ
  pub completed : Bool
  pub registers : Registers
  pub dma : DmaControl
  pub prom : PromContext

-- `file->f_flags & O_ACCMODE`
pub data AccessMode : Type 0 where
  o_rdonly o_wronly o_rdwr o_accmode : AccessMode

abbrev pub is_rdonly : AccessMode → Bool
is_rdonly o_rdonly = true
is_rdonly _ = false

abbrev pub is_wronly : AccessMode → Bool
is_wronly o_wronly = true
is_wronly _ = false

abbrev pub is_rdwr : AccessMode → Bool
is_rdwr o_rdwr = true
is_rdwr _ = false

abbrev pub validate_file_permission : AccessMode → Bool → Bool → Bool
validate_file_permission mode can_read can_write =
    if can_read && is_rdonly mode
    then true
    else if can_write && is_wronly mode
    then true
    else if can_read && can_write && is_rdwr mode
    then true
    else false

-- `file->private_data`, with the operations that go with it.
pub data FileData : Type 0 where
  register_file : RegisterContext → FileData
  dma_file : MemoryContext → FileData

-- `atomic_dec_and_test`, and the completion of the last user.
unfoldable pub amc_pci_release : AmcPci → AmcPci
amc_pci_release s = record s {
  refcount = s.refcount - 1;
  completed = s.completed || s.refcount == 1;
}

abbrev pub registers_opened : Result RegisterContext × Registers → Op AmcPci FileData
registers_opened (ok c, r) s = (ok (register_file c), record s { registers = r })
registers_opened (err e, r) s = (err e, record s { registers = r })

abbrev pub dma_opened : Result MemoryContext → Op AmcPci FileData
dma_opened (ok c) = pure (dma_file c)
dma_opened (err e) = fail e

abbrev pub is_some : Option ℕ → Bool
is_some none = false
is_some (some a) = true

-- The base of a DMA area, from its three halves of a word.
abbrev pub dma_base : (ℕ → ℕ) → ℕ → ℕ
dma_base buff entry =
    bit_or (bit_or (dma_base_at buff entry 0) (dma_base_at buff entry 1 * 2 ^ 16))
      (dma_base_at buff entry 2 * 2 ^ 32)

-- `allocated` is the address that `kmalloc` returns, `start` and `len` are those of BAR0.
module _ (mode : AccessMode) (allocated : Option ℕ) (start len : ℕ) where
  abbrev pub open_registers : Op AmcPci FileData
  open_registers s = registers_opened (amc_pci_reg_open allocated start len s.registers) s

  -- A DMA area of the given base, length and permissions.
  abbrev pub open_area : ℕ → ℕ → ℕ → Op AmcPci FileData
  open_area base length perm s =
      if not (validate_file_permission mode (prom_perm_can_read perm) (prom_perm_can_write perm))
      then (err eacces, s)
      else dma_opened (amc_pci_dma_open (is_some allocated) s.dma base length) s

  -- The `switch` on the tag of the entry.
  abbrev pub open_entry : (ℕ → ℕ) → ℕ → Op AmcPci FileData
  open_entry buff entry =
      let tag = tag_at buff entry in
      if tag == prom_device_tag
      then open_registers
      else if tag == prom_dma_tag
      then open_area (dma_base buff entry) (dma_length_at buff entry) (dma_perm_at buff entry)
      else (if tag == prom_dma_ext_tag
          then open_area (dma_ext_base_at buff entry) (dma_ext_length_at buff entry)
              (dma_ext_perm_at buff entry)
          else fail einval)

  abbrev pub open_minor : ℕ → Op AmcPci FileData
  open_minor minor_index s = elim (prom_find_entry_with_minor s.prom minor_index) [
    | none ↦ (err einval, s)
    | some entry ↦ open_entry s.prom.buff entry s
  ]

  -- The entry of `iminor - s.minor`, an `int`; where that is negative no entry is found.
  abbrev pub open_index : ℕ → Op AmcPci FileData
  open_index iminor s =
      if ltb iminor s.minor then (err einval, s) else open_minor (iminor - s.minor) s

  -- The minor number of the file is `iminor`.
  unfoldable pub amc_pci_open : ℕ → Op AmcPci FileData
  unfolding amc_pci_release
  amc_pci_open iminor s =
      if s.refcount == 0
      then (err enxio, s)
      else on_error (open_index iminor) amc_pci_release (record s { refcount = s.refcount + 1 })

-- `wait_for_clients` up to its wait: the driver itself is one of the users, as which it is counted
-- from the probe on.
abbrev pub drop_driver : AmcPci → AmcPci
drop_driver s = amc_pci_release s
