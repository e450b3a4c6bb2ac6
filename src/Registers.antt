-- ===== src/Registers.antt =====
-- driver/registers.c: the register file, its exclusive lock and its stream of events. What runs
-- under the mutex is one step. An open file is its `struct register_context`, known by its
-- address.
pub mod System
pub mod Invariant
pub mod Preserved
pub mod Stream
mod Tests
use amc_pci_dev.Prelude.{
  ℕ, ◌+◌, ◌-◌, ◌*◌, ◌/◌, ◌^◌, Bool, true, false, not, ◌&&◌, ltb, ◌==◌, if◌then◌else◌, Option, none,
  some, List, bit_or, u32, u64, sub64, Result, ok, err, eio, eagain, enomem, efault, ebusy, einval,
}
use amc_pci_dev.Prelude.Op.{Op, pure, fail, modify, require, on_error, ◌>>=◌, ◌>>◌}
use amc_pci_dev.Dma.{Transfer}
use amc_pci_dev.Interrupts.{
  InterruptControl, Action, Wakeup, acts, assign_reader_number, unassign_reader_number,
  interrupt_events_ready, read_interrupt_events,
}
use amc_pci_dev.Memory.{Ioctl, amc_map_size, amc_reg_lock, amc_reg_unlock}

-- `struct register_context`, with its address.
pub record RegisterContext : Type 0 where
  pub address : ℕ
  pub base_page : ℕ
  pub length : ℕ
  pub reader_number : ℕ

-- `struct register_locking`
pub record RegisterLocking : Type 0 where
  pub reference_count : ℕ
  pub locked_by : Option ℕ

-- What all register files of a card share.
pub record Registers : Type 0 where
  pub control : InterruptControl
  pub locking : RegisterLocking

abbrev pub page_shift : ℕ
page_shift = 12

abbrev pub slot_taken : Option ℕ × InterruptControl → Op Registers ℕ
slot_taken (none, c) s = (err eio, record s { control = c })
slot_taken (some n, c) s = (ok n, record s { control = c })

-- `TEST_OK(assign_reader_number(…), rc = -EIO, …)`
abbrev pub take_slot : Op Registers ℕ
take_slot s = slot_taken (assign_reader_number s.control) s

abbrev pub give_slot : ℕ → Registers → Registers
give_slot reader s = record s { control = unassign_reader_number reader s.control }

-- `kmalloc`: the address, if there is memory.
abbrev pub kmalloc : Option ℕ → Op Registers ℕ
kmalloc none = fail enomem
kmalloc (some address) = pure address

abbrev pub is_some : Option ℕ → Bool
is_some none = false
is_some (some a) = true

-- Checks the lock and counts the file in.
abbrev pub count_in : Op Registers (Unit {0})
count_in s = if is_some s.locking.locked_by then (err ebusy, s) else (
  ok tt,
  record s { locking = record s.locking { reference_count = u32 (s.locking.reference_count + 1) } },
)

-- The context, counted in. `start` and `len` are those of BAR0.
abbrev pub create_context : Option ℕ → ℕ → ℕ → ℕ → Op Registers RegisterContext
create_context allocated start len reader_number = do
  address ← kmalloc allocated
  count_in
  pure (record {
    address = address;
    base_page = start / 2 ^ page_shift;
    length = len;
    reader_number = reader_number;
  })

-- From the slot on; on an error the slot is given back.
abbrev pub open_slot : Option ℕ → ℕ → ℕ → ℕ → Op Registers RegisterContext
open_slot allocated start len reader_number =
    on_error (create_context allocated start len reader_number) (give_slot reader_number)

unfoldable pub amc_pci_reg_open : Option ℕ → ℕ → ℕ → Op Registers RegisterContext
amc_pci_reg_open allocated start len = do
  reader_number ← take_slot
  open_slot allocated start len reader_number

abbrev pub owns : RegisterContext → RegisterLocking → Bool
owns context locking = elim locking.locked_by [ none ↦ false | some a ↦ a == context.address ]

unfoldable pub amc_pci_reg_release : RegisterContext → Registers → Registers
amc_pci_reg_release context s = give_slot context.reader_number (record s {
  locking = record {
    locked_by = if owns context s.locking then none else s.locking.locked_by;
    reference_count = u32 (s.locking.reference_count + 2 ^ 32 - 1);
  };
})

-- The end of the mapping, in 64 bits.
abbrev pub map_end : ℕ → ℕ → ℕ → ℕ
map_end vm_start vm_end vm_pgoff = u64 (u64 (vm_pgoff * 2 ^ page_shift) + sub64 vm_end vm_start)

-- `remap pfn size` is `io_remap_pfn_range`.
unfoldable pub amc_pci_reg_mmap :
    (ℕ → ℕ → Result (Unit {0})) → RegisterContext → ℕ → ℕ → ℕ → Result (Unit {0})
amc_pci_reg_mmap remap context vm_start vm_end vm_pgoff =
    if ltb context.length (map_end vm_start vm_end vm_pgoff)
    then err einval
    else remap (u64 (context.base_page + vm_pgoff)) (sub64 vm_end vm_start)

abbrev pub set_owner : Option ℕ → Registers → Registers
set_owner owner s = record s { locking = record s.locking { locked_by = owner } }

unfoldable pub lock_register : RegisterContext → Op Registers (Unit {0})
lock_register context s =
    if ltb 1 s.locking.reference_count
    then (err ebusy, s)
    else (if is_some s.locking.locked_by
        then (err ebusy, s)
        else (ok tt, set_owner (some context.address) s))

unfoldable pub unlock_register : RegisterContext → Op Registers (Unit {0})
unlock_register context s =
    if owns context s.locking then (ok tt, set_owner none s) else (err einval, s)

unfoldable pub amc_pci_reg_ioctl : RegisterContext → Ioctl → Op Registers ℕ
unfolding lock_register unlock_register
amc_pci_reg_ioctl context amc_map_size = pure context.length
amc_pci_reg_ioctl context amc_reg_lock = do lock_register context; pure 0
amc_pci_reg_ioctl context amc_reg_unlock = do unlock_register context; pure 0
amc_pci_reg_ioctl context _ = fail einval

-- What a read of events can change: the control and the word in the user's buffer.
pub record Reading : Type 0 where
  pub control : InterruptControl
  pub user : Option ℕ

-- How a read ends, once it has the events: `copied` tells whether `copy_to_user` succeeds.
abbrev pub deliver : Bool → ℕ → Op Reading ℕ
deliver copied events s =
    if not copied
    then (err efault, s)
    else ((if events == 0 then err eagain else ok 4), record s { user = some events })

abbrev pub read_end :
    Bool → Option ℕ → Option (Result ℕ) × InterruptControl → Option (Result ℕ) × Reading
read_end copied user (none, c) = (none, record { control = c; user = user })
read_end copied user (some (err e), c) = (some (err e), record { control = c; user = user })
read_end copied user (some (ok events), c) =
    let r = deliver copied events (record { control = c; user = user }) in (some r.0, r.1)

module _ (engine : Transfer → (ℕ → ℕ) → ℕ → ℕ) where
  -- `between` is what others do between the test for events and taking them, and `wakeups` what
  -- a waiting read is given; `none` is a read that still waits.
  unfoldable pub amc_pci_reg_read :
      RegisterContext
      → Bool
      → ℕ
      → List Action
      → List Wakeup
      → Bool
      → Reading
      → Option (Result ℕ) × Reading
  unfolding acts
  amc_pci_reg_read context no_wait count between wakeups copied s =
      if no_wait && not (interrupt_events_ready context.reader_number s.control)
      then (some (err eagain), s)
      else (if ltb count 4
          then (some (err eio), s)
          else read_end copied s.user (
              read_interrupt_events engine no_wait context.reader_number wakeups
                (acts engine between s.control)))

-- POLLIN | POLLRDNORM
abbrev pub amc_pci_reg_poll : RegisterContext → InterruptControl → ℕ
amc_pci_reg_poll context control =
    if interrupt_events_ready context.reader_number control then bit_or 1 64 else 0
