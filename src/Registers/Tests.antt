-- ===== src/Registers/Tests.antt =====
-- Two register files of one card.
use amc_pci_dev.Prelude.{
  ℕ, ◌*◌, ◌+◌, ◌-◌, ◌^◌, ◌≤◌, ◌<◌, ◌≡◌, ◌≢◌, refl, arith, true, false, ◌==◌, if◌then◌else◌, none,
  some, [], ok, err, eagain, ebusy, einval,
}
use amc_pci_dev.Dma.{Transfer}
use amc_pci_dev.Interrupts.{assign_reader_number, assign_from}
use amc_pci_dev.Memory.{amc_reg_lock}
use amc_pci_dev.Registers.{
  Registers, RegisterContext, Reading, page_shift, amc_pci_reg_open, amc_pci_reg_ioctl,
  lock_register, amc_pci_reg_read, amc_pci_reg_mmap,
}
use amc_pci_dev.Registers.System.{System, initial, step, open_file, opened}
use amc_pci_dev.Registers.Invariant.{IsSound}
use amc_pci_dev.Registers.Preserved.{Reachable-IsSound}
use amc_pci_dev.Registers.Stream.{IsStreamed, amc_pci_reg_read_lem, amc_pci_reg_mmap_lem}

abbrev engine : Transfer → (ℕ → ℕ) → ℕ → ℕ
engine t memory = memory

abbrev fresh : Registers
fresh = record {
  control = record { dma = none; events = λ j. 0; active_readers = λ j. false; writes = [] };
  locking = record { reference_count = 0; locked_by = none };
}

abbrev file : RegisterContext
file = record { address = 4096; base_page = 16; length = 8192; reader_number = 0 }

-- One file is open.
abbrev after_open : System
after_open = opened (amc_pci_reg_open (some 4096) 65536 8192 fresh) []

Reachable-IsSound_example : IsSound after_open
Reachable-IsSound_example = Reachable-IsSound engine after_open (
    step (record { registers = fresh; files = [] }) after_open
      (initial (record { registers = fresh; files = [] })
        (record { no_files = refl; no_slots = refl; no_count = refl; no_owner = refl }))
      (open_file (record { registers = fresh; files = [] }) (some 4096) 65536 8192))

-- Who holds the lock keeps others out; a second file keeps the lock from being taken.
lock_excludes :
    ((amc_pci_reg_open
        (some 8192)
        65536
        8192
        (amc_pci_reg_ioctl file amc_reg_lock (amc_pci_reg_open (some 4096) 65536 8192 fresh).1).1).0
      ≡ err ebusy)
    × ((amc_pci_reg_ioctl file amc_reg_lock
          (amc_pci_reg_open
            (some 8192)
            65536
            8192
            (amc_pci_reg_open (some 4096) 65536 8192 fresh).1).1).0
        ≡ err ebusy)
unfolding amc_pci_reg_open amc_pci_reg_ioctl lock_register assign_reader_number assign_from
lock_excludes = (refl, refl)

-- Events 1 and 8 are pending for reader 0.
abbrev reading : Reading
reading = record {
  control = record fresh.control { events = λ j. if j == 0 then 9 else 0 };
  user = none;
}

amc_pci_reg_read_lem_example :
    IsStreamed 0 false (amc_pci_reg_read engine file false 4 [] [] true reading)
    × ((amc_pci_reg_read engine file true 4 [] [] true reading).0 ≢ none)
    × (4 ≤ 4
        → (amc_pci_reg_read engine file true 4 [] [] true reading).0
          ≡ some (if reading.control.events 0 == 0 then err eagain else ok 4))
    × (4 ≤ 4
        → reading.control.events 0 ≢ 0
        → ((amc_pci_reg_read engine file true 4 [] [] true reading).1.user
            ≡ some (reading.control.events 0))
          × ((amc_pci_reg_read engine file true 4 [] [] true reading).1.control.events 0 ≡ 0))
amc_pci_reg_read_lem_example = amc_pci_reg_read_lem engine file 4 [] [] true reading

-- Maps the second page of a BAR0 of two.
amc_pci_reg_mmap_lem_example :
    (8192 < 1 * 2 ^ page_shift + (69632 - 65536)
      → amc_pci_reg_mmap (λ pfn size. ok tt) file 65536 69632 1 ≡ err einval)
    × (1 * 2 ^ page_shift + (69632 - 65536) ≤ 8192
        → (pfn : ℕ) × (amc_pci_reg_mmap (λ pfn size. ok tt) file 65536 69632 1 ≡ ok tt)
          × (65536 ≤ pfn * 2 ^ page_shift)
          × (pfn * 2 ^ page_shift + (69632 - 65536) ≤ 65536 + 8192))
amc_pci_reg_mmap_lem_example =
    amc_pci_reg_mmap_lem (λ pfn size. ok tt) file 65536 65536 69632 1 refl refl (omega arith)
      (omega arith) (omega arith) (omega arith)
