-- ===== src/Core/Tests.antt =====
-- A card whose PROM has one device entry, and nothing else.
use amc_pci_dev.Prelude.{
  ℕ, ◌-◌, ◌≤◌, ◌≡◌, refl, arith, true, false, ◌==◌, if◌then◌else◌, Option, none, some, [], Result,
  ok, err, enxio,
}
use amc_pci_dev.Prom.{PromContext}
use amc_pci_dev.Prom.Entries.{prom_find_entry_with_minor, prom_for_each_entry}
use amc_pci_dev.Interrupts.{assign_reader_number, assign_from}
use amc_pci_dev.Registers.{amc_pci_reg_open}
use amc_pci_dev.Core.{
  AmcPci, AccessMode, o_rdonly, FileData, amc_pci_open, amc_pci_release, drop_driver,
}
use amc_pci_dev.Core.Opening.{Counted, IsFileOf, amc_pci_open_lem}
use amc_pci_dev.Core.Lifetime.{Life, probed, then_, remove, Lives_lem}

abbrev prom : PromContext
prom = record {
  base = 0;
  buff = λ j. if j == 5 then 1 else 0;
  data_len = 11;
  nentries = 1;
  dma_nentries = 0;
  nentries_with_minor = 1;
}

abbrev card : AmcPci
card = record {
  minor = 16;
  refcount = 1;
  completed = false;
  registers = record {
    control = record { dma = none; events = λ j. 0; active_readers = λ j. false; writes = [] };
    locking = record { reference_count = 0; locked_by = none };
  };
  dma = record {
    buffer_shift = 0;
    buffer_size = 0;
    buffer_dma = 0;
    alignment = 1;
    max_transfer = 0;
  };
  prom = prom;
}

abbrev open_device : Result FileData × AmcPci
open_device = amc_pci_open o_rdonly (some 4096) 65536 8192 16 card

amc_pci_open_lem_example :
    Counted card open_device
    × (card.refcount ≡ 0 → open_device ≡ (err enxio, card))
    × ((f : FileData)
        → open_device.0 ≡ ok f
        → (card.minor ≤ 16)
          × ((entry : ℕ) × (prom_find_entry_with_minor prom (16 - 16) ≡ some entry)
              × IsFileOf o_rdonly card entry f))
amc_pci_open_lem_example =
    amc_pci_open_lem o_rdonly (some 4096) 65536 8192 16 card (λ i. ground arith)

-- The device file opens, a minor number behind it does not.
opens :
    (open_device.1.refcount ≡ 2)
    × ((amc_pci_open o_rdonly (some 4096) 65536 8192 17 card).1.refcount ≡ 1)
unfolding amc_pci_open amc_pci_release prom_find_entry_with_minor prom_for_each_entry
    amc_pci_reg_open assign_reader_number assign_from
opens = (refl, refl)

abbrev idle : Life
idle = record { card = card; files = 0; removing = false; freed = false }

abbrev removed : Life
removed = record { card = drop_driver card; files = 0; removing = true; freed = false }

Lives_lem_example :
    (removed.freed ≡ true → removed.files ≡ 0)
    × (removed.freed ≡ true
        → (mode : AccessMode) (allocated : Option ℕ) (start len iminor : ℕ)
        → (amc_pci_open mode allocated start len iminor removed.card).0 ≡ err enxio)
    × (removed.removing ≡ true → (removed.card.completed ≡ (removed.files == 0)))
Lives_lem_example = Lives_lem removed (
    then_ idle removed
      (probed idle (record {
        one_user = refl;
        not_completed = refl;
        no_files = refl;
        not_removing = refl;
        not_freed = refl;
      }))
      (remove idle refl))
