-- ===== src/Memory/FileTests.antt =====
-- Calls on two files of the small area of Tests.
use amc_pci_dev.Prelude.{
  ℕ, ◌+◌, ◌≡◌, refl, arith, leb, if◌then◌else◌, List, [], ◌∷◌, Result, ok, err, einval, some,
  get_elem?,
}
use mathlib.Core.Option
use amc_pci_dev.Memory.{
  File, Seek, amc_pci_dma_read, amc_pci_dma_write, amc_pci_dma_llseek, read_locked, write_locked,
  read_dma_addr, read_dma_count,
}
use amc_pci_dev.Dma.{dma_operation_unlocked, configure_dma_engine}
use amc_pci_dev.Memory.Files.{Area, write, read, llseek, Call, Reply, Device, serve}
use amc_pci_dev.Memory.Spec.{ServesAll}
use amc_pci_dev.Memory.View.{IsView, store_of, Bounded}
use amc_pci_dev.Memory.Serving.{serve-ServesAll, amc_pci_dma_read-amc_pci_dma_write}
use amc_pci_dev.Memory.Tests.{
  engine, engine-Copies, copy_out, copy_out-CopiesTo, copy_in, copy_in-CopiesFrom, control, area,
  area-IsArea, healthy, card, at,
}

-- A seek to the offset, whatever `whence` is.
abbrev seek : Seek
seek f_pos offset whence maxsize eof = if leb offset maxsize then ok offset else err einval

seek-Bounded : Bounded seek
seek-Bounded f_pos offset whence maxsize eof pos inside h = ground (arith, h)

abbrev areas : ℕ → Area
areas file = record { base = 4096; length = 64 }

abbrev idle_device : Device
idle_device = record { card = card; f_pos = λ file. 0 }

-- File 1 writes 16 bytes at 16; file 2 reads them, with the byte before.
abbrev calls : List Call
calls =
    record { file = 1; request = llseek 16 0; answers = healthy }
    ∷ record { file = 1; request = write (λ i. 100 + i) 16; answers = healthy }
    ∷ record { file = 2; request = llseek 15 0; answers = healthy }
    ∷ record { file = 2; request = read (λ i. 0) 17; answers = healthy }
    ∷ []

abbrev outcome : List Reply × Device
outcome = serve engine copy_in copy_out seek control areas calls idle_device

serve-ServesAll_example :
    (b : ℕ → ℕ) × ServesAll areas calls outcome.0
      (store_of card.memory idle_device)
      (store_of b outcome.1)
    × IsView control areas outcome.1 b
serve-ServesAll_example =
    serve-ServesAll engine copy_in copy_out seek control areas engine-Copies copy_in-CopiesFrom
      copy_out-CopiesTo seek-Bounded (λ file. area-IsArea) calls idle_device card.memory
      ((tt, refl), ((tt, refl), ((tt, refl), ((omega arith, refl), tt))))
      (record { same = λ j out. refl; inside = λ file. omega arith; free = refl })

abbrev wrote : Result ℕ × File
wrote = amc_pci_dma_write engine copy_in copy_out area healthy 16 (at 16)

abbrev reread : Result ℕ × File
reread =
    amc_pci_dma_read engine copy_in copy_out area healthy 4
      (record wrote.1 { f_pos = 16; user = λ i. 0 })

ran : (wrote.0 ≡ ok 16) × (reread.0 ≡ ok 4)
unfolding amc_pci_dma_read read_locked read_dma_addr read_dma_count dma_operation_unlocked
    configure_dma_engine amc_pci_dma_write write_locked
ran = (refl, refl)

amc_pci_dma_read-amc_pci_dma_write_example : reread.1.user 3 ≡ 103
amc_pci_dma_read-amc_pci_dma_write_example =
    amc_pci_dma_read-amc_pci_dma_write engine copy_in copy_out area engine-Copies copy_in-CopiesFrom
      copy_out-CopiesTo area-IsArea healthy healthy 16 4 16 4 (at 16) (λ i. 0) (omega arith) refl
      ran.0 ran.1 3 (omega arith) (omega arith)

abbrev shown : Reply → Result ℕ × ℕ × ℕ
shown r = (r.result, r.user 0, r.user 16)

-- What file 2 reads.
reads_written : Option.map shown (get_elem? outcome.0 3) ≡ some (ok 17, 15, 115)
unfolding serve amc_pci_dma_read read_locked read_dma_addr read_dma_count dma_operation_unlocked
    configure_dma_engine amc_pci_dma_write write_locked amc_pci_dma_llseek
reads_written = refl
