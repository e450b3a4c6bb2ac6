-- ===== src/Memory/Tests.antt =====
-- A small area on a working card: 64 bytes at address 4096, units of 16 bytes, a buffer at 0.
use amc_pci_dev.Prelude.{
  ℕ, ◌+◌, ◌-◌, ◌%◌, ◌<◌, min, ◌≡◌, refl, arith, true, false, ltb, leb, ◌&&◌, if◌then◌else◌, inl,
  Result, ok, err, [], efault, einval,
}
use amc_pci_dev.Dma.{
  Dma, DmaControl, Transfer, Answers, dma_operation_unlocked, configure_dma_engine,
}
use amc_pci_dev.Memory.{
  MemoryContext, File, Copy, amc_pci_dma_read, amc_pci_dma_write, read_locked, write_locked,
  read_dma_addr, read_dma_count,
}
use amc_pci_dev.Memory.Plan.{IsArea, IsDmaControl}
use amc_pci_dev.Memory.Lock.{Copies, CopiesTo, CopiesFrom}
use amc_pci_dev.Memory.Outcomes.{IsSafeRead, IsDelivered, IsSafeWrite, IsWritten}
use amc_pci_dev.Memory.Reads.{amc_pci_dma_read-IsSafeRead, amc_pci_dma_read-IsDelivered}
use amc_pci_dev.Memory.Progress.{IsHealthy}
use amc_pci_dev.Memory.WriteProgress.{amc_pci_dma_write_progress}
use amc_pci_dev.Memory.Writes.{amc_pci_dma_write-IsSafeWrite, amc_pci_dma_write-IsWritten}

abbrev pub engine : Transfer → (ℕ → ℕ) → ℕ → ℕ
engine t memory j =
    if leb t.dst j && ltb j (t.dst + t.count) then memory (t.src + (j - t.dst)) else memory j

pub engine-Copies : Copies engine
engine-Copies t memory apart = (λ i lt. ground (arith, shift i), λ j out. ground arith)
  where
    shift : (i : ℕ) → t.src + (t.dst + i - t.dst) ≡ t.src + i
    shift i = omega arith

-- Copies everything.
abbrev pub copy_out : Copy
copy_out src count memory user = (0, λ i. if ltb i count then memory (src + i) else user i)

pub copy_out-CopiesTo : CopiesTo copy_out
copy_out-CopiesTo src count memory user = (omega arith, λ i lt. ground arith, λ i le. ground arith)

-- Copies 20 bytes at most: the user's memory ends there.
abbrev pub copy_in : Copy
copy_in dst count user memory = (
  count - 20,
  λ j.
      if leb dst j && ltb j (dst + count)
      then (if ltb (j - dst) 20 then user (j - dst) else 0)
      else memory j,
)

pub copy_in-CopiesFrom : CopiesFrom copy_in
copy_in-CopiesFrom dst count user memory =
    (omega arith, λ i lt. ground (arith, shift i), λ j out. ground arith)
  where
    shift : (i : ℕ) → dst + i - dst ≡ i
    shift i = omega arith

abbrev pub control : DmaControl
control = record {
  buffer_shift = 5;
  buffer_size = 32;
  buffer_dma = 0;
  alignment = 16;
  max_transfer = 32;
}

abbrev pub area : MemoryContext
area = record { dma = control; base = 4096; length = 64 }

control-IsDmaControl : IsDmaControl control
control-IsDmaControl = record {
  shift = 4;
  small_shift = omega arith;
  power = refl;
  whole = refl;
  limit = omega arith;
  narrow = omega arith;
  addressed = omega arith;
}

pub area-IsArea : IsArea area
area-IsArea = record {
  control = control-IsDmaControl;
  area = omega arith;
  apart = inl (omega arith);
}

abbrev pub healthy : Answers
healthy = record {
  status = 2;
  first_poll = 0;
  more_polls = [];
  completes = true;
  irq_status = 4096;
  status_after = 2;
}

-- Every byte of memory holds its address, modulo 256.
abbrev pub card : Dma
card = record {
  source = 0;
  source_msb = 0;
  dest = 0;
  dest_msb = 0;
  memory = λ j. j % 256;
  writes = [];
  transfers = [];
  done = false;
  locked = false;
}

abbrev pub at : ℕ → File
at pos = record { card = card; f_pos = pos; user = λ i. 100 + i }

abbrev read : ℕ → ℕ → Result ℕ × File
read pos count = amc_pci_dma_read engine copy_in copy_out area healthy count (at pos)

abbrev write : ℕ → ℕ → Result ℕ × File
write pos count = amc_pci_dma_write engine copy_in copy_out area healthy count (at pos)

-- A read of 10 bytes at 20 transfers the unit at 16, and one at 50 ends at the end of the area.
read_runs :
    ((read 20 10).0 ≡ ok 10)
    × ((read 20 10).1.user 9 ≡ 29)
    × ((read 20 10).1.f_pos ≡ 30)
    × ((read 50 100).0 ≡ ok 14)
    × ((read 50 100).1.f_pos ≡ 0)
    × ((read 64 1).0 ≡ ok 0)
    × ((read 65 1).0 ≡ err efault)
unfolding amc_pci_dma_read read_locked read_dma_addr read_dma_count dma_operation_unlocked
    configure_dma_engine
read_runs = (refl, refl, refl, refl, refl, refl, refl)

-- A write must be aligned and fit the buffer.
write_runs :
    ((write 16 16).0 ≡ ok 16)
    × ((write 16 16).1.card.memory 4115 ≡ 103)
    × ((write 20 16).0 ≡ err einval)
    × ((write 0 48).0 ≡ err einval)
unfolding amc_pci_dma_write write_locked dma_operation_unlocked configure_dma_engine
write_runs = (refl, refl, refl, refl)

-- The user's memory ends after 20 bytes of the 32: the call reports 32, and the area gets zeros.
write_after_fault :
    ((write 0 32).0 ≡ ok 32)
    × ((write 0 32).1.card.memory 4115 ≡ 119)
    × ((write 0 32).1.card.memory 4116 ≡ 0)
unfolding amc_pci_dma_write write_locked dma_operation_unlocked configure_dma_engine
write_after_fault = (refl, refl, refl)

amc_pci_dma_read-IsSafeRead_example : IsSafeRead area (at 20) (read 20 10)
amc_pci_dma_read-IsSafeRead_example =
    amc_pci_dma_read-IsSafeRead engine copy_in copy_out area healthy engine-Copies copy_out-CopiesTo
      area-IsArea 10 (omega arith) (at 20) refl

amc_pci_dma_read-IsDelivered_example : IsDelivered area 10 (at 20) (read 20 10)
amc_pci_dma_read-IsDelivered_example =
    amc_pci_dma_read-IsDelivered engine copy_in copy_out area healthy engine-Copies
      copy_out-CopiesTo area-IsArea 10 (omega arith) (at 20) refl

amc_pci_dma_write-IsSafeWrite_example : IsSafeWrite area 32 (at 0) (write 0 32)
amc_pci_dma_write-IsSafeWrite_example =
    amc_pci_dma_write-IsSafeWrite engine copy_in copy_out area healthy engine-Copies
      copy_in-CopiesFrom area-IsArea 32 (at 0) refl

amc_pci_dma_write-IsWritten_example : IsWritten area 20 32 (at 0) (write 0 32)
amc_pci_dma_write-IsWritten_example =
    amc_pci_dma_write-IsWritten engine copy_in copy_out area healthy engine-Copies
      copy_in-CopiesFrom area-IsArea 32 (at 0) refl

healthy-IsHealthy : IsHealthy healthy
healthy-IsHealthy = record { ready = refl; completes = refl; no_errors = refl }

amc_pci_dma_write_progress_example : ((write 16 16).0 ≡ ok (min 32 16)) × (0 < min 32 16)
amc_pci_dma_write_progress_example =
    amc_pci_dma_write_progress engine copy_in copy_out area healthy engine-Copies copy_in-CopiesFrom
      area-IsArea 16 (at 16) healthy-IsHealthy
      (record {
        inside = omega arith;
        fits = omega arith;
        unit = omega arith;
        some_bytes = omega arith;
        base = refl;
        buffer = refl;
        pos_aligned = refl;
        count_aligned = refl;
      })
      (omega arith)
