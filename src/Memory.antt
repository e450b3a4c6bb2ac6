-- ===== src/Memory.antt =====
-- driver/memory.c: a DMA area of the card as a device file. The user's buffer is a map from
-- offsets to bytes. The kernel's copies between it and the DMA buffer are parameters; each returns
-- how many bytes it did not copy, and the memory that it wrote.
pub mod Plan
pub mod Lock
pub mod Reading
pub mod Outcomes
pub mod Reads
pub mod Progress
pub mod WriteProgress
pub mod Writes
pub mod Files
pub mod Spec
pub mod View
pub mod Refines
pub mod Serving
mod Tests
mod FileTests
use amc_pci_dev.Prelude.{
  ℕ, ◌+◌, ◌-◌, ◌^◌, ◌≤◌, ◌<◌, min, Bool, true, false, ◌||◌, ltb, leb, ◌==◌, if◌then◌else◌, u64,
  sub64, low_bits, align, align_down, Result, ok, err, Errno, efault, einval, enomem,
}
use amc_pci_dev.Prelude.Op.{Op, pure, fail, modify, require, on_error, ◌>>=◌, ◌>>◌}
use amc_pci_dev.Dma.{
  Dma, DmaControl, Transfer, Answers, dma_to_device, dma_from_device, dma_operation_unlocked,
  dma_memory_lock, dma_memory_unlock,
}

-- `struct memory_context`
pub record MemoryContext : Type 0 where
  pub dma : DmaControl
  pub base : ℕ
  pub length : ℕ

-- What a call on an open file can change.
pub record File : Type 0 where
  pub card : Dma
  pub f_pos : ℕ
  pub user : ℕ → ℕ

-- `amc_pci_dma_open`; `allocated` tells whether `kmalloc` succeeded.
unfoldable pub amc_pci_dma_open : Bool → DmaControl → ℕ → ℕ → Result MemoryContext
amc_pci_dma_open allocated dma base length =
    if allocated then ok (record { dma = dma; base = base; length = length }) else err enomem

abbrev pub on_card : {A : Type 0} → Result A × Dma → File → Result A × File
on_card (r, d) s = (r, record s { card = d })

-- An operation of the DMA controller on behalf of the file.
abbrev pub run : {A : Type 0} → Op Dma A → Op File A
run m s = on_card (m s.card) s

abbrev pub lock : Op File (Unit {0})
lock = run dma_memory_lock

abbrev pub unlocked : File → File
unlocked s = record s { card = dma_memory_unlock s.card }

-- `*f_pos += count; if (*f_pos >= context->length) *f_pos = 0;`
abbrev pub advance : MemoryContext → ℕ → File → File
advance context count s =
    let pos = s.f_pos + count in record s { f_pos = if leb context.length pos then 0 else pos }

-- The end of both calls: without a positive count, `mem_err` returns the 0 as it is.
abbrev pub return_count : MemoryContext → ℕ → Op File ℕ
return_count context count =
    if count == 0 then pure 0 else (do modify (advance context count); pure count)

-- How both calls end: the work under the mutex, which is released on `mem_err` too, then the new
-- position.
abbrev pub under_lock : MemoryContext → Op File ℕ → Op File ℕ
under_lock context work = do
  lock
  n ← on_error work unlocked
  modify unlocked
  return_count context n

-- The numbers of bytes not copied, and the memory after the copy.
abbrev pub Copy : Type 0
Copy = ℕ → ℕ → (ℕ → ℕ) → (ℕ → ℕ) → ℕ × (ℕ → ℕ)

-- The DMA address and count of a read at `offset`.
abbrev pub read_in_offset : MemoryContext → ℕ → ℕ
read_in_offset context offset = low_bits offset context.dma.alignment

unfoldable pub read_dma_addr : MemoryContext → ℕ → ℕ
read_dma_addr context offset = sub64 (u64 (context.base + offset)) (read_in_offset context offset)

unfoldable pub read_dma_count : MemoryContext → ℕ → ℕ → ℕ
read_dma_count context offset count =
    let alignment = context.dma.alignment in
    let dma_addr = read_dma_addr context offset in
    let end = u64 (context.base + context.length) in
    let dma_count = align (u64 (count + read_in_offset context offset)) alignment in
    if ltb end (u64 (dma_addr + dma_count))
    then align_down (sub64 end dma_addr) alignment
    else dma_count

-- `copy_from_user dst count user memory` writes to `memory`, and
-- `copy_to_user src count memory user` writes to `user`.
module _ (engine : Transfer → (ℕ → ℕ) → ℕ → ℕ) (copy_from_user copy_to_user : Copy)
    (context : MemoryContext) (a : Answers) where
  abbrev pub filled : ℕ × (ℕ → ℕ) → File → Result ℕ × File
  filled (left, memory) s = (ok left, record s { card = record s.card { memory = memory } })

  -- Fills the DMA buffer, and returns the number of bytes not copied.
  abbrev pub fill_buffer : ℕ → Op File ℕ
  fill_buffer count s = filled (copy_from_user context.dma.buffer_dma count s.user s.card.memory) s

  abbrev pub drained : ℕ × (ℕ → ℕ) → File → Result ℕ × File
  drained (left, user) s = (ok left, record s { user = user })

  abbrev pub drain_buffer : ℕ → ℕ → Op File ℕ
  drain_buffer in_offset count s =
      drained (copy_to_user (context.dma.buffer_dma + in_offset) count s.card.memory s.user) s

  -- The write under the lock. What `copy_from_user` left out does not shorten the transfer.
  unfoldable pub write_locked : ℕ → ℕ → Op File ℕ
  write_locked offset count = do
    left ← fill_buffer count
    require (ltb left count) efault
    run (
        dma_operation_unlocked engine context.dma a (u64 (context.base + offset)) count
          dma_to_device)

  unfoldable pub amc_pci_dma_write : ℕ → Op File ℕ
  amc_pci_dma_write count s =
      let offset = s.f_pos in
      if offset == context.length
      then pure 0 s
      else if ltb context.length offset
      then fail efault s
      else if ltb (context.length - offset) count || ltb context.dma.buffer_size count
      then fail einval s
      else under_lock context (write_locked offset count) s

  abbrev pub read_drain : ℕ → ℕ → ℕ → Op File ℕ
  read_drain in_offset count dma_read_count =
      let user_count = min count (sub64 dma_read_count in_offset) in
      do
        left ← drain_buffer in_offset user_count
        require (ltb left user_count) efault
        pure (user_count - left)

  -- Behind the transfer: nothing read is returned as it is.
  abbrev pub drain_read : ℕ → ℕ → ℕ → Op File ℕ
  drain_read offset count dma_read_count =
      if dma_read_count == 0
      then pure 0
      else read_drain (read_in_offset context offset) count dma_read_count

  -- The read under the lock.
  unfoldable pub read_locked : ℕ → ℕ → ℕ → Op File ℕ
  read_locked offset count dma_count = do
    dma_read_count ← run (
        dma_operation_unlocked engine context.dma a (read_dma_addr context offset) dma_count
          dma_from_device)
    drain_read offset count dma_read_count

  unfoldable pub amc_pci_dma_read : ℕ → Op File ℕ
  amc_pci_dma_read count s =
      let offset = s.f_pos in
      if offset == context.length
      then pure 0 s
      else if ltb context.length offset
      then fail efault s
      else let dma_count = read_dma_count context offset count in
        if dma_count == 0
        then fail efault s
        else under_lock context (read_locked offset count dma_count) s

-- The kernel's `generic_file_llseek_size`, from the position, the offset, `whence`, the largest
-- position and the end of the file.
abbrev pub Seek : Type 0
Seek = ℕ → ℕ → ℕ → ℕ → ℕ → Result ℕ

abbrev seeked : Result ℕ → File → Result ℕ × File
seeked (ok pos) s = (ok pos, record s { f_pos = pos })
seeked (err e) s = (err e, s)

unfoldable pub amc_pci_dma_llseek : Seek → MemoryContext → ℕ → ℕ → Op File ℕ
amc_pci_dma_llseek generic_file_llseek_size context offset whence s =
    seeked (generic_file_llseek_size s.f_pos offset whence context.length context.length) s

-- The commands of amc_pci_device.h; any other number is `unknown`.
pub data Ioctl : Type 0 where
  amc_map_size : Ioctl
  amc_buf_size : Ioctl
  amc_reg_lock : Ioctl
  amc_reg_unlock : Ioctl
  amc_dma_area_size : Ioctl
  unknown : ℕ → Ioctl

pub amc_pci_mem_ioctl : MemoryContext → Ioctl → Result ℕ
amc_pci_mem_ioctl context amc_buf_size = ok context.dma.buffer_size
amc_pci_mem_ioctl context amc_dma_area_size = ok context.length
amc_pci_mem_ioctl context _ = err einval
