-- ===== src/Memory/Plan.antt =====
-- Where a read of driver/memory.c places its transfer: aligned, around the bytes asked for, and
-- inside the area.
use native.Mathlib.Nat.{one-le-pow, pow-le-pow_right, mod-lt}
use amc_pci_dev.Prelude.{
  ℕ, ◌+◌, ◌-◌, ◌%◌, ◌^◌, ◌≤◌, ◌<◌, ◌≡◌, arith, u64, sub64, low_bits, bit_and_mask, ◌⊎◌,
}
use amc_pci_dev.Dma.{DmaControl}
use amc_pci_dev.Memory.{MemoryContext, read_in_offset, read_dma_addr, read_dma_count}

-- What `initialise_dma_control` sets up: a power of two for the alignment, a transfer limit that is
-- a multiple of it and fits the buffer, and a buffer within the address space.
pub record IsDmaControl (dma : DmaControl) : Type 0 where
  pub shift : ℕ
  pub small_shift : shift ≤ 32
  pub power : dma.alignment ≡ 2 ^ shift
  pub whole : dma.max_transfer % dma.alignment ≡ 0
  pub limit : dma.max_transfer ≤ dma.buffer_size
  pub narrow : dma.max_transfer < 2 ^ 32
  pub addressed : dma.buffer_dma + dma.buffer_size < 2 ^ 64

-- The area lies in the lower half of the address space, so that the 64-bit sums of the driver do
-- not wrap, and apart from the DMA buffer.
pub record IsArea (context : MemoryContext) : Type 0 where
  pub control : IsDmaControl context.dma
  pub area : context.base + context.length ≤ 2 ^ 63
  pub apart :
      (context.dma.buffer_dma + context.dma.buffer_size ≤ context.base)
      ⊎ (context.base + context.length ≤ context.dma.buffer_dma)

-- MAX_RW_COUNT: the kernel cuts the count of a read or a write to this.
abbrev pub max_rw_count : ℕ
max_rw_count = 2 ^ 31 - 4096

module _ (dma : DmaControl) (v : IsDmaControl dma) where
  pub alignment_pos : 0 < dma.alignment
  alignment_pos = rw v.power (one-le-pow v.shift 2 (omega arith))

  pub alignment_bound : dma.alignment ≤ 2 ^ 32
  alignment_bound = rw v.power (pow-le-pow_right (omega arith) v.small_shift)

  pub low_bits-mod : (x : ℕ) → low_bits x dma.alignment ≡ x % dma.alignment
  low_bits-mod x = rw v.power (bit_and_mask v.shift x)

-- Rounding down to a multiple, as the division does it.
pub whole_below : (x n : ℕ) → 0 < n → (x - x % n) % n ≡ 0
whole_below x n h = grind arith

pub unit_below : (x n : ℕ) → 0 < n → n ≤ x → n ≤ x - x % n
unit_below x n p h = grind arith

module _ (context : MemoryContext) (v : IsArea context) (offset count : ℕ) where
  abbrev unit : ℕ
  unit = context.dma.alignment

  abbrev addr : ℕ
  addr = read_dma_addr context offset

  abbrev transfer_count : ℕ
  transfer_count = read_dma_count context offset count

  in_offset-eq : read_in_offset context offset ≡ offset % unit
  in_offset-eq = low_bits-mod context.dma v.control offset

  module _ (inside : offset < context.length) (sane : count ≤ max_rw_count) where
    -- The transfer begins at the last aligned offset up to the one asked for.
    pub read_dma_addr_lem :
        (read_in_offset context offset < unit)
        × (read_in_offset context offset ≤ offset)
        × (addr + read_in_offset context offset ≡ context.base + offset)
    unfolding read_dma_addr
    read_dma_addr_lem =
        let e = in_offset-eq in
        let p = mod-lt offset (alignment_pos context.dma v.control) in ground (arith, e, p, v.area)

    -- It is a whole number of units, and ends within the area.
    pub read_dma_count_lem :
        (transfer_count % unit ≡ 0) × (addr + transfer_count ≤ context.base + context.length)
    unfolding read_dma_count
    read_dma_count_lem = ground (
      arith,
      read_dma_addr_lem,
      low_bits-mod context.dma v.control grown,
      low_bits-mod context.dma v.control left,
      whole_below grown unit pos,
      whole_below left unit pos,
      alignment_bound context.dma v.control,
      v.area,
      mod-lt grown pos,
      mod-lt left pos,
    )
      where
        pos : 0 < unit
        pos = alignment_pos context.dma v.control

        grown : ℕ
        grown = u64 (u64 (count + read_in_offset context offset) + (unit - 1))

        left : ℕ
        left = sub64 (u64 (context.base + context.length)) addr
