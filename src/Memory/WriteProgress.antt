-- ===== src/Memory/WriteProgress.antt =====
-- `amc_pci_dma_write` of driver/memory.c on a healthy card: an aligned write is done.
use amc_pci_dev.Prelude.{
  ℕ, ◌+◌, ◌%◌, ◌≤◌, ◌<◌, ◌≡◌, arith, min, true, ok, u64, ◌∙◌, eq→==, is_aligned, lt→ltb,
}
use amc_pci_dev.Dma.{Transfer, Answers}
use amc_pci_dev.Dma.Laws.{outcome}
use amc_pci_dev.Memory.{MemoryContext, File, Copy, amc_pci_dma_write, write_locked}
use amc_pci_dev.Memory.Plan.{IsArea, low_bits-mod, alignment_pos}
use amc_pci_dev.Memory.Lock.{Copies, CopiesFrom}
use amc_pci_dev.Memory.Progress.{IsHealthy, sum_multiples}
use amc_pci_dev.Memory.Writes.{work, op, op_lem, xfer, write-Ends}

-- The write lies in the area, fits the buffer, has a byte, and is aligned, like the area and the
-- buffer; one unit of the alignment fits a transfer.
pub record IsWritable (context : MemoryContext) (pos count : ℕ) : Type 0 where
  pub inside : pos + count ≤ context.length
  pub fits : count ≤ context.dma.buffer_size
  pub unit : context.dma.alignment ≤ context.dma.max_transfer
  pub some_bytes : 0 < count
  pub base : context.base % context.dma.alignment ≡ 0
  pub buffer : context.dma.buffer_dma % context.dma.alignment ≡ 0
  pub pos_aligned : pos % context.dma.alignment ≡ 0
  pub count_aligned : count % context.dma.alignment ≡ 0

module _ (engine : Transfer → (ℕ → ℕ) → ℕ → ℕ) (copy_from_user copy_to_user : Copy)
    (context : MemoryContext) (a : Answers) (copies : Copies engine)
    (from : CopiesFrom copy_from_user) (v : IsArea context) (count : ℕ) (s : File)
    (healthy : IsHealthy a) (w : IsWritable context s.f_pos count)
    (some_copied : (copy_from_user context.dma.buffer_dma count s.user s.card.memory).0
      < count) where
  abbrev t : Transfer
  t = xfer engine copy_from_user copy_to_user context a copies from v count s

  aligned : (x : ℕ) → x % context.dma.alignment ≡ 0 → is_aligned x context.dma.alignment ≡ true
  aligned x h = eq→== _ _ (low_bits-mod context.dma v.control x ∙ h)

  outcome-eq : outcome engine context.dma a t ≡ ok (min context.dma.max_transfer count)
  outcome-eq = ground (
    arith,
    aligned t.src w.buffer,
    aligned t.dst dst_whole,
    aligned t.count count_whole,
    healthy.ready,
    healthy.completes,
    healthy.no_errors,
  )
    where
      count_whole : t.count % context.dma.alignment ≡ 0
      count_whole = ground (arith, v.control.whole, w.count_aligned)

      dst_whole : t.dst % context.dma.alignment ≡ 0
      dst_whole =
          let e : u64 (context.base + s.f_pos) ≡ context.base + s.f_pos =
            omega (arith, v.area, w.inside, w.some_bytes) in
          rw e (sum_multiples context.base s.f_pos context.dma.alignment w.base w.pos_aligned)

  work-eq :
      (work engine copy_from_user copy_to_user context a copies from v count s).0
      ≡ (op engine copy_from_user copy_to_user context a copies from v count s).0
  unfolding write_locked
  work-eq = rw (lt→ltb _ count some_copied)

  -- A write of at least one byte that lies in the area, fits the buffer and is aligned, like area
  -- and buffer, on a healthy card whose transfers have room for one unit of the alignment, and of
  -- which `copy_from_user` copies a byte at least, succeeds: it returns the smaller of the count
  -- and the transfer limit, which is at least one byte.
  pub amc_pci_dma_write_progress :
      ((amc_pci_dma_write engine copy_from_user copy_to_user context a count s).0
        ≡ ok (min context.dma.max_transfer count))
      × (0 < min context.dma.max_transfer count)
  amc_pci_dma_write_progress = (
    (write-Ends engine copy_from_user copy_to_user context a copies from v count s allowed).result
        ∙ work-eq
        ∙ (op_lem engine copy_from_user copy_to_user context a copies from v count s allowed).0
        ∙ outcome-eq,
    omega (arith, w.unit, w.some_bytes, alignment_pos context.dma v.control),
  )
    where
      allowed :
          (s.f_pos < context.length)
          × (s.f_pos + count ≤ context.length)
          × (count ≤ context.dma.buffer_size)
      allowed = (omega (arith, w.inside, w.some_bytes), w.inside, w.fits)
