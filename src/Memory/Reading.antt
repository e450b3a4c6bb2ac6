-- ===== src/Memory/Reading.antt =====
-- `amc_pci_dma_read`: what the user gets, which transfers are made, and that the mutex is released.
use amc_pci_dev.Prelude.{
  ℕ, ◌+◌, ◌%◌, ◌≤◌, ◌<◌, ◌≡◌, refl, arith, min, true, false, Result, ok, err, sub64,
}
use amc_pci_dev.Prelude.Op.{and_then}
use amc_pci_dev.Dma.{Dma, Transfer, Answers, dma_from_device, dma_operation_unlocked}
use amc_pci_dev.Dma.Laws.{IsIdle, HasRun, outcome, is_started, dma_operation_unlocked_lem}
use amc_pci_dev.Memory.{
  MemoryContext, File, Copy, on_card, drain_read, read_in_offset, read_dma_addr, read_dma_count,
}
use amc_pci_dev.Memory.Plan.{
  IsArea, max_rw_count, low_bits-mod, read_dma_addr_lem, read_dma_count_lem,
}
use amc_pci_dev.Memory.Lock.{Copies, CopiesTo, CopiedTo, Apart, locked_card}

module _ (engine : Transfer → (ℕ → ℕ) → ℕ → ℕ) (copy_from_user copy_to_user : Copy)
    (context : MemoryContext) (a : Answers) where
  -- What the part behind the transfer makes of the transfer's result.
  abbrev pub drained_from : ℕ → ℕ → File → Result ℕ × Dma → Result ℕ × File
  drained_from offset count s p =
      and_then (on_card p s) (drain_read engine copy_from_user copy_to_user context a offset count)

  -- The user's bytes come from the buffer, `in_offset` bytes into it.
  pub record Drained (offset count : ℕ) (s : File) (p : Result ℕ × Dma) (q : Result ℕ × File)
      : Type 0 where
    pub card : q.1.card ≡ p.1
    pub pos : q.1.f_pos ≡ s.f_pos
    pub copied :
        (n : ℕ)
        → q.0 ≡ ok n
        → 0 < n
        → (m : ℕ) × (p.0 ≡ ok m)
          × (0 < m)
          × (n ≤ count)
          × (n ≤ sub64 m (read_in_offset context offset))
          × ((i : ℕ)
              → i < n
              → q.1.user i
                ≡ p.1.memory (context.dma.buffer_dma + read_in_offset context offset + i))

  pub drained-lem :
      (law : CopiesTo copy_to_user) (offset count : ℕ) (s : File) (p : Result ℕ × Dma)
      → Drained offset count s p (drained_from offset count s p)
  drained-lem law offset count s (err e, d) = record { card = refl; pos = refl; copied = λ n h. cc }
  drained-lem law offset count s (ok m, d) = record {
    card = ground arith;
    pos = ground arith;
    copied = λ n e h.
        (m, refl, ground arith, ground arith, ground arith, λ i lt. ground (arith, lawn.1 i));
  }
    where
      buffered : ℕ
      buffered = context.dma.buffer_dma + read_in_offset context offset

      wanted : ℕ
      wanted = min count (sub64 m (read_in_offset context offset))

      lawn : CopiedTo buffered wanted d.memory s.user (copy_to_user buffered wanted d.memory s.user)
      lawn = law buffered wanted d.memory s.user

  module _ (copies : Copies engine) (to : CopiesTo copy_to_user) (v : IsArea context) (count : ℕ)
      (sane : count ≤ max_rw_count) (s : File) where
    abbrev pub addr : ℕ
    addr = read_dma_addr context s.f_pos

    abbrev pub in_offset : ℕ
    in_offset = read_in_offset context s.f_pos

    abbrev pub dma_count : ℕ
    dma_count = read_dma_count context s.f_pos count

    -- The transfer that a read asks for.
    abbrev pub read_transfer : Transfer
    read_transfer = record {
      src = addr;
      dst = context.dma.buffer_dma;
      count = min context.dma.max_transfer dma_count;
    }

    abbrev pub operated : Result ℕ × Dma
    operated =
        dma_operation_unlocked engine context.dma a addr dma_count dma_from_device
          (locked_card s).card

    abbrev pub worked : Result ℕ × File
    worked = drained_from s.f_pos count (locked_card s) operated

    module _ (inside : s.f_pos < context.length) where
      pub operated_lem :
          (operated.0 ≡ outcome engine context.dma a read_transfer)
          × (is_started engine context.dma a read_transfer ≡ true
              → HasRun engine read_transfer (locked_card s).card operated.1)
          × (is_started engine context.dma a read_transfer ≡ false
              → IsIdle engine (locked_card s).card operated.1)
      operated_lem =
          dma_operation_unlocked_lem engine context.dma a addr dma_count dma_from_device
            (locked_card s).card read_transfer refl
            (omega (arith, read_dma_addr_lem context v s.f_pos count inside sane, v.area))
            (omega (arith, v.control.addressed)) v.control.narrow

      pub plan :
          (in_offset < context.dma.alignment)
          × (in_offset ≤ s.f_pos)
          × (addr + in_offset ≡ context.base + s.f_pos)
      plan = read_dma_addr_lem context v s.f_pos count inside sane

      -- The transfer lies in the area, and apart from the buffer.
      pub within :
          (context.base ≤ addr)
          × (addr + read_transfer.count ≤ context.base + context.length)
          × (read_transfer.count ≤ context.dma.buffer_size)
          × Apart addr context.dma.buffer_dma read_transfer.count
      within = ground (
        arith,
        plan,
        read_dma_count_lem context v s.f_pos count inside sane,
        v.control.limit,
        v.apart,
      )

      -- A transfer that was made is a multiple of the alignment.
      pub started :
          (m : ℕ)
          → operated.0 ≡ ok m
          → (is_started engine context.dma a read_transfer ≡ true)
            × (m ≡ read_transfer.count)
            × (m % context.dma.alignment ≡ 0)
      started m e = ground (arith, operated_lem, low_bits-mod context.dma v.control m)

      module _ (m n : ℕ) (e : operated.0 ≡ ok m) (pos : 0 < m) (fits : n ≤ sub64 m in_offset) where
        pub counts : (in_offset < m) × (in_offset + n ≤ m)
        counts = grind (arith, started m e, plan, v.control.narrow)

        pub read_byte :
            (i : ℕ)
            → i < n
            → operated.1.memory (context.dma.buffer_dma + in_offset + i)
              ≡ s.card.memory (context.base + s.f_pos + i)
        read_byte i lt =
            let ran = operated_lem.1 (started m e).0 in
            let at =
              (copies read_transfer s.card.memory within.3).0 (in_offset + i)
                (omega (arith, started m e, counts)) in
            ground (arith, ran.memory, at, plan)
