-- ===== src/Memory/Writes.antt =====
-- `amc_pci_dma_write` of driver/memory.c: what reaches the area, and which transfers are made.
use amc_pci_dev.Prelude.{
  ℕ, ◌+◌, ◌-◌, ◌%◌, ◌≤◌, ◌<◌, ◌≡◌, refl, arith, min, true, false, ltb, if◌then◌else◌, ◌⊎◌, inl, inr,
  Result, ok, err, Bool-cases, List, ◌∷◌, u64, ◌∙◌, ap, subst, sym, efault, dec_lt, dec_le, ne→==,
  le→ltb,
}
use amc_pci_dev.Dma.{Dma, Transfer, Answers, dma_to_device, dma_operation_unlocked}
use amc_pci_dev.Dma.Laws.{IsIdle, HasRun, outcome, is_started, dma_operation_unlocked_lem}
use amc_pci_dev.Memory.{MemoryContext, File, Copy, write_locked, amc_pci_dma_write}
use amc_pci_dev.Memory.Plan.{IsArea, low_bits-mod}
use amc_pci_dev.Memory.Lock.{
  Copies, CopiesFrom, CopiedFrom, Apart, next_pos, Ends, under_lock-Ends, locked_card,
}
use amc_pci_dev.Memory.Outcomes.{IsInside, IsSafeWrite, IsWritten}

module _ (engine : Transfer → (ℕ → ℕ) → ℕ → ℕ) (copy_from_user copy_to_user : Copy)
    (context : MemoryContext) (a : Answers) (copies : Copies engine)
    (from : CopiesFrom copy_from_user) (v : IsArea context) (count : ℕ) (s : File) where
  abbrev result : Result ℕ × File
  result = amc_pci_dma_write engine copy_from_user copy_to_user context a count s

  abbrev pub copy : ℕ × (ℕ → ℕ)
  copy = copy_from_user context.dma.buffer_dma count s.user s.card.memory

  -- The card with its buffer filled, under the lock.
  abbrev pub full : Dma
  full = record (locked_card s).card { memory = copy.1 }

  abbrev pub xfer : Transfer
  xfer = record {
    src = context.dma.buffer_dma;
    dst = u64 (context.base + s.f_pos);
    count = min context.dma.max_transfer count;
  }

  abbrev pub op : Result ℕ × Dma
  op =
      dma_operation_unlocked engine context.dma a (u64 (context.base + s.f_pos)) count dma_to_device
        full

  abbrev pub work : Result ℕ × File
  work = write_locked engine copy_from_user copy_to_user context a s.f_pos count (locked_card s)

  copied_lem : CopiedFrom context.dma.buffer_dma count s.user s.card.memory copy
  copied_lem = from context.dma.buffer_dma count s.user s.card.memory

  -- Either nothing was copied, or the transfer runs on the filled buffer.
  pub work-cases :
      ((work.0 ≡ err efault) × (work.1.card ≡ full) × (work.1.f_pos ≡ s.f_pos))
      ⊎ ((work.0 ≡ op.0) × (work.1.card ≡ op.1) × (work.1.f_pos ≡ s.f_pos))
  unfolding write_locked
  work-cases = elim (Bool-cases (ltb copy.0 count)) [
    | inl some ↦ inr (rw some, rw some, rw some)
    | inr none ↦ inl (rw none, rw none, rw none)
  ]

  abbrev pub Allowed : Type 0
  Allowed =
      (s.f_pos < context.length)
      × (s.f_pos + count ≤ context.length)
      × (count ≤ context.dma.buffer_size)

  write-refused :
      ¬ Allowed
      → (result.1 ≡ s) × ((n : ℕ) → result.0 ≡ ok n → (n ≡ 0) × (s.f_pos ≤ context.length))
  unfolding amc_pci_dma_write
  write-refused h = ground (arith, refused)
    where
      refused :
          (context.length ≤ s.f_pos)
          ⊎ ((context.length - s.f_pos < count) ⊎ (context.dma.buffer_size < count))
      refused = elim (dec_le context.length s.f_pos) [
        | yes p ↦ inl p
        | no p ↦ elim (dec_lt (context.length - s.f_pos) count) [
          | yes q ↦ inr (inl q)
          | no q ↦ elim (dec_lt context.dma.buffer_size count) [
            | yes r ↦ inr (inr r)
            | no r ↦ absurd (h (omega arith))
          ]
        ]
      ]

  pub write-Ends : Allowed → Ends context work result
  unfolding amc_pci_dma_write
  write-Ends h =
      rw
        (
          ne→== s.f_pos context.length (omega arith),
          le→ltb context.length s.f_pos (omega arith),
          le→ltb (context.length - s.f_pos) count (omega arith),
          le→ltb context.dma.buffer_size count (omega arith),
        )
        (under_lock-Ends context
          (write_locked engine copy_from_user copy_to_user context a s.f_pos count) s)

  module _ (allowed : Allowed) where
    dst-eq : u64 (context.base + s.f_pos) ≡ context.base + s.f_pos
    dst-eq = omega (arith, v.area)

    pub op_lem :
        (op.0 ≡ outcome engine context.dma a xfer)
        × (is_started engine context.dma a xfer ≡ true → HasRun engine xfer full op.1)
        × (is_started engine context.dma a xfer ≡ false → IsIdle engine full op.1)
    op_lem =
        dma_operation_unlocked_lem engine context.dma a (u64 (context.base + s.f_pos)) count
          dma_to_device full xfer refl (omega arith) (omega (arith, v.control.addressed))
          v.control.narrow

    within :
        (xfer.count ≤ count)
        × (xfer.count ≤ context.dma.buffer_size)
        × (context.base ≤ xfer.dst)
        × (xfer.dst + xfer.count ≤ context.base + context.length)
        × Apart xfer.src xfer.dst xfer.count
    within = ground (arith, dst-eq, v.control.limit, v.apart)

    aligned :
        is_started engine context.dma a xfer ≡ true
        → (xfer.dst % context.dma.alignment ≡ 0) × (xfer.count % context.dma.alignment ≡ 0)
    aligned h = ground (
      arith,
      low_bits-mod context.dma v.control xfer.dst,
      low_bits-mod context.dma v.control xfer.count,
    )

    abbrev CardSafe : Dma → Type 0
    CardSafe d =
        ((d.transfers ≡ s.card.transfers)
          ⊎ ((t : Transfer) × (d.transfers ≡ t ∷ s.card.transfers)
              × IsInside context t.src t.dst t.count))
        × ((j : ℕ)
            → (j < context.dma.buffer_dma) ⊎ (context.dma.buffer_dma + context.dma.buffer_size ≤ j)
            → (j < context.base + s.f_pos) ⊎ (context.base + s.f_pos + count ≤ j)
            → d.memory j ≡ s.card.memory j)

    -- Filling the buffer changes nothing else.
    full-kept :
        (j : ℕ)
        → (j < context.dma.buffer_dma) ⊎ (context.dma.buffer_dma + context.dma.buffer_size ≤ j)
        → copy.1 j ≡ s.card.memory j
    full-kept j out = copied_lem.2 j (ground arith)

    op-safe : CardSafe op.1
    op-safe = elim (Bool-cases (is_started engine context.dma a xfer)) [
      | inl started ↦
          let ran = op_lem.1 started in
          let w = within in
          (
            inr (
              xfer,
              ran.transfers,
              (refl, w.1, w.2, w.3, (aligned started).0, (aligned started).1),
            ),
            λ j out away.
                ap (λ (f : ℕ → ℕ). f j) ran.memory
                ∙ (copies xfer copy.1 w.4).1 j (ground (arith, dst-eq, w.0))
                ∙ full-kept j out,
          )
      | inr idle ↦
          let i = op_lem.2 idle in
          (inl i.transfers, λ j out away. ap (λ (f : ℕ → ℕ). f j) i.memory ∙ full-kept j out)
    ]

    work-safe : CardSafe work.1.card
    work-safe = elim work-cases [
      | inl failed ↦ subst CardSafe (sym failed.1) (inl refl, λ j out away. full-kept j out)
      | inr done ↦ subst CardSafe (sym done.1) op-safe
    ]

    work-pos : work.1.f_pos ≡ s.f_pos
    work-pos = elim work-cases [ inl failed ↦ failed.2 | inr done ↦ done.2 ]

    abbrev Bytes : ℕ → (ℕ → ℕ) → Type 0
    Bytes n memory =
        (n ≤ count)
        × (s.f_pos + n ≤ context.length)
        × ((i : ℕ)
            → i < n
            → memory (context.base + s.f_pos + i)
              ≡ (if ltb i (count - copy.0) then s.user i else 0))

    op-Bytes : (n : ℕ) → op.0 ≡ ok n → Bytes n op.1.memory
    op-Bytes n e =
        let started : is_started engine context.dma a xfer ≡ true = ground (arith, op_lem) in
        let size : n ≡ xfer.count = ground (arith, op_lem) in
        let ran = op_lem.1 started in
        let w = within in
        (
          omega (arith, w.0, size),
          omega (arith, w.0, size),
          λ i lt. ground (
            arith,
            ran.memory,
            dst-eq,
            (copies xfer copy.1 w.4).0 i (omega (arith, size)),
            copied_lem.1 i (omega (arith, w.0, size)),
          ),
        )

    work-Bytes : (n : ℕ) → work.0 ≡ ok n → Bytes n work.1.card.memory
    work-Bytes n e = elim work-cases [
      | inl failed ↦ cc (failed.0)
      | inr done ↦ subst (λ (d : Dma). Bytes n d.memory) (sym done.1) (op-Bytes n (sym done.0 ∙ e))
    ]

    abbrev Rest : ℕ → (ℕ → ℕ) → Type 0
    Rest n memory =
        (j : ℕ)
        → (j < context.dma.buffer_dma) ⊎ (context.dma.buffer_dma + context.dma.buffer_size ≤ j)
        → (j < context.base + s.f_pos) ⊎ (context.base + s.f_pos + n ≤ j)
        → memory j ≡ s.card.memory j

    op-Rest : (n : ℕ) → op.0 ≡ ok n → Rest n op.1.memory
    op-Rest n e j out away =
        let started : is_started engine context.dma a xfer ≡ true = ground (arith, op_lem) in
        let size : n ≡ xfer.count = ground (arith, op_lem) in
        ap (λ (f : ℕ → ℕ). f j) (op_lem.1 started).memory
        ∙ (copies xfer copy.1 within.4).1 j (ground (arith, dst-eq, within.0, size))
        ∙ full-kept j out

    work-Rest : (n : ℕ) → work.0 ≡ ok n → Rest n work.1.card.memory
    work-Rest n e = elim work-cases [
      | inl failed ↦ cc (failed.0)
      | inr done ↦ subst (λ (d : Dma). Rest n d.memory) (sym done.1) (op-Rest n (sym done.0 ∙ e))
    ]

  abbrev Written : Type 0
  Written = IsSafeWrite context count s result × IsWritten context (count - copy.0) count s result

  refused-lem :
      s.card.locked ≡ false
      → (result.1 ≡ s) × ((n : ℕ) → result.0 ≡ ok n → (n ≡ 0) × (s.f_pos ≤ context.length))
      → Written
  refused-lem free (same, zero_) = (
    record {
      free = ap (λ (x : File). x.card.locked) same ∙ free;
      transfer = inl (ap (λ (x : File). x.card.transfers) same);
      kept = λ j out away. ap (λ (x : File). x.card.memory j) same;
    },
    record {
      bytes = λ n e.
          let (z, le) = zero_ n e in
          (
            omega arith,
            omega arith,
            λ i lt. absurd (omega arith),
            ap (λ (x : File). x.f_pos) same ∙ rw z,
          );
      rest = λ n j e out away. ap (λ (x : File). x.card.memory j) same;
      unmoved = λ h. ap (λ (x : File). x.f_pos) same;
    },
  )

  allowed-lem : Allowed → Ends context work result → Written
  allowed-lem allowed ends = (
    record {
      free = ends.free;
      transfer =
          subst
            (λ (l : List Transfer).
              (l ≡ s.card.transfers)
              ⊎ ((t : Transfer) × (l ≡ t ∷ s.card.transfers)
                  × IsInside context t.src t.dst t.count))
            (sym ends.transfers) (work-safe allowed).0;
      kept = λ j out away. ap (λ (f : ℕ → ℕ). f j) ends.memory ∙ (work-safe allowed).1 j out away;
    },
    record {
      bytes = λ n e.
          let (le, inside, memory) = work-Bytes allowed n (sym ends.result ∙ e) in
          (
            le,
            inside,
            λ i lt. ap (λ (f : ℕ → ℕ). f (context.base + s.f_pos + i)) ends.memory ∙ memory i lt,
            ends.moved n (sym ends.result ∙ e) ∙ ap (λ p. next_pos context p n) (work-pos allowed),
          );
      rest = λ n j e out away.
          ap (λ (f : ℕ → ℕ). f j) ends.memory
          ∙ work-Rest allowed n (sym ends.result ∙ e) j out away;
      unmoved = λ h. ends.stays (λ n e. h n (ends.result ∙ e)) ∙ work-pos allowed;
    },
  )

  write-lem : s.card.locked ≡ false → Written
  write-lem free = elim (dec_lt s.f_pos context.length) [
    | no h ↦ refused-lem free (write-refused (λ x. h x.0))
    | yes inside ↦ elim (dec_le (s.f_pos + count) context.length) [
      | no h ↦ refused-lem free (write-refused (λ x. h x.1))
      | yes fits ↦ elim (dec_le count context.dma.buffer_size) [
        | no h ↦ refused-lem free (write-refused (λ x. h x.2))
        | yes short ↦ allowed-lem (inside, fits, short) (write-Ends (inside, fits, short))
      ]
    ]
  ]

  -- A write by `amc_pci_dma_write` with the mutex free, on an area in the lower half of the
  -- address space and apart from the DMA buffer: on every path the mutex is free again, at most
  -- one transfer is made, which is aligned and runs from the buffer into the area, and no memory
  -- changes outside the buffer and the `count` bytes at the position.
  pub amc_pci_dma_write-IsSafeWrite : s.card.locked ≡ false → IsSafeWrite context count s result
  amc_pci_dma_write-IsSafeWrite free = (write-lem free).0

  -- After a write by `amc_pci_dma_write` with the mutex free, on an area in the lower half of the
  -- address space and apart from the DMA buffer, where the engine and `copy_from_user` copy what
  -- they are told to: where it returns `n`, `n` is at most the count, the bytes lie
  -- in the area, the area holds the user's bytes at the position, with zeros for those that
  -- `copy_from_user` did not copy, and the position moves on by `n`, or back to 0 at the end of the
  -- area. No other memory but the buffer changes then. On an error the position stays.
  pub amc_pci_dma_write-IsWritten :
      s.card.locked ≡ false → IsWritten context (count - copy.0) count s result
  amc_pci_dma_write-IsWritten free = (write-lem free).1
