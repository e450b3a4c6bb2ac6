-- ===== src/Memory/Reads.antt =====
-- `amc_pci_dma_read` of driver/memory.c as a whole: what the user gets, where the file stands
-- afterwards, and what the card and the mutex see of it.
use amc_pci_dev.Prelude.{
  ℕ, zero, suc, ◌+◌, ◌%◌, ◌≤◌, ◌<◌, ◌≡◌, ◌≢◌, refl, arith, true, false, ◌⊎◌, inl, inr, Result, ok,
  Bool-cases, List, ◌∷◌, ◌∙◌, ap, subst, sym, dec_lt, ℕ_discrete, ne→==, le→ltb,
}
use amc_pci_dev.Dma.{Dma, Transfer, Answers}
use amc_pci_dev.Dma.Laws.{is_started}
use amc_pci_dev.Memory.{MemoryContext, File, Copy, read_locked, amc_pci_dma_read, read_dma_count}
use amc_pci_dev.Memory.Plan.{IsArea, low_bits-mod, max_rw_count}
use amc_pci_dev.Memory.Lock.{Copies, CopiesTo, next_pos, Ends, under_lock-Ends, locked_card}
use amc_pci_dev.Memory.Reading.{
  plan, Drained, drained-lem, operated, operated_lem, read_transfer, within, started, counts,
  read_byte, dma_count, worked,
}
use amc_pci_dev.Memory.Outcomes.{IsInside, IsSafeRead, IsDelivered}

module _ (engine : Transfer → (ℕ → ℕ) → ℕ → ℕ) (copy_from_user copy_to_user : Copy)
    (context : MemoryContext) (a : Answers) (copies : Copies engine) (to : CopiesTo copy_to_user)
    (v : IsArea context) (count : ℕ) (sane : count ≤ max_rw_count) (s : File) where
  abbrev result : Result ℕ × File
  result = amc_pci_dma_read engine copy_from_user copy_to_user context a count s

  abbrev work : Result ℕ × File
  work = worked engine copy_from_user copy_to_user context a copies to v count sane s

  abbrev op : Result ℕ × Dma
  op = operated engine copy_from_user copy_to_user context a copies to v count sane s

  drained :
      Drained engine copy_from_user copy_to_user context a s.f_pos count (locked_card s) op work
  drained =
      drained-lem engine copy_from_user copy_to_user context a to s.f_pos count (locked_card s) op

  -- At the end of the area, past it, and where nothing can be read aligned, the state is as before.
  read-outside :
      (context.length ≤ s.f_pos)
        ⊎ (dma_count engine copy_from_user copy_to_user context a copies to v count sane s ≡ 0)
      → (result.1 ≡ s) × ((n : ℕ) → result.0 ≡ ok n → (n ≡ 0) × (s.f_pos ≤ context.length))
  unfolding amc_pci_dma_read
  read-outside h = ground arith

  pub read-Ends :
      s.f_pos < context.length
      → dma_count engine copy_from_user copy_to_user context a copies to v count sane s ≢ 0
      → Ends context work result
  unfolding amc_pci_dma_read read_locked
  read-Ends inside some =
      rw
        (
          ne→== s.f_pos context.length (omega arith),
          le→ltb context.length s.f_pos (omega arith),
          ne→== (read_dma_count context s.f_pos count) 0 some,
        )
        (under_lock-Ends context
          (read_locked engine copy_from_user copy_to_user context a s.f_pos count
            (read_dma_count context s.f_pos count))
          s)

  abbrev Here : Type 0
  Here = s.f_pos < context.length

  abbrev xfer : Transfer
  xfer = read_transfer engine copy_from_user copy_to_user context a copies to v count sane s

  -- What the card shows of the call, by its state behind the transfer.
  abbrev CardSafe : Dma → Type 0
  CardSafe d =
      ((d.transfers ≡ s.card.transfers)
        ⊎ ((t : Transfer) × (d.transfers ≡ t ∷ s.card.transfers)
            × IsInside context t.dst t.src t.count))
      × ((j : ℕ)
          → (j < context.dma.buffer_dma) ⊎ (context.dma.buffer_dma + context.dma.buffer_size ≤ j)
          → d.memory j ≡ s.card.memory j)

  aligned :
      is_started engine context.dma a xfer ≡ true
      → (xfer.src % context.dma.alignment ≡ 0) × (xfer.count % context.dma.alignment ≡ 0)
  aligned h = ground (
    arith,
    low_bits-mod context.dma v.control xfer.src,
    low_bits-mod context.dma v.control xfer.count,
  )

  xfer-IsInside :
      Here
      → is_started engine context.dma a xfer ≡ true
      → IsInside context xfer.dst xfer.src xfer.count
  xfer-IsInside inside h =
      let w = within engine copy_from_user copy_to_user context a copies to v count sane s inside in
      (refl, w.2, w.0, w.1, (aligned h).0, (aligned h).1)

  op-safe : Here → CardSafe op.1
  op-safe inside = elim (Bool-cases (is_started engine context.dma a xfer)) [
    | inl yes_ ↦
        let ran =
          (operated_lem engine copy_from_user copy_to_user context a copies to v count sane s
              inside).1
            yes_ in
        let w =
          within engine copy_from_user copy_to_user context a copies to v count sane s inside in
        (
          inr (xfer, ran.transfers, xfer-IsInside inside yes_),
          λ j out.
              ap (λ (f : ℕ → ℕ). f j) ran.memory
              ∙ (copies xfer s.card.memory w.3).1 j (ground (arith, w.2)),
        )
    | inr no_ ↦
        let idle =
          (operated_lem engine copy_from_user copy_to_user context a copies to v count sane s
              inside).2
            no_ in
        (inl idle.transfers, λ j out. ap (λ (f : ℕ → ℕ). f j) idle.memory)
  ]

  -- The card behind the work under the lock is the card behind the transfer.
  work-safe : Here → CardSafe work.1.card
  work-safe inside = subst CardSafe (sym drained.card) (op-safe inside)

  work-read :
      Here
      → (n : ℕ) → work.0 ≡ ok n
      → 0 < n
      → (n ≤ count)
        × (s.f_pos + n ≤ context.length)
        × ((i : ℕ) → i < n → work.1.user i ≡ s.card.memory (context.base + s.f_pos + i))
  work-read inside n e pos =
      let (m, em, pm, le, fits, bytes) = drained.copied n e pos in
      let c =
        counts engine copy_from_user copy_to_user context a copies to v count sane s inside m n em
          pm fits in
      let st =
        started engine copy_from_user copy_to_user context a copies to v count sane s inside m em in
      let w = within engine copy_from_user copy_to_user context a copies to v count sane s inside in
      let p = plan engine copy_from_user copy_to_user context a copies to v count sane s inside in
      (
        le,
        omega (arith, c, st.1, w.1, p.2),
        λ i lt.
            bytes i lt
            ∙ read_byte engine copy_from_user copy_to_user context a copies to v count sane s inside
                m n em pm fits i lt,
      )

  -- Where nothing is done.
  outside-lem :
      s.card.locked ≡ false
      → (result.1 ≡ s) × ((n : ℕ) → result.0 ≡ ok n → (n ≡ 0) × (s.f_pos ≤ context.length))
      → IsSafeRead context s result × IsDelivered context count s result
  outside-lem free (same, zero_) = (
    record {
      free = ap (λ (x : File). x.card.locked) same ∙ free;
      transfer = inl (ap (λ (x : File). x.card.transfers) same);
      kept = λ j out. ap (λ (x : File). x.card.memory j) same;
    },
    record {
      bytes = λ n e.
          let (z, le) = zero_ n e in
          (
            omega arith,
            omega arith,
            λ i lt. absurd (omega arith),
            ap (λ (x : File). x.f_pos) same ∙ rw z,
          );
      unmoved = λ h. ap (λ (x : File). x.f_pos) same;
    },
  )

  inside-lem :
      (inside : Here)
      → Ends context work result
      → IsSafeRead context s result × IsDelivered context count s result
  inside-lem inside ends = (
    record {
      free = ends.free;
      transfer =
          subst
            (λ (l : List Transfer).
              (l ≡ s.card.transfers)
              ⊎ ((t : Transfer) × (l ≡ t ∷ s.card.transfers)
                  × IsInside context t.dst t.src t.count))
            (sym ends.transfers) (work-safe inside).0;
      kept = λ j out. ap (λ (f : ℕ → ℕ). f j) ends.memory ∙ (work-safe inside).1 j out;
    },
    record {
      bytes = λ n e. bytes_of n (sym ends.result ∙ e);
      unmoved = λ h. ends.stays (λ n e. h n (ends.result ∙ e)) ∙ drained.pos;
    },
  )
    where
      moved : (n : ℕ) → work.0 ≡ ok n → result.1.f_pos ≡ next_pos context s.f_pos n
      moved n e = ends.moved n e ∙ ap (λ p. next_pos context p n) drained.pos

      bytes_of :
          (n : ℕ)
          → work.0 ≡ ok n
          → (n ≤ count)
            × (s.f_pos + n ≤ context.length)
            × ((i : ℕ) → i < n → result.1.user i ≡ s.card.memory (context.base + s.f_pos + i))
            × (result.1.f_pos ≡ next_pos context s.f_pos n)
      bytes_of zero e = (omega arith, omega arith, λ i lt. absurd (omega arith), moved zero e)
      bytes_of (suc n) e =
          let (le, in_, user) = work-read inside (suc n) e (omega arith) in
          (le, in_, λ i lt. ap (λ (f : ℕ → ℕ). f i) ends.user ∙ user i lt, moved (suc n) e)

  read-lem :
      s.card.locked ≡ false → IsSafeRead context s result × IsDelivered context count s result
  read-lem free = elim (dec_lt s.f_pos context.length) [
    | no h ↦ outside-lem free (read-outside (inl (omega arith)))
    | yes inside ↦ elim (ℕ_discrete (read_dma_count context s.f_pos count) 0) [
      | yes z ↦ outside-lem free (read-outside (inr z))
      | no some ↦ inside-lem inside (read-Ends inside some)
    ]
  ]

  -- A read by `amc_pci_dma_read` with the mutex free, on an area in the lower half of the address
  -- space and apart from the DMA buffer, with a count up to MAX_RW_COUNT: on every path the mutex
  -- is free again, at most one transfer is made, which is aligned and runs from within the area
  -- into the buffer, and no memory outside the buffer changes.
  pub amc_pci_dma_read-IsSafeRead : s.card.locked ≡ false → IsSafeRead context s result
  amc_pci_dma_read-IsSafeRead free = (read-lem free).0

  -- After a read by `amc_pci_dma_read` with the mutex free, on an area in the lower half of the
  -- address space and apart from the DMA buffer, with a count up to MAX_RW_COUNT, where the engine
  -- and `copy_to_user` copy what they are told to: where it returns `n` bytes, `n` is at most the
  -- count, the bytes lie in the area, the user's buffer holds the area's bytes at the position,
  -- and the position moves on by `n`, or back to 0 at the end of the area. On an error the
  -- position stays.
  pub amc_pci_dma_read-IsDelivered : s.card.locked ≡ false → IsDelivered context count s result
  amc_pci_dma_read-IsDelivered free = (read-lem free).1
