-- ===== src/Core/Opening.antt =====
-- `amc_pci_open` of driver/amc_pci_core.c: which entry of the PROM a file stands for.
use amc_pci_dev.Prelude.{
  ℕ, ◌+◌, ◌-◌, ◌*◌, ◌^◌, ◌≤◌, ltb, ◌≡◌, ◌≢◌, refl, ap, ◌∙◌, arith, Bool, true, false, ◌&&◌, ◌==◌,
  Option, some, Result, ok, err, Errno, enxio, Bool-cases, Option-cases, Result-cases, inl, inr,
  ◌⊎◌, bit_or_shifted,
}
use amc_pci_dev.Utils.Total.{IsBytes}
use amc_pci_dev.Prom.{
  tag_at, prom_device_tag, prom_dma_tag, prom_dma_ext_tag, prom_perm_can_read, prom_perm_can_write,
}
use amc_pci_dev.Prom.Entries.{
  prom_find_entry_with_minor, dma_base_at, dma_length_at, dma_perm_at, dma_ext_base_at,
  dma_ext_length_at, dma_ext_perm_at,
}
use amc_pci_dev.Memory.{MemoryContext, amc_pci_dma_open}
use amc_pci_dev.Core.{
  AmcPci, AccessMode, o_rdonly, o_wronly, o_rdwr, o_accmode, FileData, register_file, dma_file,
  amc_pci_open, amc_pci_release, open_index, open_minor, open_entry, open_area, open_registers,
  dma_base, validate_file_permission,
}

-- What the access mode asks for.
abbrev pub allows : AccessMode → ℕ → Bool
allows o_rdonly perm = prom_perm_can_read perm
allows o_wronly perm = prom_perm_can_write perm
allows o_rdwr perm = prom_perm_can_read perm && prom_perm_can_write perm
allows o_accmode perm = false

pub validate-allows :
    (mode : AccessMode) (perm : ℕ)
    → validate_file_permission mode (prom_perm_can_read perm) (prom_perm_can_write perm)
      ≡ allows mode perm
validate-allows o_rdonly perm = ground arith
validate-allows o_wronly perm = ground arith
validate-allows o_rdwr perm = ground arith
validate-allows o_accmode perm = ground arith

-- The number of users of the card behind an open.
abbrev pub Counted : AmcPci → Result FileData × AmcPci → Type 0
Counted s r =
    (r.1.completed ≡ s.completed)
    × (((f : FileData) × (r.0 ≡ ok f) × (r.1.refcount ≡ s.refcount + 1))
        ⊎ ((e : Errno) × (r.0 ≡ err e) × (r.1.refcount ≡ s.refcount)))

-- The entry that an open file stands for.
abbrev pub IsFileOf : AccessMode → AmcPci → ℕ → FileData → Type 0
IsFileOf mode s entry (register_file c) = tag_at s.prom.buff entry ≡ prom_device_tag
IsFileOf mode s entry (dma_file c) =
    ((tag_at s.prom.buff entry ≡ prom_dma_tag)
      × (c.base
          ≡ dma_base_at s.prom.buff entry 0
            + dma_base_at s.prom.buff entry 1 * 2 ^ 16
            + dma_base_at s.prom.buff entry 2 * 2 ^ 32)
      × (c.length ≡ dma_length_at s.prom.buff entry)
      × (allows mode (dma_perm_at s.prom.buff entry) ≡ true))
    ⊎ ((tag_at s.prom.buff entry ≡ prom_dma_ext_tag)
        × (c.base ≡ dma_ext_base_at s.prom.buff entry)
        × (c.length ≡ dma_ext_length_at s.prom.buff entry)
        × (allows mode (dma_ext_perm_at s.prom.buff entry) ≡ true))

-- The base of a DMA area as the number that its 48 bits spell.
pub dma_base-eq :
    (buff : ℕ → ℕ) (entry : ℕ)
    → IsBytes buff
    → dma_base buff entry
      ≡ dma_base_at buff entry 0
        + dma_base_at buff entry 1 * 2 ^ 16
        + dma_base_at buff entry 2 * 2 ^ 32
dma_base-eq buff entry bytes =
    let low =
      bit_or_shifted 16 (dma_base_at buff entry 0) (dma_base_at buff entry 1)
        (omega (arith, bytes (entry + 2), bytes (entry + 3))) in
    rw low (
      bit_or_shifted 32 (dma_base_at buff entry 0 + dma_base_at buff entry 1 * 2 ^ 16)
        (dma_base_at buff entry 2)
        (omega (arith, bytes (entry + 2), bytes (entry + 3), bytes (entry + 4), bytes (entry + 5))))

module _ (mode : AccessMode) (allocated : Option ℕ) (start len : ℕ) where
  -- The work of an open leaves the count alone.
  open_minor_lem :
      (i : ℕ) (s : AmcPci)
      → ((open_minor mode allocated start len i s).1.refcount ≡ s.refcount)
        × ((open_minor mode allocated start len i s).1.completed ≡ s.completed)
  open_minor_lem i s = (ground arith, ground arith)

  open_index_lem :
      (iminor : ℕ) (s : AmcPci)
      → ((open_index mode allocated start len iminor s).1.refcount ≡ s.refcount)
        × ((open_index mode allocated start len iminor s).1.completed ≡ s.completed)
  open_index_lem iminor s = ground (arith, open_minor_lem (iminor - s.minor) s)

  -- An area that was opened is the one of the entry, and the mode is allowed.
  area_lem :
      (base length perm : ℕ) (s : AmcPci) (f : FileData)
      → (open_area mode allocated start len base length perm s).0 ≡ ok f
      → (c : MemoryContext) × (f ≡ dma_file c)
        × (c.base ≡ base)
        × (c.length ≡ length)
        × (allows mode perm ≡ true)
  unfolding amc_pci_dma_open
  area_lem base length perm s f e = (
    record { dma = s.dma; base = base; length = length },
    ground (arith, e, validate-allows mode perm),
    refl,
    refl,
    ground (arith, e, validate-allows mode perm),
  )

  registers_lem :
      (s : AmcPci) (c : MemoryContext)
      → (open_registers mode allocated start len s).0 ≢ ok (dma_file c)
  registers_lem s c e = ground (arith, e)

  -- Only a DMA entry with 48 bits of base, or an extended one, opens a DMA file.
  dma-IsFileOf :
      (entry : ℕ) (s : AmcPci) (c : MemoryContext)
      → IsBytes s.prom.buff
      → (open_entry mode allocated start len s.prom.buff entry s).0 ≡ ok (dma_file c)
      → IsFileOf mode s entry (dma_file c)
  dma-IsFileOf entry s c bytes e = elim (Bool-cases (tag_at s.prom.buff entry == prom_device_tag)) [
    | inl device ↦ absurd (registers_lem s c (ground (arith, e, device)))
    | inr not_device ↦ elim (Bool-cases (tag_at s.prom.buff entry == prom_dma_tag)) [
      | inl dma ↦
          let (d, same, b, l, p) =
            area_lem (dma_base s.prom.buff entry) (dma_length_at s.prom.buff entry)
              (dma_perm_at s.prom.buff entry) s (dma_file c) (ground (arith, e, not_device, dma)) in
          let eq : c ≡ d = cc in
          inl (
            ground (arith, dma),
            ap MemoryContext.base eq ∙ b ∙ dma_base-eq s.prom.buff entry bytes,
            ap MemoryContext.length eq ∙ l,
            p,
          )
      | inr not_dma ↦ elim (Bool-cases (tag_at s.prom.buff entry == prom_dma_ext_tag)) [
        | inl ext ↦
            let (d, same, b, l, p) =
              area_lem (dma_ext_base_at s.prom.buff entry) (dma_ext_length_at s.prom.buff entry)
                (dma_ext_perm_at s.prom.buff entry) s (dma_file c)
                (ground (arith, e, not_device, not_dma, ext)) in
            let eq : c ≡ d = cc in
            inr
              (ground (arith, ext), ap MemoryContext.base eq ∙ b, ap MemoryContext.length eq ∙ l, p)
        | inr not_ext ↦ absurd (ground (arith, e, not_device, not_dma, not_ext))
      ]
    ]
  ]

  open_entry-IsFileOf :
      (entry : ℕ) (s : AmcPci) (f : FileData)
      → IsBytes s.prom.buff
      → (open_entry mode allocated start len s.prom.buff entry s).0 ≡ ok f
      → IsFileOf mode s entry f
  unfolding amc_pci_dma_open
  open_entry-IsFileOf entry s (register_file c) bytes e = ground (arith, e)
  open_entry-IsFileOf entry s (dma_file c) bytes e = dma-IsFileOf entry s c bytes e

  -- What `open_minor` returns is the file of the entry that it finds.
  open_minor-IsFileOf :
      (i : ℕ) (s : AmcPci) (f : FileData)
      → IsBytes s.prom.buff
      → (open_minor mode allocated start len i s).0 ≡ ok f
      → (entry : ℕ) × (prom_find_entry_with_minor s.prom i ≡ some entry) × IsFileOf mode s entry f
  open_minor-IsFileOf i s f bytes e = elim (Option-cases (prom_find_entry_with_minor s.prom i)) [
    | inl absent ↦ absurd (ground (arith, absent, e))
    | inr (entry, found) ↦
        (entry, found, open_entry-IsFileOf entry s f bytes (ground (arith, found, e)))
  ]

  pub amc_pci_open-Counted :
      (iminor : ℕ) (s : AmcPci) → Counted s (amc_pci_open mode allocated start len iminor s)
  unfolding amc_pci_open amc_pci_release
  amc_pci_open-Counted iminor s = elim (Bool-cases (s.refcount == 0)) [
    | inl gone ↦ (ground (arith, gone), inr (enxio, ground (arith, gone), ground (arith, gone)))
    | inr used ↦ elim (Result-cases (open_index mode allocated start len iminor counted).0) [
      | inl (f, e) ↦ (
        ground (arith, used, e, kept),
        inl (f, ground (arith, used, e), ground (arith, used, e, kept)),
      )
      | inr (x, e) ↦ (
        ground (arith, used, e, kept),
        inr (x, ground (arith, used, e), ground (arith, used, e, kept)),
      )
    ]
  ]
    where
      counted : AmcPci
      counted = record s { refcount = s.refcount + 1 }

      kept :
          ((open_index mode allocated start len iminor counted).1.refcount ≡ s.refcount + 1)
          × ((open_index mode allocated start len iminor counted).1.completed ≡ s.completed)
      kept = open_index_lem iminor counted

  pub amc_pci_open-gone :
      (iminor : ℕ) (s : AmcPci)
      → s.refcount ≡ 0
      → amc_pci_open mode allocated start len iminor s ≡ (err enxio, s)
  unfolding amc_pci_open
  amc_pci_open-gone iminor s z = ground (arith, z)

  -- Where the PROM buffer holds bytes: an open either succeeds, and the card has one user more, or
  -- fails, and has as many as before. It completes nothing. On a card without users it fails with
  -- -ENXIO. A file that was opened has a minor number from the card's first one on, and stands for
  -- the entry of the PROM with this minor number: a register file for a device entry, and a DMA
  -- file, with the base and length that the entry has, for a DMA entry whose permissions allow the
  -- access mode.
  pub amc_pci_open_lem :
      (iminor : ℕ) (s : AmcPci)
      → IsBytes s.prom.buff
      → Counted s (amc_pci_open mode allocated start len iminor s)
        × (s.refcount ≡ 0 → amc_pci_open mode allocated start len iminor s ≡ (err enxio, s))
        × ((f : FileData)
            → (amc_pci_open mode allocated start len iminor s).0 ≡ ok f
            → (s.minor ≤ iminor)
              × ((entry : ℕ) × (prom_find_entry_with_minor s.prom (iminor - s.minor) ≡ some entry)
                  × IsFileOf mode s entry f))
  unfolding amc_pci_open amc_pci_release
  amc_pci_open_lem iminor s bytes = (
    amc_pci_open-Counted iminor s,
    amc_pci_open-gone iminor s,
    (λ f e. elim (Bool-cases (s.refcount == 0)) [
      | inl gone ↦ absurd (ground (arith, gone, e))
      | inr used ↦ elim (Bool-cases (ltb iminor s.minor)) [
        | inl below ↦ absurd (ground (arith, used, below, e))
        | inr from ↦ (
          ground (arith, from),
          open_minor-IsFileOf (iminor - s.minor) counted f bytes (ground (arith, used, from, e)),
        )
      ]
    ]),
  )
    where
      counted : AmcPci
      counted = record s { refcount = s.refcount + 1 }
