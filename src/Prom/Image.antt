-- ===== src/Prom/Image.antt =====
-- What a well-formed PROM image is, independently of the code, and the image that `load_prom`
-- looks at.
use amc_pci_dev.Prelude.{
  ℕ, ◌+◌, ◌^◌, Bool, ◌||◌, ◌%◌, ◌<◌, ◌≡◌, arith, List, length, get_or, true, ◌⊎◌, select, ltb,
  if◌then◌else◌, fun_ext, ok, err, eio, ◌==◌, ◌∙◌, ap, Bool-cases, inl, inr,
}
use native.Mathlib.Nat.{add-zero}
use amc_pci_dev.Utils.Total.{total, IsBytes}
use amc_pci_dev.Prom.{PromContext, prom_entry_needs_minor}
use amc_pci_dev.Prom.Read.{read_prom, read_prom_lem, card_byte}
use amc_pci_dev.Prom.Load.{blank, check_magic, copy_in, load_image}
use amc_pci_dev.Prom.Chain.{Chain}

-- An image of `data_len` bytes with entries at the offsets `xs`: version 1 at offset 4, the
-- entries from offset 5 on, an end marker with a checksum of 2 or 3 bytes, fewer than 4096 bytes
-- in all, and a sum of little-endian words that is a positive multiple of 65535.
pub record IsImage (buff : ℕ → ℕ) (xs : List ℕ) (data_len : ℕ) : Type 0 where
  pub end_at : ℕ
  pub version : buff 4 ≡ 1
  pub chain : Chain buff xs 5 end_at
  pub marker : (buff (end_at + 1) ≡ 2) ⊎ (buff (end_at + 1) ≡ 3)
  pub ends : data_len ≡ end_at + buff (end_at + 1) + 2
  pub short : data_len < 4096
  pub some_bits : 0 < total buff data_len
  pub summed : total buff data_len % 65535 ≡ 0

-- The tags of the two kinds of DMA areas.
abbrev pub names_area : (ℕ → ℕ) → ℕ → Bool
names_area buff entry = buff entry == 2 || buff entry == 3

-- The letters D, I, A and G in the low 32 bits, the first one lowest.
abbrev pub has_magic : ℕ → Bool
has_magic word = word % 2 ^ 32 == 0x47414944

magic-eq : (word : ℕ) → check_magic word ≡ has_magic word
magic-eq word = ground arith

-- The context that describes such an image.
abbrev pub described : ℕ → (ℕ → ℕ) → List ℕ → ℕ → PromContext
described base buff xs data_len = record {
  base = base;
  buff = buff;
  data_len = data_len;
  nentries = length xs;
  dma_nentries = length (select (names_area buff) xs);
  nentries_with_minor = length (select (prom_entry_needs_minor buff) xs);
}

module _ (default_prom : List ℕ) (beyond : ℕ → ℕ) (ioread32 : ℕ → ℕ) (base : ℕ) where
  -- The card's 4096 bytes if they begin with the magic word, else the default image, over zeros.
  abbrev pub image : ℕ → ℕ
  image j =
      if has_magic (ioread32 base)
      then (if ltb j 4096 then card_byte ioread32 base j else (blank beyond base).buff j)
      else copy_in (blank beyond base).buff default_prom j

  pub image-IsBytes : IsBytes (λ j. get_or default_prom j 0) → IsBytes beyond → IsBytes image
  image-IsBytes d b j = ground (arith, d j, b j)

  pub load_image_lem : load_image default_prom beyond ioread32 (blank beyond base) ≡ ok image
  unfolding load_image
  load_image_lem = elim (Bool-cases (has_magic (ioread32 base))) [
    | inl card ↦
        rw (magic-eq (ioread32 base), card)
          (whole card (
            (read_prom_lem ioread32 (blank beyond base) (blank beyond base).buff 0 4096).1
              (omega arith)))
    | inr other ↦ rw (magic-eq (ioread32 base), other) (ap ok (fun_ext λ j. rw other))
  ]
    where
      whole :
          has_magic (ioread32 base) ≡ true
          → (out : ℕ → ℕ) × (read_prom ioread32 (blank beyond base) (blank beyond base).buff 0 4096
              ≡ ok (record { size = 4096; out = out }))
            × ((j : ℕ)
                → out j ≡ (
                    if ltb j 4096
                    then card_byte ioread32 (base + 0) j
                    else (blank beyond base).buff j))
          → (elim (read_prom ioread32 (blank beyond base) (blank beyond base).buff 0 4096) [
            | ok r ↦ if r.size == 4096 then ok r.out else err eio
            | err e ↦ err eio
          ])
            ≡ ok image
      whole card (out, e, at) = rw e (ap ok (fun_ext λ j. at j ∙ rw (add-zero, card)))
