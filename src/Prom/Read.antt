-- ===== src/Prom/Read.antt =====
-- `read_prom`: copying the PROM out of the card, a 32-bit word at a time. `ioread32` is the
-- kernel's read of the card's memory at an address.
use amc_pci_dev.Prelude.{
  ℕ, zero, suc, ◌+◌, ◌-◌, ◌*◌, ◌/◌, ◌≤◌, ◌<◌, min, true, false, ◌&&◌, ltb, leb, if◌then◌else◌,
  byte_of, Result, ok, err, einval, ◌%◌, ◌≡◌, refl, arith, ◌∙◌, Bool-cases, ltb→lt, inl, inr,
  le→ltb, lt→ltb,
}
use amc_pci_dev.Prom.{PromContext, prom_max_length}

-- `memcpy(buff + i, &rval, 4)`
abbrev pub put_word : (ℕ → ℕ) → ℕ → ℕ → ℕ → ℕ
put_word buff i rval j = if leb i j && ltb j (i + 4) then byte_of rval (j - i) else buff j

-- The loop `for (i = 0; i < size; i += 4)`, with fuel for its rounds.
pub read_words : (ℕ → ℕ) → ℕ → ℕ → ℕ → ℕ → (ℕ → ℕ) → ℕ → ℕ
read_words ioread32 from size zero i buff = buff
read_words ioread32 from size (suc fuel) i buff = elim (ltb i size) [
  | true ↦ read_words ioread32 from size fuel (i + 4) (put_word buff i (ioread32 (from + i)))
  | false ↦ buff
]

-- The number of bytes and the caller's buffer after the call.
unfoldable pub read_prom :
    (ℕ → ℕ) → PromContext → (ℕ → ℕ) → ℕ → ℕ → Result (record { size : ℕ; out : ℕ → ℕ })
unfolding read_words
read_prom ioread32 context buff off count =
    if ltb prom_max_length off
    then err einval
    else let off_al = off / 4 * 4 in
      let size = min (prom_max_length - off_al) count in
      ok
        (record { size = size; out = read_words ioread32 (context.base + off_al) size size 0 buff })

-- The bytes that the loop writes, up to the next multiple of 4.
abbrev pub padded : ℕ → ℕ
padded size = (size + 3) / 4 * 4

-- The card's byte `j` behind the address `from`.
abbrev pub card_byte : (ℕ → ℕ) → ℕ → ℕ → ℕ
card_byte ioread32 from j = byte_of (ioread32 (from + j / 4 * 4)) (j % 4)

module _ (ioread32 : ℕ → ℕ) (from size : ℕ) where
  same_byte :
      (i j : ℕ)
      → i % 4 ≡ 0
      → i ≤ j
      → j < i + 4
      → byte_of (ioread32 (from + i)) (j - i) ≡ card_byte ioread32 from j
  same_byte i j aligned low high =
      let e : j / 4 * 4 ≡ i = omega arith in let r : j % 4 ≡ j - i = omega arith in rw (e, r)

  put_word_step :
      (i : ℕ) (buff : ℕ → ℕ) (j : ℕ)
      → i % 4 ≡ 0
      → i < size
      → (if leb (i + 4) j && ltb j (padded size)
          then card_byte ioread32 from j
          else put_word buff i (ioread32 (from + i)) j)
        ≡ (if leb i j && ltb j (padded size) then card_byte ioread32 from j else buff j)
  put_word_step i buff j aligned more = ground (arith, same_byte i j aligned)

  pub read_words_lem :
      (fuel i : ℕ) (buff : ℕ → ℕ) (j : ℕ)
      → i % 4 ≡ 0
      → size ≤ i + 4 * fuel
      → read_words ioread32 from size fuel i buff j
        ≡ (if leb i j && ltb j (padded size) then card_byte ioread32 from j else buff j)
  unfolding read_words
  read_words_lem zero i buff j aligned enough = ground arith
  read_words_lem (suc fuel) i buff j aligned enough = elim (Bool-cases (ltb i size)) [
    | inl more ↦
        rw (more, read_words)
          (read_words_lem fuel (i + 4) (put_word buff i (ioread32 (from + i))) j (omega arith)
              (omega arith)
            ∙ put_word_step i buff j aligned (ltb→lt i size more))
    | inr over ↦ rw (over, read_words) (ground arith)
  ]

-- `read_prom` refuses an offset beyond 4096. Otherwise it returns the smaller of `count` and what
-- is left behind the offset rounded down to a multiple of 4. The caller's buffer then holds the
-- card's bytes from the rounded offset on, up to the returned size rounded up to a multiple of 4,
-- and is unchanged behind that.
pub read_prom_lem :
    (ioread32 : ℕ → ℕ) (context : PromContext) (buff : ℕ → ℕ) (off count : ℕ)
    → (4096 < off → read_prom ioread32 context buff off count ≡ err einval)
      × (off ≤ 4096
          → (out : ℕ → ℕ) × (read_prom ioread32 context buff off count
              ≡ ok (record { size = min (4096 - off / 4 * 4) count; out = out }))
            × ((j : ℕ)
                → out j ≡ (
                    if ltb j (padded (min (4096 - off / 4 * 4) count))
                    then card_byte ioread32 (context.base + off / 4 * 4) j
                    else buff j)))
unfolding read_prom
read_prom_lem ioread32 context buff off count = (
  (λ h. rw (lt→ltb _ _ h)),
  (λ h. (
    read_words ioread32 (context.base + off / 4 * 4) size size 0 buff,
    rw (le→ltb 4096 off h),
    (λ j.
        read_words_lem ioread32 (context.base + off / 4 * 4) size size 0 buff j refl (omega arith)
        ∙ ground arith),
  )),
)
  where
    size : ℕ
    size = min (4096 - off / 4 * 4) count
