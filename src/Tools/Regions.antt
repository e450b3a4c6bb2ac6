-- ===== src/Tools/Regions.antt =====
-- The fields of the structures of driver/prom_processing.h read what
-- driver/tools/prom_data_creator.py packs for a region.
use amc_pci_dev.Prelude.{
  ℕ, ◌+◌, ◌*◌, ◌/◌, ◌%◌, ◌^◌, ◌≤◌, ◌<◌, ◌≡◌, refl, ap, ap₂, ◌∙◌, arith, ◌||◌, ltb, true, false,
  List, [], ◌∷◌, ◌++◌, length, get_or, Bool,
}
use amc_pci_dev.Prom.{tag_at, prom_dma_tag, prom_dma_ext_tag}
use amc_pci_dev.Prom.Entries.{
  u16_at, u32_at, u64_at, dma_base_at, dma_length_at, dma_perm_at, dma_ext_base_at,
  dma_ext_length_at, dma_ext_perm_at,
}
use amc_pci_dev.Tools.{region, dump_field, pack, encode}

-- Four bytes of a number and what they leave of it.
four_bytes :
    (x : ℕ)
    → x % 256
        + 256 * (x / 256 % 256)
        + 2 ^ 16 * (x / 256 / 256 % 256 + 256 * (x / 256 / 256 / 256 % 256))
        + 2 ^ 32 * (x / 256 / 256 / 256 / 256)
      ≡ x
four_bytes x = omega arith

high_word : (x : ℕ) → x / 256 / 256 / 256 / 256 ≡ x / 2 ^ 32
high_word x = omega arith

module _ (buff bytes : ℕ → ℕ) (x n : ℕ) (holds : (j : ℕ) → j < n → buff (x + j) ≡ bytes j) where
  u16-holds : (o : ℕ) → o + 2 ≤ n → u16_at buff (x + o) ≡ bytes o + 256 * bytes (o + 1)
  u16-holds o h =
      ap₂ (λ a b. a + 256 * b) (holds o (omega arith))
        (ap buff (omega arith) ∙ holds (o + 1) (omega arith))

  u32-holds :
      (o : ℕ)
      → o + 4 ≤ n
      → u32_at buff (x + o)
        ≡ bytes o + 256 * bytes (o + 1) + 2 ^ 16 * (bytes (o + 2) + 256 * bytes (o + 3))
  u32-holds o h =
      let next : x + o + 2 ≡ x + (o + 2) = omega arith in
      let last : o + 2 + 1 ≡ o + 3 = omega arith in
      ap₂ (λ a b. a + 2 ^ 16 * b) (u16-holds o (omega arith))
        (ap (u16_at buff) next
          ∙ u16-holds (o + 2) (omega arith)
          ∙ ap (λ k. bytes (o + 2) + 256 * bytes k) last)

two_bytes : (x : ℕ) → x < 2 ^ 16 → x % 256 + 256 * (x / 256 % 256) ≡ x
two_bytes x h = omega arith

-- The three halves of a word of a base, from the two parts that are packed.
base_parts :
    (base : ℕ)
    → base < 2 ^ 48
    → base % 2 ^ 32 % 256
        + 256 * (base % 2 ^ 32 / 256 % 256)
        + (base % 2 ^ 32 / 256 / 256 % 256 + 256 * (base % 2 ^ 32 / 256 / 256 / 256 % 256)) * 2 ^ 16
        + (base / 2 ^ 32 % 256 + 256 * (base / 2 ^ 32 / 256 % 256)) * 2 ^ 32
      ≡ base
base_parts base h =
    let low = four_bytes (base % 2 ^ 32) in
    let none_left : base % 2 ^ 32 / 256 / 256 / 256 / 256 ≡ 0 = omega arith in
    let high = two_bytes (base / 2 ^ 32) (omega arith) in
    let split : base % 2 ^ 32 + 2 ^ 32 * (base / 2 ^ 32) ≡ base = omega arith in
    omega (arith, low, none_left, high, split)

short_word :
    (x : ℕ)
    → x < 2 ^ 32
    → x % 256
        + 256 * (x / 256 % 256)
        + 2 ^ 16 * (x / 256 / 256 % 256 + 256 * (x / 256 / 256 / 256 % 256))
      ≡ x
short_word x h =
    let none_left : x / 256 / 256 / 256 / 256 ≡ 0 = omega arith in
    omega (arith, four_bytes x, none_left)

eight_bytes :
    (x : ℕ)
    → x < 2 ^ 64
    → x % 256
        + 256 * (x / 256 % 256)
        + 2 ^ 16 * (x / 256 / 256 % 256 + 256 * (x / 256 / 256 / 256 % 256))
        + 2 ^ 32
          * (x / 256 / 256 / 256 / 256 % 256
              + 256 * (x / 256 / 256 / 256 / 256 / 256 % 256)
              + 2 ^ 16
                * (x / 256 / 256 / 256 / 256 / 256 / 256 % 256
                    + 256 * (x / 256 / 256 / 256 / 256 / 256 / 256 / 256 % 256)))
      ≡ x
eight_bytes x h =
    let bound : x / 256 / 256 / 256 / 256 < 2 ^ 32 = omega (arith, high_word x) in
    omega (arith, four_bytes x, short_word (x / 256 / 256 / 256 / 256) bound)

-- A region in its short form, where it has one.
abbrev pub is_wide : ℕ → ℕ → Bool
is_wide base size = ltb 0xffffffffffff base || ltb 0xffffffff size

module _ (text : List ℕ) (perm base size : ℕ) (perms : perm < 256) (base_fits : base < 2 ^ 64)
    (size_fits : size < 2 ^ 64) (buff : ℕ → ℕ) (x : ℕ)
    (holds : (j : ℕ)
      → j < length (dump_field (region text perm base size))
      → buff (x + j) ≡ get_or (dump_field (region text perm base size)) j 0) where
  pub region-short :
      is_wide base size ≡ false
      → (tag_at buff x ≡ prom_dma_tag)
        × (dma_base_at buff x 0 + dma_base_at buff x 1 * 2 ^ 16 + dma_base_at buff x 2 * 2 ^ 32
            ≡ base)
        × (dma_length_at buff x ≡ size)
        × (dma_perm_at buff x ≡ perm)
  region-short narrow = (
    ap buff (omega arith) ∙ short 0 (omega arith),
    ap₂ (λ (a : ℕ × ℕ) c. a.0 + a.1 * 2 ^ 16 + c * 2 ^ 32)
          (ap₂ (λ a b. (a, b)) (half 0 2 (omega arith) (omega arith))
            (half 1 4 (omega arith) (omega arith)))
          (half 2 6 (omega arith) (omega arith))
        ∙ base_parts base (omega (arith, bounds)),
    u32-holds buff (λ j. get_or bytes j 0) x 13 short 8 (omega arith)
        ∙ short_word size (omega (arith, bounds)),
    short 12 (omega arith) ∙ omega (arith, perms),
  )
    where
      bytes : List ℕ
      bytes =
          pack 1 2
          ++ pack 1 (length text + 12)
          ++ pack 4 (base % 2 ^ 32)
          ++ pack 2 (base / 2 ^ 32)
          ++ pack 4 size
          ++ pack 1 perm
          ++ encode text
          ++ 0 ∷ []

      shape : dump_field (region text perm base size) ≡ bytes
      shape = rw narrow refl

      longer : (j : ℕ) → j < 13 → j < length (dump_field (region text perm base size))
      longer j lt = omega (arith, ap length shape)

      bounds : (base < 2 ^ 48) × (size < 2 ^ 32)
      bounds = ground (arith, narrow)

      short : (j : ℕ) → j < 13 → buff (x + j) ≡ get_or bytes j 0
      short j lt = ap buff refl ∙ holds j (longer j lt) ∙ ap (λ b. get_or b j 0) shape

      half :
          (k o : ℕ)
          → 2 + 2 * k ≡ o
          → o + 2 ≤ 13
          → dma_base_at buff x k ≡ get_or bytes o 0 + 256 * get_or bytes (o + 1) 0
      half k o e h =
          let here : x + 2 + 2 * k ≡ x + o = omega arith in
          ap (u16_at buff) here ∙ u16-holds buff (λ j. get_or bytes j 0) x 13 short o h

  pub region-wide :
      is_wide base size ≡ true
      → (tag_at buff x ≡ prom_dma_ext_tag)
        × (dma_ext_base_at buff x ≡ base)
        × (dma_ext_length_at buff x ≡ size)
        × (dma_ext_perm_at buff x ≡ perm)
  region-wide wide = (
    ap buff (omega arith) ∙ long 0 (omega arith),
    long_at 2 (omega arith) ∙ eight_bytes base base_fits,
    long_at 10 (omega arith) ∙ eight_bytes size size_fits,
    long 18 (omega arith) ∙ omega (arith, perms),
  )
    where
      bytes : List ℕ
      bytes =
          pack 1 3
          ++ pack 1 (length text + 18)
          ++ pack 8 base
          ++ pack 8 size
          ++ pack 1 perm
          ++ encode text
          ++ 0 ∷ []

      shape : dump_field (region text perm base size) ≡ bytes
      shape = rw wide refl

      longer : (j : ℕ) → j < 19 → j < length (dump_field (region text perm base size))
      longer j lt = omega (arith, ap length shape)

      long : (j : ℕ) → j < 19 → buff (x + j) ≡ get_or bytes j 0
      long j lt = holds j (longer j lt) ∙ ap (λ b. get_or b j 0) shape

      long_at :
          (o : ℕ)
          → o + 8 ≤ 19
          → u64_at buff (x + o)
            ≡ get_or bytes o 0
              + 256 * get_or bytes (o + 1) 0
              + 2 ^ 16 * (get_or bytes (o + 2) 0 + 256 * get_or bytes (o + 3) 0)
              + 2 ^ 32
                * (get_or bytes (o + 4) 0
                    + 256 * get_or bytes (o + 4 + 1) 0
                    + 2 ^ 16 * (get_or bytes (o + 4 + 2) 0 + 256 * get_or bytes (o + 4 + 3) 0))
      long_at o h =
          let next : x + o + 4 ≡ x + (o + 4) = omega arith in
          ap₂ (λ a b. a + 2 ^ 32 * b)
            (u32-holds buff (λ j. get_or bytes j 0) x 19 long o (omega arith))
            (ap (u32_at buff) next
              ∙ u32-holds buff (λ j. get_or bytes j 0) x 19 long (o + 4) (omega arith))
