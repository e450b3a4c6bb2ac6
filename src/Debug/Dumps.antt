-- ===== src/Debug/Dumps.antt =====
-- The dumps of driver/debug.c: their lines fit the array `line` of 128 characters, and what they
-- show.
use amc_pci_dev.Prelude.{
  ℕ, suc, ◌+◌, ◌*◌, ◌/◌, ◌%◌, ◌^◌, ◌≤◌, ◌<◌, ◌≡◌, refl, ap, ap₂, ◌∙◌, arith, fun_ext, ◌&&◌, ltb,
  leb, ◌==◌, if◌then◌else◌, List, [], ◌∷◌, ◌++◌, All, length, length-append, dec_lt, lt→ltb,
  get_elem?, some, none,
}
use amc_pci_dev.Utils.Total.{IsBytes}
use amc_pci_dev.Debug.{
  padded, each, space, gap, byte_field, char_field, bytes_line, dump_bytes, dwords_line,
  dump_dwords,
}
use amc_pci_dev.Debug.Lines.{
  length-padded, length-padded_byte, length-padded_dword, length-each, IsPrintable, All-append,
  All-each, padded-All, get_elem?-lines_16, get_elem?-lines_4, lines-ext,
}

abbrev gap_size : ℕ → ℕ
gap_size i = if i % 16 == 7 then 1 else 0

module _ (dump : ℕ → ℕ) (size : ℕ) where
  length-bytes_line :
      IsBytes dump → (a : ℕ) → length (bytes_line dump size a) ≡ length (padded 8 a) + 70
  length-bytes_line bytes a =
      length-append (padded 8 a ++ left) right
      ∙ ap₂ ◌+◌ (length-append (padded 8 a) left) (
          ap (λ n. suc (suc n))
            (length-each 16 0 (char_field dump size a) (λ i. 1 + gap_size i) char))
      ∙ ap (λ n. length (padded 8 a) + suc (suc n) + 19)
          (length-each 16 0 (byte_field dump size a) (λ i. 3 + gap_size i) field)
      ∙ omega arith
    where
      left : List ℕ
      left = b':' ∷ space ∷ each 16 0 (byte_field dump size a)

      right : List ℕ
      right = space ∷ space ∷ each 16 0 (char_field dump size a)

      field : (i : ℕ) → length (byte_field dump size a i) ≡ 3 + gap_size i
      field i = ground (
        arith,
        length-append (padded 2 (dump (a + i))) (gap i),
        length-padded_byte (dump (a + i)) (bytes (a + i)),
      )

      char : (i : ℕ) → length (char_field dump size a i) ≡ 1 + gap_size i
      char i = ground arith

  bytes_line-All : (a : ℕ) → All IsPrintable (bytes_line dump size a)
  bytes_line-All a =
      All-append (padded 8 a ++ b':' ∷ space ∷ each 16 0 (byte_field dump size a))
        (space ∷ space ∷ each 16 0 (char_field dump size a))
        (All-append (padded 8 a) (b':' ∷ space ∷ each 16 0 (byte_field dump size a))
          (padded-All 8 a)
          (omega arith, (omega arith, All-each 16 0 (byte_field dump size a) field)))
        (omega arith, (omega arith, All-each 16 0 (char_field dump size a) char))
    where
      gaps : (i : ℕ) → All IsPrintable (gap i)
      gaps i = ground arith

      field : (i : ℕ) → All IsPrintable (byte_field dump size a i)
      field i = elim (dec_lt (a + i) size) [
        | yes shown ↦ rw (lt→ltb _ _ shown) (
            All-append (space ∷ padded 2 (dump (a + i))) (gap i)
              (omega arith, padded-All 2 (dump (a + i))) (gaps i))
        | no behind ↦ ground (arith, behind)
      ]

      char : (i : ℕ) → All IsPrintable (char_field dump size a i)
      char i = ground arith

  -- A dump shows nothing from behind the buffer.
  bytes_line-ext :
      (other : ℕ → ℕ)
      → ((i : ℕ) → i < size → dump i ≡ other i)
      → (a : ℕ) → bytes_line dump size a ≡ bytes_line other size a
  bytes_line-ext other same a =
      ap₂ (λ f g. padded 8 a ++ b':' ∷ space ∷ each 16 0 f ++ space ∷ space ∷ each 16 0 g)
        (fun_ext field) (fun_ext char)
    where
      field : (i : ℕ) → byte_field dump size a i ≡ byte_field other size a i
      field i = elim (dec_lt (a + i) size) [
        | yes shown ↦
            ap
              (λ c.
                (if ltb (a + i) size then space ∷ padded 2 c else space ∷ space ∷ space ∷ [])
                ++ gap i)
              (same (a + i) shown)
        | no behind ↦ ground (arith, behind)
      ]

      char : (i : ℕ) → char_field dump size a i ≡ char_field other size a i
      char i = elim (dec_lt (a + i) size) [
        | yes shown ↦
            ap
              (λ c.
                (if ltb (a + i) size
                  then (if leb 32 c && ltb c 127 then c else b'.') ∷ []
                  else space ∷ [])
                ++ gap i)
              (same (a + i) shown)
        | no behind ↦ ground (arith, behind)
      ]

  -- `dump` is to hold bytes. Line `k` of their dump begins at offset `16 k`, and there is one for
  -- each such offset below the size, if the size is at least 16 below 2 ^ 64. Each line has 86
  -- characters at most, with its end it fits the 128 of `line`, and none of them is a control
  -- character. A dump of the same bytes is the same, whatever stands in memory behind them.
  pub dump_bytes_lem :
      IsBytes dump
      → size + 16 ≤ 2 ^ 64
      → ((k : ℕ)
          → get_elem? (dump_bytes dump size) k
            ≡ (if ltb (16 * k) size then some (bytes_line dump size (16 * k)) else none))
        × ((k : ℕ)
            → 16 * k < size
            → (length (bytes_line dump size (16 * k)) ≤ 86)
              × All IsPrintable (bytes_line dump size (16 * k)))
        × ((other : ℕ → ℕ)
            → ((i : ℕ) → i < size → dump i ≡ other i)
            → dump_bytes dump size ≡ dump_bytes other size)
  unfolding dump_bytes
  dump_bytes_lem bytes fits = (
    (λ k. get_elem?-lines_16 size (bytes_line dump size) k fits),
    (λ k lt. (
      omega (arith, length-bytes_line bytes (16 * k), length-padded (16 * k) (omega arith)),
      bytes_line-All (16 * k),
    )),
    (λ other same.
        lines-ext size 16 size (bytes_line dump size) (bytes_line other size) 0
          (bytes_line-ext other same)),
  )

  -- The four words from `a` on.
  abbrev pub words_from : ℕ → List ℕ
  words_from a =
      padded 8 (4 * a) ++ b':' ∷ space ∷ each 4 0 (λ i. space ∷ space ∷ padded 8 (dump (a + i)))

  dwords_line-eq : (a : ℕ) → a < size / 4 → dwords_line dump size a ≡ words_from a
  unfolding each
  dwords_line-eq a lt =
      rw
        (
          lt→ltb (a + 0) size (omega arith),
          lt→ltb (a + 1) size (omega arith),
          lt→ltb (a + 2) size (omega arith),
          lt→ltb (a + 3) size (omega arith),
        )
        refl

  length-words_from :
      ((i : ℕ) → dump i < 2 ^ 32) → (a : ℕ) → length (words_from a) ≡ length (padded 8 (4 * a)) + 42
  length-words_from small a =
      length-append (padded 8 (4 * a))
        (b':' ∷ space ∷ each 4 0 (λ i. space ∷ space ∷ padded 8 (dump (a + i))))
      ∙ ap (λ n. length (padded 8 (4 * a)) + suc (suc n))
          (length-each 4 0 (λ i. space ∷ space ∷ padded 8 (dump (a + i))) (λ i. 10)
            (λ i. ap (λ n. suc (suc n)) (length-padded_dword (dump (a + i)) (small (a + i)))))

  -- Line `k` of a dump of 32-bit words shows the four words from `4 k` on, and there is one for
  -- each `4 k` below the number of words, if the size is at most 2 ^ 64 - 16: the test of the code
  -- does not leave words out, so that up to three words behind the buffer are read and shown. Each
  -- line has 58 characters at most, with its end it fits the 128 of `line`.
  pub dump_dwords_lem :
      ((i : ℕ) → dump i < 2 ^ 32)
      → size + 16 ≤ 2 ^ 64
      → ((k : ℕ)
          → get_elem? (dump_dwords dump size) k
            ≡ (if ltb (4 * k) (size / 4) then some (words_from (4 * k)) else none))
        × ((k : ℕ) → 4 * k < size / 4 → length (words_from (4 * k)) ≤ 58)
  unfolding dump_dwords
  dump_dwords_lem small fits = (
    (λ k.
        get_elem?-lines_4 size (size / 4) (dwords_line dump size) k (omega arith) (omega arith)
        ∙ shown k),
    (λ k lt.
        omega (arith, length-words_from small (4 * k), length-padded (4 * (4 * k)) (omega arith))),
  )
    where
      shown :
          (k : ℕ)
          → (if ltb (4 * k) (size / 4) then some (dwords_line dump size (4 * k)) else none)
            ≡ (if ltb (4 * k) (size / 4) then some (words_from (4 * k)) else none)
      shown k = elim (dec_lt (4 * k) (size / 4)) [
        | yes lt ↦
            ap (λ l. if ltb (4 * k) (size / 4) then some l else none) (dwords_line-eq (4 * k) lt)
        | no over ↦ ground (arith, over)
      ]
