-- ===== src/Debug/Tests.antt =====
-- Two small dumps of the bytes 0, 1, 2, …
use amc_pci_dev.Prelude.{
  ℕ, ◌*◌, ◌/◌, ◌%◌, ◌≤◌, ◌<◌, ◌≡◌, refl, arith, All, length, get_elem?, some, none, ltb,
  if◌then◌else◌,
}
use amc_pci_dev.Debug.{dump_bytes, dump_dwords, bytes_line, lines, each, hex, zero_pad}
use amc_pci_dev.Debug.Lines.{IsPrintable}
use amc_pci_dev.Debug.Dumps.{words_from, dump_bytes_lem, dump_dwords_lem}

abbrev count_up : ℕ → ℕ
count_up i = i % 256

-- Two lines for 17 bytes, the first of 78 characters; 4 bytes are shown as four words.
dumps :
    (length (dump_bytes count_up 17) ≡ 2)
    × (length (bytes_line count_up 17 0) ≡ 78)
    × (length (dump_dwords count_up 4) ≡ 1)
    × (length (words_from count_up 4 0) ≡ 50)
unfolding dump_bytes dump_dwords lines each hex zero_pad
dumps = (refl, refl, refl, refl)

dump_bytes_lem_example :
    ((k : ℕ)
      → get_elem? (dump_bytes count_up 17) k
        ≡ (if ltb (16 * k) 17 then some (bytes_line count_up 17 (16 * k)) else none))
    × ((k : ℕ)
        → 16 * k < 17
        → (length (bytes_line count_up 17 (16 * k)) ≤ 86)
          × All IsPrintable (bytes_line count_up 17 (16 * k)))
    × ((other : ℕ → ℕ)
        → ((i : ℕ) → i < 17 → count_up i ≡ other i)
        → dump_bytes count_up 17 ≡ dump_bytes other 17)
dump_bytes_lem_example = dump_bytes_lem count_up 17 (λ i. omega arith) (omega arith)

dump_dwords_lem_example :
    ((k : ℕ)
      → get_elem? (dump_dwords count_up 17) k
        ≡ (if ltb (4 * k) (17 / 4) then some (words_from count_up 17 (4 * k)) else none))
    × ((k : ℕ) → 4 * k < 17 / 4 → length (words_from count_up 17 (4 * k)) ≤ 58)
dump_dwords_lem_example = dump_dwords_lem count_up 17 (λ i. omega arith) (omega arith)
