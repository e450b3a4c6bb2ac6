-- ===== src/Utils/Total.antt =====
-- The plain sum that the checksum of utils.c folds: without the wrap of its 32-bit variable.
use amc_pci_dev.Prelude.{
  ℕ, zero, suc, ◌+◌, ◌-◌, ◌*◌, ◌/◌, ◌%◌, ◌≤◌, ◌<◌, ◌≡◌, refl, ◌⊎◌, inr, arith, if◌then◌else◌, ◌==◌,
  update, dec_lt,
}
use amc_pci_dev.Utils.{word_at, sum_words}

abbrev pub IsBytes : (ℕ → ℕ) → Type 0
IsBytes buff = (i : ℕ) → buff i < 256

unfoldable pub words_total : (ℕ → ℕ) → ℕ → ℕ
words_total buff zero = 0
words_total buff (suc n) = words_total buff n + word_at buff n

-- The sum of the little-endian words of the first `size` bytes; a last odd byte is a high byte.
unfoldable pub total : (ℕ → ℕ) → ℕ → ℕ
unfolding words_total
total buff size = words_total buff (size / 2) + (if size % 2 == 1 then buff (size - 1) * 256 else 0)

module _ (buff : ℕ → ℕ) (bytes : IsBytes buff) where
  pub words_total_bound : (n : ℕ) → words_total buff n ≤ 65535 * n
  unfolding words_total
  words_total_bound zero = omega arith
  words_total_bound (suc n) = omega (arith, words_total_bound n, bytes (2 * n), bytes (2 * n + 1))

  pub sum_words-eq-words_total : (n : ℕ) → n ≤ 65536 → sum_words buff n ≡ words_total buff n
  unfolding words_total sum_words
  sum_words-eq-words_total zero h = refl
  sum_words-eq-words_total (suc n) h = omega (
    arith,
    sum_words-eq-words_total n (omega arith),
    words_total_bound n,
    bytes (2 * n),
    bytes (2 * n + 1),
  )

-- What a byte at an index below twice the number of words counts for.
abbrev weight : ℕ → ℕ
weight i = if i % 2 == 1 then 256 else 1

module _ (buff : ℕ → ℕ) (i b : ℕ) where
  words_total-update_above :
      (n : ℕ) → 2 * n ≤ i → words_total (update buff i b) n ≡ words_total buff n
  unfolding words_total
  words_total-update_above zero h = refl
  words_total-update_above (suc n) h = ground (arith, words_total-update_above n (omega arith))

  words_total-update :
      (n : ℕ)
      → i < 2 * n
      → words_total (update buff i b) n + weight i * buff i ≡ words_total buff n + weight i * b
  unfolding words_total
  words_total-update zero h = absurd (omega arith)
  words_total-update (suc n) h = elim (dec_lt i (2 * n)) [
    | yes below ↦ ground (arith, words_total-update n below)
    | no last ↦ ground (arith, words_total-update_above n (omega arith))
  ]

  -- Writing one byte changes the total by its weight, which is 1 or 256.
  pub total-update :
      (size : ℕ)
      → i < size
      → (w : ℕ) × ((w ≡ 1) ⊎ (w ≡ 256))
        × (total (update buff i b) size + w * buff i ≡ total buff size + w * b)
  unfolding total
  total-update size h = elim (dec_lt i (2 * (size / 2))) [
    | yes below ↦ (weight i, ground arith, ground (arith, words_total-update (size / 2) below))
    | no last ↦ (256, inr refl, ground (arith, words_total-update_above (size / 2) (omega arith)))
  ]
