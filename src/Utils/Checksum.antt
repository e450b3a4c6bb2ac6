-- ===== src/Utils/Checksum.antt =====
-- What `calc_checksum16` of utils.c computes: the ones' complement of the ones' complement sum.
use amc_pci_dev.Prelude.{ℕ, ◌+◌, ◌-◌, ◌/◌, ◌%◌, ◌^◌, ◌≤◌, ◌<◌, ◌≡◌, ◌≢◌, ◌↔◌, arith, update}
use amc_pci_dev.Utils.{calc_checksum16}
use amc_pci_dev.Utils.Total.{
  IsBytes, total, words_total_bound, sum_words-eq-words_total, total-update,
}

-- 131,072 bytes are the most whose sum cannot wrap the 32-bit variable.
abbrev pub max_size : ℕ
max_size = 2 ^ 17

module _ (buff : ℕ → ℕ) (size : ℕ) (bytes : IsBytes buff) (fits : size ≤ max_size) where
  total_bound : total buff size < 2 ^ 32
  unfolding total
  total_bound = ground (arith, words_total_bound buff bytes (size / 2), bytes (size - 1))

  folded : ℕ
  folded = total buff size % 2 ^ 16 + total buff size / 2 ^ 16

  calc_checksum16-eq : calc_checksum16 buff size + folded % 2 ^ 16 + folded / 2 ^ 16 ≡ 65535
  unfolding folded calc_checksum16 total
  calc_checksum16-eq = ground (
    arith,
    total_bound,
    words_total_bound buff bytes (size / 2),
    sum_words-eq-words_total buff bytes (size / 2) (omega arith),
    bytes (size - 1),
  )

  -- For at most 131,072 bytes, the checksum is at most 65535 and is the ones' complement of the
  -- sum of the little-endian words (a last odd byte counts as a high byte): checksum and sum add
  -- up to a multiple of 65535. It is 0 exactly when the sum is a positive multiple of 65535.
  pub calc_checksum16_lem :
      (calc_checksum16 buff size ≤ 65535)
      × ((calc_checksum16 buff size + total buff size) % 65535 ≡ 0)
      × ((calc_checksum16 buff size ≡ 0) ↔ ((0 < total buff size) × (total buff size % 65535 ≡ 0)))
  unfolding folded
  calc_checksum16_lem =
      let e = calc_checksum16-eq in
      let b = total_bound in (omega arith, omega arith, ((λ z. omega arith), (λ p. omega arith)))

-- In a buffer of at most 131,072 bytes whose checksum is 0, overwriting any one byte by another
-- value gives a buffer whose checksum is not 0.
pub calc_checksum16-update :
    (buff : ℕ → ℕ) (size : ℕ)
    → IsBytes buff
    → size ≤ max_size
    → calc_checksum16 buff size ≡ 0
    → (i b : ℕ) → i < size
    → b < 256
    → b ≢ buff i
    → calc_checksum16 (update buff i b) size ≢ 0
calc_checksum16-update buff size bytes fits zero_sum i b inside byte changed z =
    let (w, which, moved) = total-update buff i b size inside in
    ground (
      arith,
      calc_checksum16_lem buff size bytes fits,
      calc_checksum16_lem (update buff i b) size (λ j. ground (arith, bytes j)) fits,
      bytes i,
    )
