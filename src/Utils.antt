-- ===== src/Utils.antt =====
-- driver/utils.c: the 16-bit checksum over the PROM image. A buffer is a map from offsets to
-- bytes; the machine is little-endian.
pub mod Total
pub mod Checksum
mod Tests
use amc_pci_dev.Prelude.{ℕ, zero, suc, ◌+◌, ◌-◌, ◌*◌, ◌/◌, ◌%◌, ◌^◌, if◌then◌else◌, ◌==◌, u16, u32}

-- `ptr[i]`, for `u16 *ptr = (u16 *) buff`
abbrev pub word_at : (ℕ → ℕ) → ℕ → ℕ
word_at buff i = buff (2 * i) + 256 * buff (2 * i + 1)

-- The loop over `size / 2` words, in the `u32` variable `result`.
pub sum_words : (ℕ → ℕ) → ℕ → ℕ
sum_words buff zero = 0
sum_words buff (suc n) = u32 (sum_words buff n + word_at buff n)

-- `(result & 0xffff) + (result >> 16)`
abbrev pub fold_carry : ℕ → ℕ
fold_carry result = result % 2 ^ 16 + result / 2 ^ 16

unfoldable pub calc_checksum16 : (ℕ → ℕ) → ℕ → ℕ
unfolding sum_words
calc_checksum16 buff size =
    let words = sum_words buff (size / 2) in
    let result = if size % 2 == 1 then u32 (words + buff (size - 1) * 256) else words in
    u16 (2 ^ 32 - 1 - fold_carry (fold_carry result))
