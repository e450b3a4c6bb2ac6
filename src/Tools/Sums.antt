-- ===== src/Tools/Sums.antt =====
-- The checksum of driver/tools/prom_data_creator.py against the sum that driver/utils.c folds.
use amc_pci_dev.Prelude.{
  ℕ, zero, suc, ◌+◌, ◌-◌, ◌*◌, ◌/◌, ◌%◌, ◌^◌, ◌≤◌, ◌<◌, ◌≡◌, refl, ap, ap₂, ◌∙◌, arith, ◌==◌,
  if◌then◌else◌, List, [], ◌∷◌, ◌++◌, All, length, get_or,
}
use amc_pci_dev.Utils.{word_at}
use amc_pci_dev.Utils.Total.{total, words_total}
use amc_pci_dev.Tools.{word_sum, checksum}

-- The first word, and the rest.
words_total-shift :
    (buff : ℕ → ℕ) (n : ℕ)
    → words_total buff (suc n) ≡ word_at buff 0 + words_total (λ j. buff (suc (suc j))) n
unfolding words_total
words_total-shift buff zero = omega arith
words_total-shift buff (suc n) =
    let same : word_at buff (suc n) ≡ word_at (λ j. buff (suc (suc j))) n =
      ap₂ (λ i j. buff i + 256 * buff j) (omega arith) (omega arith) in
    omega (arith, words_total-shift buff n, same)

last_byte :
    (f : ℕ → ℕ) (n : ℕ)
    → (if n % 2 == 1 then f (suc n) * 256 else 0)
      ≡ (if n % 2 == 1 then f (suc (suc (n - 1))) * 256 else 0)
last_byte f zero = refl
last_byte f (suc n) =
    let same : n ≡ suc n - 1 = omega arith in
    ap (λ m. if suc n % 2 == 1 then f (suc (suc m)) * 256 else 0) same

total-shift :
    (f : ℕ → ℕ) (n : ℕ) → total f (suc (suc n)) ≡ word_at f 0 + total (λ j. f (suc (suc j))) n
unfolding total
total-shift f n =
    ap (λ m. words_total f (suc (suc n) / 2) + (if suc (suc n) % 2 == 1 then f m * 256 else 0)) last
    ∙ ap₂ (λ k odd. words_total f k + (if odd == 1 then f (suc n) * 256 else 0)) halves odds
    ∙ omega (arith, words_total-shift f (n / 2), last_byte f n)
  where
    last : suc (suc n) - 1 ≡ suc n
    last = omega arith

    halves : suc (suc n) / 2 ≡ suc (n / 2)
    halves = omega arith

    odds : suc (suc n) % 2 ≡ n % 2
    odds = omega arith

pub total-word_sum : (xs : List ℕ) → total (λ j. get_or xs j 0) (length xs) ≡ word_sum xs
unfolding total words_total
total-word_sum [] = refl
total-word_sum (a ∷ []) = omega arith
total-word_sum (a ∷ b ∷ xs) =
    total-shift (λ j. get_or (a ∷ b ∷ xs) j 0) (length xs)
    ∙ ap (λ n. a + 256 * b + n) (total-word_sum xs)

pub word_sum-append :
    (xs ys : List ℕ) → length xs % 2 ≡ 0 → word_sum (xs ++ ys) ≡ word_sum xs + word_sum ys
word_sum-append [] ys h = omega arith
word_sum-append (a ∷ []) ys h = absurd (omega arith)
word_sum-append (a ∷ b ∷ xs) ys h = omega (arith, word_sum-append xs ys (omega arith))

pub word_sum_bound : (xs : List ℕ) → All (λ x. x < 256) xs → word_sum xs ≤ 65536 * length xs
word_sum_bound [] h = omega arith
word_sum_bound (a ∷ []) h = omega (arith, h.0)
word_sum_bound (a ∷ b ∷ xs) h = omega (arith, word_sum_bound xs h.1.1, h.0, h.1.0)

pub checksum_lem :
    (xs : List ℕ)
    → word_sum xs < 2 ^ 32
    → (checksum xs ≤ 65535)
      × ((checksum xs + word_sum xs) % 65535 ≡ 0)
      × (0 < checksum xs + word_sum xs)
checksum_lem xs h = (omega arith, omega arith, omega arith)
