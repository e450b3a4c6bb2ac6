-- ===== src/Tools/Marker.antt =====
-- The end marker of driver/tools/prom_data_creator.py makes up the sum that driver/utils.c tests.
use amc_pci_dev.Prelude.{
  ℕ, zero, suc, ◌+◌, ◌-◌, ◌*◌, ◌/◌, ◌%◌, ◌^◌, ◌≤◌, ◌<◌, ◌≡◌, refl, sym, ap, ◌∙◌, arith, subst, ◌==◌,
  List, [], ◌∷◌, ◌++◌, All, length, length-append, Bool-cases, inl, inr, ◌⊎◌,
}
use mathlib.Core.List.{append_assoc}
use amc_pci_dev.Utils.Total.{total, words_total}
use amc_pci_dev.Prom.Chain.{Chain, Chain-length}
use amc_pci_dev.Tools.{Field, dump_field, dump_fields, marked_end, checksum, pack, word_sum}
use amc_pci_dev.Tools.Sums.{word_sum-append, word_sum_bound, checksum_lem}
use amc_pci_dev.Tools.Blocks.{AreBytes, AreBytes-append, IsEntry, dump_field-IsBlock}

-- What stands behind the fields: the end marker with a checksum that makes up the sum.
pub record IsTail (content : List ℕ) : Type 0 where
  pub size : ℕ
  pub more : List ℕ
  pub shape : marked_end content ≡ 0 ∷ size ∷ more
  pub small : (size ≡ 2) ⊎ (size ≡ 3)
  pub sized : length more ≡ size
  pub summed : word_sum (content ++ marked_end content) % 65535 ≡ 0
  pub some_bits : 0 < word_sum (content ++ marked_end content)

summed_up :
    (front : List ℕ)
    → length front % 2 ≡ 0
    → word_sum front < 2 ^ 32
    → (word_sum (front ++ pack 2 (checksum front)) % 65535 ≡ 0)
      × (0 < word_sum (front ++ pack 2 (checksum front)))
summed_up front even small =
    let c = checksum_lem front small in
    let e = word_sum-append front (pack 2 (checksum front)) even in
    (omega (arith, c, e), omega (arith, c, e))

-- A marker whose checksum begins at an even offset.
marked-IsTail :
    (content : List ℕ) (size : ℕ) (pad : List ℕ)
    → AreBytes content
    → length content < 4096
    → marked_end content ≡ 0 ∷ size ∷ pad ++ pack 2 (checksum (content ++ 0 ∷ size ∷ pad))
    → (size ≡ 2) ⊎ (size ≡ 3)
    → length pad + 2 ≡ size
    → AreBytes pad
    → (length content + size) % 2 ≡ 0
    → IsTail content
marked-IsTail content size pad bytes short shape small sized pads even = record {
  size = size;
  more = pad ++ pack 2 (checksum front);
  shape = shape;
  small = small;
  sized = length-append pad (pack 2 (checksum front)) ∙ sized;
  summed = subst (λ l. word_sum l % 65535 ≡ 0) (sym whole) s.0;
  some_bits = subst (λ l. 0 < word_sum l) (sym whole) s.1;
}
  where
    front : List ℕ
    front = content ++ 0 ∷ size ∷ pad

    counted : length front ≡ length content + (2 + length pad)
    counted = length-append content (0 ∷ size ∷ pad) ∙ omega arith

    s :
        (word_sum (front ++ pack 2 (checksum front)) % 65535 ≡ 0)
        × (0 < word_sum (front ++ pack 2 (checksum front)))
    s = summed_up front (omega (arith, counted, sized, even)) (
        omega (
          arith,
          counted,
          sized,
          small,
          word_sum_bound front (
              AreBytes-append content (0 ∷ size ∷ pad) bytes
                (omega arith, (omega (arith, small), pads))),
        ))

    whole : content ++ marked_end content ≡ front ++ pack 2 (checksum front)
    whole =
        ap (λ t. content ++ t) shape
        ∙ sym (append_assoc content (0 ∷ size ∷ pad) (pack 2 (checksum front)))

pub marked_end-IsTail :
    (content : List ℕ) → AreBytes content → length content < 4096 → IsTail content
marked_end-IsTail content bytes short = elim (Bool-cases (length content % 2 == 1)) [
  | inl odd ↦
      marked-IsTail content 3 (0 ∷ []) bytes short (rw odd refl) (inr refl) refl (omega arith, tt)
        (ground (arith, odd))
  | inr even ↦
      marked-IsTail content 2 [] bytes short (rw even refl) (inl refl) refl tt
        (ground (arith, even))
]

pub dump_fields-AreBytes :
    (fields : List Field) → All IsEntry fields → AreBytes (dump_fields fields)
dump_fields-AreBytes [] h = tt
dump_fields-AreBytes (f ∷ fields) h =
    AreBytes-append (dump_field f) (dump_fields fields) (dump_field-IsBlock f h.0).are_bytes
      (dump_fields-AreBytes fields h.1)

-- Buffers that agree have the same chain and the same sum.
pub Chain-agree :
    (f g : ℕ → ℕ) (xs : List ℕ) (p e : ℕ)
    → ((j : ℕ) → j ≤ e → f j ≡ g j)
    → Chain f xs p e
    → Chain g xs p e
Chain-agree f g [] p e h c = (sym (h p (omega (arith, c.1))) ∙ c.0, c.1)
Chain-agree f g (x ∷ xs) p e h c =
    let within = Chain-length f xs (p + (f (p + 1) + 2)) e c.2 in
    (
      c.0,
      (λ z. c.1 (h p (omega (arith, within)) ∙ z)),
      subst (λ s. Chain g xs (p + (s + 2)) e) (h (p + 1) (omega (arith, within)))
          (Chain-agree f g xs (p + (f (p + 1) + 2)) e h c.2),
    )

words_total-agree :
    (f g : ℕ → ℕ) (n : ℕ) → ((j : ℕ) → j < 2 * n → f j ≡ g j) → words_total f n ≡ words_total g n
unfolding words_total
words_total-agree f g zero h = refl
words_total-agree f g (suc n) h = omega (
  arith,
  words_total-agree f g n (λ j lt. h j (omega arith)),
  h (2 * n) (omega arith),
  h (2 * n + 1) (omega arith),
)

pub total-agree : (f g : ℕ → ℕ) (n : ℕ) → ((j : ℕ) → j < n → f j ≡ g j) → total f n ≡ total g n
unfolding total
total-agree f g n h = elim (Bool-cases (n % 2 == 1)) [
  | inl odd ↦ ground (
    arith,
    odd,
    words_total-agree f g (n / 2) (λ j lt. h j (omega arith)),
    h (n - 1) (ground (arith, odd)),
  )
  | inr even ↦ ground (arith, even, words_total-agree f g (n / 2) (λ j lt. h j (omega arith)))
]
