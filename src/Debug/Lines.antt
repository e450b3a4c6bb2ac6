-- ===== src/Debug/Lines.antt =====
-- The texts that `sprintf` makes in driver/debug.c: how long they are, and their characters.
use amc_pci_dev.Prelude.{
  ℕ, zero, suc, ◌+◌, ◌-◌, ◌*◌, ◌/◌, ◌%◌, ◌^◌, ◌≤◌, ◌<◌, ◌≡◌, refl, ap, ◌∙◌, arith, fun_ext, ltb,
  if◌then◌else◌, List, [], ◌∷◌, ◌++◌, All, length, length-append, Bool-cases, inl, inr, u64, dec_lt,
  get_elem?, some, none,
}
use amc_pci_dev.Debug.{hex, hex_digit, zero_pad, padded, each, lines}

length-zero_pad : (n : ℕ) → length (zero_pad n) ≡ n
unfolding zero_pad
length-zero_pad zero = refl
length-zero_pad (suc n) = ap suc (length-zero_pad n)

abbrev cap : ℕ → ℕ
cap zero = 16
cap (suc k) = 16 * cap k

-- A number below `16 ^ (k + 1)` has `k + 1` digits at most.
length-hex : (fuel k n : ℕ) → n < cap k → length (hex fuel n) ≤ suc k
unfolding hex
length-hex zero k n h = omega arith
length-hex (suc fuel) zero n h = ground arith
length-hex (suc fuel) (suc k) n h = ground (
  arith,
  length-hex fuel k (n / 16) (omega arith),
  length-append (hex fuel (n / 16)) (hex_digit (n % 16) ∷ []),
)

length-padded_eq :
    (width n : ℕ) → length (padded width n) ≡ (width - length (hex 16 n)) + length (hex 16 n)
length-padded_eq width n =
    length-append (zero_pad (width - length (hex 16 n))) (hex 16 n)
    ∙ ap (λ z. z + length (hex 16 n)) (length-zero_pad (width - length (hex 16 n)))

pub length-padded : (n : ℕ) → n < 2 ^ 64 → (8 ≤ length (padded 8 n)) × (length (padded 8 n) ≤ 16)
length-padded n h =
    let e = length-padded_eq 8 n in
    let d = length-hex 16 15 n h in (omega (arith, e, d), omega (arith, e, d))

pub length-padded_byte : (n : ℕ) → n < 256 → length (padded 2 n) ≡ 2
length-padded_byte n h =
    let e = length-padded_eq 2 n in let d = length-hex 16 1 n h in e ∙ omega (arith, d)

pub length-padded_dword : (n : ℕ) → n < 2 ^ 32 → length (padded 8 n) ≡ 8
length-padded_dword n h =
    let e = length-padded_eq 8 n in let d = length-hex 16 7 n h in e ∙ omega (arith, d)

-- The lengths of the fields add up.
abbrev pub sum : ℕ → ℕ → (ℕ → ℕ) → ℕ
sum zero i size = 0
sum (suc n) i size = size i + sum n (i + 1) size

pub length-each :
    (n i : ℕ) (text : ℕ → List ℕ) (size : ℕ → ℕ)
    → ((j : ℕ) → length (text j) ≡ size j)
    → length (each n i text) ≡ sum n i size
unfolding each
length-each zero i text size h = refl
length-each (suc n) i text size h =
    length-append (text i) (each n (i + 1) text)
    ∙ omega (arith, h i, length-each n (i + 1) text size h)

-- A character that is not a control character.
abbrev pub IsPrintable : ℕ → Type 0
IsPrintable c = (32 ≤ c) × (c < 127)

pub All-append :
    (xs ys : List ℕ) → All IsPrintable xs → All IsPrintable ys → All IsPrintable (xs ++ ys)
All-append [] ys h k = k
All-append (x ∷ xs) ys h k = (h.0, All-append xs ys h.1 k)

pub All-each :
    (n i : ℕ) (text : ℕ → List ℕ)
    → ((j : ℕ) → All IsPrintable (text j))
    → All IsPrintable (each n i text)
unfolding each
All-each zero i text h = tt
All-each (suc n) i text h =
    All-append (text i) (each n (i + 1) text) (h i) (All-each n (i + 1) text h)

hex-All : (fuel n : ℕ) → All IsPrintable (hex fuel n)
unfolding hex
hex-All zero n = tt
hex-All (suc fuel) n = elim (Bool-cases (ltb n 16)) [
  | inl small ↦ rw (small, hex) (ground arith, tt)
  | inr large ↦
      rw (large, hex)
        (All-append (hex fuel (n / 16)) (hex_digit (n % 16) ∷ []) (hex-All fuel (n / 16))
          (ground arith, tt))
]

zero_pad-All : (n : ℕ) → All IsPrintable (zero_pad n)
unfolding zero_pad
zero_pad-All zero = tt
zero_pad-All (suc n) = (omega arith, zero_pad-All n)

pub padded-All : (width n : ℕ) → All IsPrintable (padded width n)
padded-All width n =
    All-append (zero_pad (width - length (hex 16 n))) (hex 16 n)
      (zero_pad-All (width - length (hex 16 n))) (hex-All 16 n)

-- The offset of line `k`, from `a` on.
abbrev offset : ℕ → ℕ → ℕ → ℕ
offset step zero a = a
offset step (suc k) a = offset step k (a + step)

offset_bound : (step k a : ℕ) → a ≤ offset step k a
offset_bound step zero a = omega arith
offset_bound step (suc k) a = omega (arith, offset_bound step k (a + step))

-- With a round of fuel for every line, a dump has a line for each offset below the limit.
get_elem?-lines :
    (fuel step limit : ℕ) (line : ℕ → List ℕ) (a k : ℕ)
    → 0 < step
    → limit + step ≤ 2 ^ 64
    → limit ≤ a + fuel
    → get_elem? (lines fuel step limit line a) k
      ≡ (if ltb (offset step k a) limit then some (line (offset step k a)) else none)
unfolding lines
get_elem?-lines zero step limit line a k p w h = ground (arith, offset_bound step k a)
get_elem?-lines (suc fuel) step limit line a zero p w h = ground arith
get_elem?-lines (suc fuel) step limit line a (suc k) p w h = elim (dec_lt a limit) [
  | yes more ↦
      let same : u64 (a + step) ≡ a + step = omega arith in
      ground
        (arith, more, same, get_elem?-lines fuel step limit line (a + step) k p w (omega arith))
  | no over ↦ ground (arith, over, offset_bound step k (a + step))
]

offset-16 : (k a : ℕ) → offset 16 k a ≡ a + 16 * k
offset-16 zero a = omega arith
offset-16 (suc k) a = omega (arith, offset-16 k (a + 16))

offset-4 : (k a : ℕ) → offset 4 k a ≡ a + 4 * k
offset-4 zero a = omega arith
offset-4 (suc k) a = omega (arith, offset-4 k (a + 4))

pub get_elem?-lines_16 :
    (limit : ℕ) (line : ℕ → List ℕ) (k : ℕ)
    → limit + 16 ≤ 2 ^ 64
    → get_elem? (lines limit 16 limit line 0) k
      ≡ (if ltb (16 * k) limit then some (line (16 * k)) else none)
get_elem?-lines_16 limit line k w =
    get_elem?-lines limit 16 limit line 0 k (omega arith) w (omega arith)
    ∙ ap (λ x. if ltb x limit then some (line x) else none) (offset-16 k 0 ∙ omega arith)

pub get_elem?-lines_4 :
    (fuel limit : ℕ) (line : ℕ → List ℕ) (k : ℕ)
    → limit + 4 ≤ 2 ^ 64
    → limit ≤ fuel
    → get_elem? (lines fuel 4 limit line 0) k
      ≡ (if ltb (4 * k) limit then some (line (4 * k)) else none)
get_elem?-lines_4 fuel limit line k w h =
    get_elem?-lines fuel 4 limit line 0 k (omega arith) w (omega arith)
    ∙ ap (λ x. if ltb x limit then some (line x) else none) (offset-4 k 0 ∙ omega arith)

-- Lines that are the same make the same dump.
pub lines-ext :
    (fuel step limit : ℕ) (line other : ℕ → List ℕ) (a : ℕ)
    → ((b : ℕ) → line b ≡ other b)
    → lines fuel step limit line a ≡ lines fuel step limit other a
lines-ext fuel step limit line other a h = ap (λ l. lines fuel step limit l a) (fun_ext h)
