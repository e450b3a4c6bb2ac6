-- ===== src/Debug.antt =====
-- driver/debug.c: the dumps of a buffer. What `sprintf` puts into `line` is a list of characters,
-- and a dump is the list of the lines that `printk` is called with, each without its newline.
pub mod Lines
pub mod Dumps
mod Tests
use amc_pci_dev.Prelude.{
  ℕ, zero, suc, ◌+◌, ◌-◌, ◌*◌, ◌/◌, ◌%◌, Bool, ◌&&◌, ltb, leb, ◌==◌, if◌then◌else◌, u64, List, [],
  ◌∷◌, ◌++◌, length,
}

abbrev pub space : ℕ
space = b' '

abbrev pub hex_digit : ℕ → ℕ
hex_digit n = if ltb n 10 then b'0' + n else b'a' + (n - 10)

-- `%x`, with fuel for the digits.
unfoldable pub hex : ℕ → ℕ → List ℕ
hex zero n = []
hex (suc fuel) n =
    let rest = hex fuel (n / 16) in
    if ltb n 16 then hex_digit n ∷ [] else rest ++ hex_digit (n % 16) ∷ []

unfoldable pub zero_pad : ℕ → List ℕ
zero_pad zero = []
zero_pad (suc n) = b'0' ∷ zero_pad n

-- `%02x` and `%08x`, of a number of 64 bits.
abbrev pub padded : ℕ → ℕ → List ℕ
padded width n = zero_pad (width - length (hex 16 n)) ++ hex 16 n

-- `for (i = …; i < …; i ++) l += sprintf(l, …)`, with `n` rounds to go.
unfoldable pub each : ℕ → ℕ → (ℕ → List ℕ) → List ℕ
each zero i text = []
each (suc n) i text = text i ++ each n (i + 1) text

abbrev pub gap : ℕ → List ℕ
gap i = if i % 16 == 7 then space ∷ [] else []

-- Both loops over the lines, with fuel for them.
unfoldable pub lines : ℕ → ℕ → ℕ → (ℕ → List ℕ) → ℕ → List (List ℕ)
lines zero step limit line a = []
lines (suc fuel) step limit line a =
    let rest = lines fuel step limit line (u64 (a + step)) in
    if ltb a limit then line a ∷ rest else []

module _ (dump : ℕ → ℕ) where
  abbrev pub byte_field : ℕ → ℕ → ℕ → List ℕ
  byte_field length a i =
      (if ltb (a + i) length then space ∷ padded 2 (dump (a + i)) else space ∷ space ∷ space ∷ [])
      ++ gap i

  abbrev pub printable : ℕ → ℕ
  printable c = if leb 32 c && ltb c 127 then c else b'.'

  abbrev pub char_field : ℕ → ℕ → ℕ → List ℕ
  char_field length a i =
      (if ltb (a + i) length then printable (dump (a + i)) ∷ [] else space ∷ []) ++ gap i

  abbrev pub bytes_line : ℕ → ℕ → List ℕ
  bytes_line length a =
      padded 8 a
      ++ b':' ∷ space ∷ each 16 0 (byte_field length a)
      ++ space ∷ space ∷ each 16 0 (char_field length a)

  unfoldable pub dump_bytes : ℕ → List (List ℕ)
  dump_bytes length = lines length 16 length (bytes_line length) 0

  abbrev pub dword_field : ℕ → ℕ → ℕ → List ℕ
  dword_field length a i =
      if ltb (a + i) length then space ∷ space ∷ padded 8 (dump (a + i)) else []

  abbrev pub dwords_line : ℕ → ℕ → List ℕ
  dwords_line length a = padded 8 (4 * a) ++ b':' ∷ space ∷ each 4 0 (dword_field length a)

  -- `dump` gives 32-bit words here.
  unfoldable pub dump_dwords : ℕ → List (List ℕ)
  dump_dwords length = lines length 4 (length / 4) (dwords_line length) 0
