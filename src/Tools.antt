-- ===== src/Tools.antt =====
-- driver/tools/prom_data_creator.py: the program that makes the PROM image of a card and the
-- default image of the driver from a configuration. Text is a list of code points, as in Python.
pub mod Sums
pub mod Blocks
pub mod Marker
pub mod Accepted
pub mod Regions
pub mod Nodes
pub mod Opened
mod Tests
use amc_pci_dev.Prelude.{
  ℕ, zero, suc, ◌+◌, ◌-◌, ◌*◌, ◌/◌, ◌%◌, ◌^◌, ◌||◌, ltb, ◌==◌, if◌then◌else◌, List, [], ◌∷◌, ◌++◌,
  length,
}

-- `struct.pack` of a number into `n` bytes, the low one first.
abbrev pub pack : ℕ → ℕ → List ℕ
pack zero x = []
pack (suc n) x = x % 256 ∷ pack n (x / 256)

-- `str.encode`: UTF-8. The code points of surrogates, which it refuses, are no part of a text that
-- was read from a file.
abbrev pub utf8 : ℕ → List ℕ
utf8 c =
    if ltb c 0x80
    then c ∷ []
    else (if ltb c 0x800
        then (0xc0 + c / 64) ∷ (0x80 + c % 64) ∷ []
        else (if ltb c 0x10000
            then (0xe0 + c / 4096) ∷ (0x80 + c / 64 % 64) ∷ (0x80 + c % 64) ∷ []
            else (0xf0 + c / 262144)
              ∷ (0x80 + c / 4096 % 64)
              ∷ (0x80 + c / 64 % 64)
              ∷ (0x80 + c % 64)
              ∷ []))

unfoldable pub encode : List ℕ → List ℕ
encode [] = []
encode (c ∷ text) = utf8 c ++ encode text

abbrev pub dump_memory_description : List ℕ → ℕ → ℕ → ℕ → List ℕ
dump_memory_description name base size perm =
    if ltb 0xffffffffffff base || ltb 0xffffffff size
    then pack 1 3
      ++ pack 1 (length name + 18)
      ++ pack 8 base
      ++ pack 8 size
      ++ pack 1 perm
      ++ encode name
      ++ 0 ∷ []
    else pack 1 2
      ++ pack 1 (length name + 12)
      ++ pack 4 (base % 2 ^ 32)
      ++ pack 2 (base / 2 ^ 32)
      ++ pack 4 size
      ++ pack 1 perm
      ++ encode name
      ++ 0 ∷ []

-- `version or DEFAULT_VERSION`
abbrev pub dump_header : ℕ → List ℕ
dump_header version = b'D' ∷ b'I' ∷ b'A' ∷ b'G' ∷ pack 1 (if version == 0 then 1 else version)

abbrev pub dump_device_description : List ℕ → List ℕ
dump_device_description name = pack 1 1 ++ pack 1 (length name + 1) ++ encode name ++ 0 ∷ []

abbrev pub dump_dma_mask : ℕ → List ℕ
dump_dma_mask mask = pack 1 4 ++ pack 1 1 ++ pack 1 mask

abbrev pub dump_dma_alignment_shift : ℕ → List ℕ
dump_dma_alignment_shift shift = pack 1 5 ++ pack 1 1 ++ pack 1 shift

-- The loops of `checksum`, over the words and a last odd byte.
abbrev pub word_sum : List ℕ → ℕ
word_sum [] = 0
word_sum (a ∷ []) = 256 * a
word_sum (a ∷ b ∷ content) = a + 256 * b + word_sum content

abbrev pub folded_sum : ℕ → ℕ
folded_sum result = result % 2 ^ 16 + result / 2 ^ 16

abbrev pub checksum : List ℕ → ℕ
checksum content = 2 ^ 16 - 1 - folded_sum (folded_sum (word_sum content)) % 2 ^ 16

-- `dump_end` of content that is not empty.
abbrev pub marked_end : List ℕ → List ℕ
marked_end content =
    if length content % 2 == 1
    then 0 ∷ 3 ∷ 0 ∷ pack 2 (checksum (content ++ 0 ∷ 3 ∷ 0 ∷ []))
    else 0 ∷ 2 ∷ pack 2 (checksum (content ++ 0 ∷ 2 ∷ []))

abbrev pub dump_end : List ℕ → List ℕ
dump_end [] = 0 ∷ 0 ∷ []
dump_end (x ∷ content) = marked_end (x ∷ content)

-- The lines of a configuration.
pub data Field : Type 0 where
  version : ℕ → Field
  name : List ℕ → Field
  region : (name : List ℕ) (perm base size : ℕ) → Field
  mask : ℕ → Field
  align_shift : ℕ → Field

abbrev pub dump_field : Field → List ℕ
dump_field (version n) = dump_header n
dump_field (name text) = dump_device_description text
dump_field (region text perm base size) = dump_memory_description text base size perm
dump_field (mask n) = dump_dma_mask n
dump_field (align_shift n) = dump_dma_alignment_shift n

abbrev pub dump_fields : List Field → List ℕ
dump_fields [] = []
dump_fields (f ∷ fields) = dump_field f ++ dump_fields fields

-- `process_config_file`, of the lines that it splits the file into.
abbrev pub process_config : List Field → List ℕ
process_config fields = let content = dump_fields fields in content ++ dump_end content
