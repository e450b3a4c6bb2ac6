-- ===== src/Prom/Tests.antt =====
-- The images of driver/test_assets and the checks of driver/prom_processing_test.c.
use amc_pci_dev.Prelude.{
  ℕ, ◌+◌, ◌*◌, ◌≤◌, ◌<◌, ◌≡◌, ◌≢◌, refl, arith, List, [], ◌∷◌, length, get_elem?, get_or, true,
  false, some, none, ok, err, eio, update, fun_ext, set, get_or-set, get_or-lt, ◌^◌, inl, inr, ◌↔◌,
  enomem, Errno, ◌==◌, select, first_with, if◌then◌else◌, ltb, einval,
}
use amc_pci_dev.Utils.{calc_checksum16}
use amc_pci_dev.Utils.Total.{total, IsBytes}
use amc_pci_dev.Prom.{PromContext, tag_at, prom_entry_needs_minor}
use amc_pci_dev.Prom.Load.{load_prom, scan, scanning, start}
use amc_pci_dev.Prom.Scanning.{scan-halts}
use amc_pci_dev.Prom.Entries.{
  prom_for_each_entry, dma_length_at, dma_perm_at, dma_base_at, prom_find_entry,
  prom_find_entry_with_minor, prom_find_entry_by_tag,
}
use amc_pci_dev.Prom.Chain.{Chain}
use amc_pci_dev.Prom.Image.{IsImage, image, described}
use amc_pci_dev.Prom.Loading.{load_prom_lem}
use amc_pci_dev.Prom.Corruption.{load_prom-update}
use amc_pci_dev.Prom.Find.{prom_find_lem}
use amc_pci_dev.Prom.Read.{read_prom, read_prom_lem, card_byte}
use amc_pci_dev.Prom.Minors.{
  prom_minors_lem, MinorsNamed, MinorsOrdered, MinorsBounded, CountsOrdered,
}

-- A card whose memory begins with these bytes, at address 0.
abbrev pub rom : List ℕ → ℕ → ℕ
rom bytes a =
    get_or bytes a 0
    + 256 * get_or bytes (a + 1) 0
    + 65536 * get_or bytes (a + 2) 0
    + 16777216 * get_or bytes (a + 3) 0

abbrev pub zeros : ℕ → ℕ
zeros _ = 0

abbrev pub test_prom1 : List ℕ
test_prom1 =
    0x44 ∷ 0x49 ∷ 0x41 ∷ 0x47 ∷ 0x01 ∷ 0x01 ∷ 0x09 ∷ 0x74 ∷ 0x65 ∷ 0x73 ∷ 0x74 ∷ 0x5f ∷ 0x64 ∷ 0x65
    ∷ 0x76 ∷ 0x00 ∷ 0x02 ∷ 0x10 ∷ 0x00 ∷ 0x00 ∷ 0x00 ∷ 0x00 ∷ 0x00 ∷ 0x00 ∷ 0x15 ∷ 0x14 ∷ 0x13
    ∷ 0x12 ∷ 0x04 ∷ 0x6d ∷ 0x65 ∷ 0x6d ∷ 0x41 ∷ 0x00 ∷ 0x02 ∷ 0x10 ∷ 0x44 ∷ 0x33 ∷ 0x22 ∷ 0x11
    ∷ 0xcd ∷ 0xab ∷ 0x45 ∷ 0x23 ∷ 0x91 ∷ 0x08 ∷ 0x02 ∷ 0x6d ∷ 0x65 ∷ 0x6d ∷ 0x42 ∷ 0x00 ∷ 0x02
    ∷ 0x10 ∷ 0x63 ∷ 0x62 ∷ 0x61 ∷ 0x42 ∷ 0x00 ∷ 0x00 ∷ 0x00 ∷ 0x01 ∷ 0x00 ∷ 0x00 ∷ 0x06 ∷ 0x6d
    ∷ 0x65 ∷ 0x6d ∷ 0x43 ∷ 0x00 ∷ 0x00 ∷ 0x02 ∷ 0xbb ∷ 0x17 ∷ []

abbrev entries1 : List ℕ
entries1 = 5 ∷ 16 ∷ 34 ∷ 52 ∷ []

abbrev image1 : ℕ → ℕ
image1 = image [] zeros (rom test_prom1) 0

image1-IsImage : IsImage image1 entries1 74
unfolding total
image1-IsImage = record {
  end_at = 70;
  version = refl;
  chain = omega arith;
  marker = inl refl;
  ends = refl;
  short = omega arith;
  some_bits = omega arith;
  summed = refl;
}

abbrev pub context1 : PromContext
context1 = described 0 image1 entries1 74

pub no_default-IsBytes : IsBytes (λ j. get_or [] j 0)
no_default-IsBytes j = omega arith

pub zeros-IsBytes : IsBytes zeros
zeros-IsBytes j = omega arith

pub test_prom1_loads : load_prom [] zeros (rom test_prom1) true 0 ≡ ok context1
test_prom1_loads =
    ((load_prom_lem [] zeros (rom test_prom1) 0 no_default-IsBytes zeros-IsBytes).2 context1).1
      (entries1, 74, image1-IsImage, refl)

abbrev test_prom1_corrupted : List ℕ
test_prom1_corrupted = set test_prom1 14 0x77

-- test_load_prom_validation_fail, by evaluation
test_load_prom_validation_fail : load_prom [] zeros (rom test_prom1_corrupted) true 0 ≡ err eio
unfolding load_prom read_prom calc_checksum16
test_load_prom_validation_fail = refl

-- test_prom_find_entry_available and test_prom_find_entry_missing
test_prom_find_entry :
    (prom_find_entry context1 2 ≡ some 34)
    × (prom_find_entry context1 3 ≡ some 52)
    × (prom_find_entry context1 4 ≡ none)
unfolding prom_find_entry prom_for_each_entry
test_prom_find_entry = (refl, refl, refl)

-- The fields that the tests read from the entries of the first image.
test_prom_next_entry :
    (dma_length_at image1 16 ≡ 0x12131415)
    × (dma_perm_at image1 16 ≡ 4)
    × (dma_base_at image1 34 0 + 2 ^ 16 * dma_base_at image1 34 1 + 2 ^ 32 * dma_base_at image1 34 2
        ≡ 0xabcd11223344)
    × (dma_length_at image1 34 ≡ 0x8912345)
    × (dma_perm_at image1 34 ≡ 2)
test_prom_next_entry = (refl, refl, refl, refl, refl)

load_prom_lem_example :
    (load_prom [] zeros (rom test_prom1) false 0 ≡ err enomem)
    × ((e : Errno) → load_prom [] zeros (rom test_prom1) true 0 ≡ err e → e ≡ eio)
    × ((c : PromContext)
        → (load_prom [] zeros (rom test_prom1) true 0 ≡ ok c)
          ↔ ((xs : List ℕ) × (n : ℕ) × IsImage image1 xs n × (c ≡ described 0 image1 xs n)))
load_prom_lem_example = load_prom_lem [] zeros (rom test_prom1) 0 no_default-IsBytes zeros-IsBytes

prom_find_lem_example :
    (xs : List ℕ) × (e : ℕ) × Chain context1.buff xs 5 e
    × (e < 4096)
    × (context1.nentries ≡ length xs)
    × ((index : ℕ) → prom_find_entry context1 index ≡ get_elem? xs index)
    × ((minor : ℕ)
        → prom_find_entry_with_minor context1 minor
          ≡ get_elem? (select (prom_entry_needs_minor context1.buff) xs) minor)
    × ((tag : ℕ)
        → prom_find_entry_by_tag context1 tag ≡ first_with (λ x. tag_at context1.buff x == tag) xs)
prom_find_lem_example =
    prom_find_lem [] zeros (rom test_prom1) 0 context1 no_default-IsBytes zeros-IsBytes
      test_prom1_loads

prom_minors_lem_example :
    MinorsNamed context1 × MinorsOrdered context1 × MinorsBounded context1 × CountsOrdered context1
prom_minors_lem_example =
    prom_minors_lem [] zeros (rom test_prom1) 0 context1 no_default-IsBytes zeros-IsBytes
      test_prom1_loads

-- The card of the first image, read from offset 6 on: the offset is rounded down to 4.
read_prom_lem_example :
    (4096 < 6 → read_prom (rom test_prom1) context1 zeros 6 5 ≡ err einval)
    × (6 ≤ 4096
        → (out : ℕ → ℕ) × (read_prom (rom test_prom1) context1 zeros 6 5
            ≡ ok (record { size = 5; out = out }))
          × ((j : ℕ) → out j ≡ (if ltb j 8 then card_byte (rom test_prom1) 4 j else 0)))
read_prom_lem_example = read_prom_lem (rom test_prom1) context1 zeros 6 5

-- Two default images that differ in the size of the end marker: both sums are 65535.
abbrev short_prom : List ℕ
short_prom = 252 ∷ 0 ∷ 0 ∷ 0 ∷ 1 ∷ 0 ∷ 2 ∷ 0 ∷ 255 ∷ 254 ∷ []

abbrev long_prom : List ℕ
long_prom = set short_prom 6 3

abbrev default_image : List ℕ → ℕ → ℕ
default_image xs = image xs zeros zeros 0

short_prom-IsImage : IsImage (default_image short_prom) [] 9
unfolding total
short_prom-IsImage = record {
  end_at = 5;
  version = refl;
  chain = omega arith;
  marker = inl refl;
  ends = refl;
  short = omega arith;
  some_bits = omega arith;
  summed = refl;
}

long_prom-IsImage : IsImage (default_image long_prom) [] 10
unfolding total
long_prom-IsImage = record {
  end_at = 5;
  version = refl;
  chain = omega arith;
  marker = inr refl;
  ends = refl;
  short = omega arith;
  some_bits = omega arith;
  summed = refl;
}

short_prom-IsBytes : IsBytes (λ j. get_or short_prom j 0)
short_prom-IsBytes = get_or-lt short_prom 256 (omega arith) (omega arith)

long_prom-IsBytes : IsBytes (λ j. get_or long_prom j 0)
long_prom-IsBytes = get_or-lt long_prom 256 (omega arith) (omega arith)

default_loads :
    (xs : List ℕ) (n : ℕ)
    → IsBytes (λ j. get_or xs j 0)
    → IsImage (default_image xs) [] n
    → load_prom xs zeros zeros true 0 ≡ ok (described 0 (default_image xs) [] n)
default_loads xs n bytes v =
    ((load_prom_lem xs zeros zeros 0 bytes zeros-IsBytes).2 (described 0 (default_image xs) [] n)).1
      ([], n, v, refl)

long_prom-update : default_image long_prom ≡ update (default_image short_prom) 6 3
long_prom-update = fun_ext λ j. ground (arith, get_or-set short_prom 6 3 j 0)

load_prom-update_example : ◌≢◌ {A = ℕ} 10 9
load_prom-update_example =
    load_prom-update short_prom long_prom zeros zeros zeros 0 6 3
      (described 0 (default_image short_prom) [] 9) (described 0 (default_image long_prom) [] 10)
      short_prom-IsBytes long_prom-IsBytes zeros-IsBytes
      (default_loads short_prom 9 short_prom-IsBytes short_prom-IsImage) long_prom-update
      (omega arith) (omega arith) (omega arith)
      (default_loads long_prom 10 long_prom-IsBytes long_prom-IsImage)

-- A buffer of entries without an end.
abbrev endless : ℕ → ℕ
endless j = 1

scan-halts_example :
    (scanning endless (scan 2046 endless start) ≡ false)
    × (scan (2046 + 2050) endless start ≡ scan 2046 endless start)
scan-halts_example = scan-halts endless 2046 2050 start (omega arith)
