-- ===== src/Tools/Tests.antt =====
-- The configuration of the first image of driver/test_assets, and its use as a default image.
use amc_pci_dev.Prelude.{
  ℕ, ◌+◌, ◌<◌, ◌^◌, ◌≡◌, false, none, refl, arith, true, List, [], ◌∷◌, length, get_or, get_or-lt,
  get_elem?, some, ok, lt→ltb,
}
use amc_pci_dev.Utils.Total.{IsBytes}
use amc_pci_dev.Prom.{PromContext}
use amc_pci_dev.Prom.Load.{load_prom}
use amc_pci_dev.Prom.Entries.{prom_find_entry}
use amc_pci_dev.Prom.Tests.{test_prom1, zeros, zeros-IsBytes}
use amc_pci_dev.Tools.{
  Field, version, name, region, dump_field, process_config, encode, dump_device_description,
}
use amc_pci_dev.Tools.Accepted.{load_prom-process_config}
use amc_pci_dev.Tools.Opened.{amc_pci_open-process_config}
use amc_pci_dev.Core.{AmcPci, o_rdonly, dma_file, amc_pci_open}

abbrev text : ℕ → List ℕ
text last = b'm' ∷ b'e' ∷ b'm' ∷ last ∷ []

abbrev fields : List Field
fields =
    name (b't' ∷ b'e' ∷ b's' ∷ b't' ∷ b'_' ∷ b'd' ∷ b'e' ∷ b'v' ∷ [])
    ∷ region (text b'A') 4 0 0x12131415
    ∷ region (text b'B') 2 0xabcd11223344 0x8912345
    ∷ region (text b'C') 6 0x42616263 0x100
    ∷ []

-- The program makes the image that the tests of the driver use.
makes_test_prom1 : process_config (version 1 ∷ fields) ≡ test_prom1
unfolding encode
makes_test_prom1 = refl

-- A name of one letter that is not in ASCII: the size byte counts the letter and the NUL, where
-- three bytes follow.
name_too_long : dump_device_description (0xe9 ∷ []) ≡ 1 ∷ 2 ∷ 0xc3 ∷ 0xa9 ∷ 0 ∷ []
unfolding encode
name_too_long = refl

abbrev made : List ℕ
made = process_config (version 1 ∷ fields)

made-IsBytes : IsBytes (λ j. get_or made j 0)
unfolding encode
made-IsBytes = get_or-lt made 256 (omega arith) (omega arith)

load_prom-process_config_example :
    (c : PromContext) × (load_prom made zeros zeros true 0 ≡ ok c)
    × (c.nentries ≡ 4)
    × ((i : ℕ) (f : Field)
        → get_elem? fields i ≡ some f
        → (x : ℕ) × (prom_find_entry c i ≡ some x)
          × ((j : ℕ) → j < length (dump_field f) → c.buff (x + j) ≡ get_or (dump_field f) j 0))
unfolding encode
load_prom-process_config_example =
    load_prom-process_config 1 fields (omega arith) (omega arith) (omega arith) made zeros zeros 0
      made-IsBytes zeros-IsBytes (λ j lt. rw (lt→ltb _ _ lt) refl)

made_loads : (c : PromContext) × (load_prom made zeros zeros true 0 ≡ ok c)
unfolding encode
made_loads =
    let r =
      load_prom-process_config 1 fields (omega arith) (omega arith) (omega arith) made zeros zeros 0
        made-IsBytes zeros-IsBytes (λ j lt. rw (lt→ltb _ _ lt) refl) in
    (r.0, r.1)

-- A card whose PROM context comes from this image.
abbrev card : AmcPci
card = record {
  minor = 16;
  refcount = 1;
  completed = false;
  registers = record {
    control = record { dma = none; events = λ j. 0; active_readers = λ j. false; writes = [] };
    locking = record { reference_count = 0; locked_by = none };
  };
  dma = record {
    buffer_shift = 20;
    buffer_size = 2 ^ 20;
    buffer_dma = 0;
    alignment = 32;
    max_transfer = 2 ^ 20;
  };
  prom = made_loads.0;
}

-- The second minor number is that of the region `memA`, which may be read.
amc_pci_open-process_config_example :
    (amc_pci_open o_rdonly (some 4096) 65536 8192 (16 + 1) card).0
    ≡ ok (dma_file (record { dma = card.dma; base = 0; length = 0x12131415 }))
unfolding encode
amc_pci_open-process_config_example =
    amc_pci_open-process_config 1 fields (omega arith) (omega arith) (omega arith) made zeros zeros
      0 made-IsBytes zeros-IsBytes (λ j lt. rw (lt→ltb _ _ lt) refl) card made_loads.1
      (λ z. absurd (omega (arith, z))) 1 (text b'A') 4 0 0x12131415 refl o_rdonly 4096 65536 8192
