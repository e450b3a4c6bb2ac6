-- ===== src/Tools/Accepted.antt =====
-- The images of driver/tools/prom_data_creator.py are accepted by driver/prom_processing.c.
use amc_pci_dev.Prelude.{
  ℕ, ◌+◌, ◌%◌, ◌≤◌, ◌<◌, ◌≡◌, refl, sym, ap, ap₂, ◌∙◌, arith, true, List, ◌∷◌, ◌++◌, All, length,
  length-append, get_or, get_elem?, some, ok,
}
use amc_pci_dev.Utils.Total.{IsBytes, total}
use amc_pci_dev.Prom.{PromContext}
use amc_pci_dev.Prom.Image.{image, IsImage, described}
use amc_pci_dev.Prom.Load.{load_prom}
use amc_pci_dev.Prom.Loading.{load_prom_lem}
use amc_pci_dev.Prom.Entries.{prom_find_entry}
use amc_pci_dev.Prom.Find.{prom_find_entry-Chain}
use amc_pci_dev.Tools.{Field, version, dump_field, dump_fields, dump_end, process_config, word_sum}
use amc_pci_dev.Tools.Sums.{total-word_sum}
use amc_pci_dev.Tools.Marker.{
  IsTail, marked_end-IsTail, dump_fields-AreBytes, Chain-agree, total-agree,
}
use amc_pci_dev.Tools.Blocks.{
  AreBytes, AreBytes-append, IsEntry, offsets, length-offsets, offsets-Chain, offsets-holds, Reads,
  Reads-rest, get_or-append_right,
}

module _ (v : ℕ) (fields : List Field) (default_version : v ≤ 1)
    (entries : All IsEntry fields) where
  abbrev config : List Field
  config = version v ∷ fields

  abbrev content : List ℕ
  content = dump_fields config

  abbrev bytes : List ℕ
  bytes = process_config config

  abbrev end_at : ℕ
  end_at = 5 + length (dump_fields fields)

  content-AreBytes : AreBytes content
  content-AreBytes =
      AreBytes-append (dump_field (version v)) (dump_fields fields)
        (omega arith, (omega arith, (omega arith, (omega arith, (omega arith, tt)))))
        (dump_fields-AreBytes fields entries)

  length-content : length content ≡ end_at
  length-content = omega arith

  module _ (short : length bytes < 4096) where
    pub tail : IsTail content
    tail =
        marked_end-IsTail content content-AreBytes
          (omega (arith, length-append content (dump_end content)))

    whole : bytes ≡ content ++ 0 ∷ tail.size ∷ tail.more
    whole = ap (λ t. content ++ t) tail.shape

    read_at : Reads (λ j. get_or bytes j 0) 0 (content ++ 0 ∷ tail.size ∷ tail.more)
    read_at i = ap₂ (λ b k. get_or b k 0) whole (omega arith)

    pub read_from :
        Reads (λ j. get_or bytes j 0) 5 (dump_fields fields ++ 0 ∷ tail.size ∷ tail.more)
    read_from =
        Reads-rest (λ j. get_or bytes j 0) 0 (version v) fields (0 ∷ tail.size ∷ tail.more) read_at

    pub length-bytes : length bytes ≡ end_at + tail.size + 2
    length-bytes =
        ap length whole
        ∙ length-append content (0 ∷ tail.size ∷ tail.more)
        ∙ omega (arith, tail.sized)

    module _ (buff : ℕ → ℕ) (holds : (j : ℕ) → j < length bytes → buff j ≡ get_or bytes j 0) where
      size_at : buff (end_at + 1) ≡ tail.size
      size_at =
          holds (end_at + 1) (omega (arith, length-bytes))
          ∙ ap (λ b. get_or b (end_at + 1) 0) whole
          ∙ ap (λ k. get_or (content ++ 0 ∷ tail.size ∷ tail.more) (k + 1) 0) (sym length-content)
          ∙ get_or-append_right content (0 ∷ tail.size ∷ tail.more) 1

      pub bytes-IsImage : IsImage buff (offsets 5 fields) (length bytes)
      bytes-IsImage = record {
        end_at = end_at;
        version = holds 4 (omega (arith, length-bytes)) ∙ ground (arith, default_version);
        chain =
            Chain-agree (λ j. get_or bytes j 0) buff (offsets 5 fields) 5 end_at
              (λ j le. sym (holds j (omega (arith, length-bytes))))
              (offsets-Chain (λ j. get_or bytes j 0) 5 fields (tail.size ∷ tail.more) entries
                read_from);
        marker = ground (arith, size_at, tail.small);
        ends = omega (arith, length-bytes, size_at);
        short = short;
        some_bits = omega (arith, sums, tail.some_bits);
        summed = ap (λ t. t % 65535) sums ∙ tail.summed;
      }
        where
          sums : total buff (length bytes) ≡ word_sum bytes
          sums =
              total-agree buff (λ j. get_or bytes j 0) (length bytes) holds ∙ total-word_sum bytes

-- The default image and the memory behind the buffer are to hold bytes. Take a configuration of
-- version 1 (0 stands for it too) whose fields `struct.pack` accepts and whose names are in ASCII
-- and have fewer than 237 characters, with fewer than 4096 bytes in all. Where the image that
-- `load_prom` looks at begins with the bytes that the program makes of it and memory is allocated,
-- `load_prom` accepts it, with as many entries as there are fields, and entry `i` has the bytes of
-- field `i`.
pub load_prom-process_config :
    (v : ℕ) (fields : List Field)
    → v ≤ 1
    → All IsEntry fields
    → length (process_config (version v ∷ fields)) < 4096
    → (default_prom : List ℕ) (beyond ioread32 : ℕ → ℕ) (base : ℕ)
    → IsBytes (λ j. get_or default_prom j 0)
    → IsBytes beyond
    → ((j : ℕ)
        → j < length (process_config (version v ∷ fields))
        → image default_prom beyond ioread32 base j
          ≡ get_or (process_config (version v ∷ fields)) j 0)
    → (c : PromContext) × (load_prom default_prom beyond ioread32 true base ≡ ok c)
      × (c.nentries ≡ length fields)
      × ((i : ℕ) (f : Field)
          → get_elem? fields i ≡ some f
          → (x : ℕ) × (prom_find_entry c i ≡ some x)
            × ((j : ℕ) → j < length (dump_field f) → c.buff (x + j) ≡ get_or (dump_field f) j 0))
load_prom-process_config v fields default_version entries short default_prom beyond ioread32 base db
      bb holds =
    (c, loads, length-offsets 5 fields, found)
  where
    buff : ℕ → ℕ
    buff = image default_prom beyond ioread32 base

    is_image : IsImage buff (offsets 5 fields) (length (process_config (version v ∷ fields)))
    is_image = bytes-IsImage v fields default_version entries short buff holds

    c : PromContext
    c = described base buff (offsets 5 fields) (length (process_config (version v ∷ fields)))

    loads : load_prom default_prom beyond ioread32 true base ≡ ok c
    loads =
        ((load_prom_lem default_prom beyond ioread32 base db bb).2 c).1
          (offsets 5 fields, length (process_config (version v ∷ fields)), is_image, refl)

    found :
        (i : ℕ) (f : Field)
        → get_elem? fields i ≡ some f
        → (x : ℕ) × (prom_find_entry c i ≡ some x)
          × ((j : ℕ) → j < length (dump_field f) → c.buff (x + j) ≡ get_or (dump_field f) j 0)
    found i f e =
        let t = tail v fields default_version entries short in
        let (x, at, within, same) =
          offsets-holds (λ j. get_or (process_config (version v ∷ fields)) j 0) 5 fields
            (0 ∷ t.size ∷ t.more) i f (read_from v fields default_version entries short) e in
        let room = length-bytes v fields default_version entries short in
        (
          x,
          prom_find_entry-Chain c (offsets 5 fields) is_image.end_at is_image.chain
                (omega (arith, is_image.ends, short)) i
              ∙ at,
          λ j lt. holds (x + j) (omega (arith, within, room)) ∙ same j lt,
        )
