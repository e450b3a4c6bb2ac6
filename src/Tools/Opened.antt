-- ===== src/Tools/Opened.antt =====
-- From a configuration to an open file: driver/tools/prom_data_creator.py, `load_prom` and
-- `amc_pci_open` together.
use amc_pci_dev.Prelude.{
  ℕ, zero, suc, ◌+◌, ◌-◌, ◌≤◌, ◌<◌, ◌≡◌, ◌≢◌, refl, sym, ap, ◌∙◌, arith, subst, true, false, ltb,
  if◌then◌else◌, select, some, List, [], ◌∷◌, All, length, get_or, get_elem?, get_elem?-select,
  Result, ok, err, eacces, ne→==, Bool-cases, inl, inr,
}
use amc_pci_dev.Utils.Total.{IsBytes}
use amc_pci_dev.Prom.{PromContext, tag_at, prom_dma_tag, prom_dma_ext_tag}
use amc_pci_dev.Prom.Entries.{
  prom_find_entry_with_minor, dma_length_at, dma_perm_at, dma_ext_base_at, dma_ext_length_at,
  dma_ext_perm_at,
}
use amc_pci_dev.Prom.Image.{image, image-IsBytes, IsImage, described}
use amc_pci_dev.Prom.Load.{load_prom}
use amc_pci_dev.Prom.Loading.{load_prom_lem}
use amc_pci_dev.Prom.Find.{prom_find_entry_with_minor-Chain}
use mathlib.Core.Option.{some-injective}
use amc_pci_dev.Prelude.Op.{cleaned}
use amc_pci_dev.Memory.{amc_pci_dma_open}
use amc_pci_dev.Core.{
  amc_pci_release, AmcPci, AccessMode, FileData, dma_file, dma_base, open_area, open_entry,
  open_minor, amc_pci_open,
}
use amc_pci_dev.Core.Opening.{allows, validate-allows, dma_base-eq}
use amc_pci_dev.Tools.{Field, version, region, dump_field, dump_fields, process_config}
use amc_pci_dev.Tools.Blocks.{IsEntry, offsets, offsets-Chain}
use amc_pci_dev.Tools.Regions.{is_wide, region-short, region-wide}
use amc_pci_dev.Tools.Accepted.{bytes-IsImage, tail, read_from, length-bytes}
use amc_pci_dev.Tools.Nodes.{has_node, node-Holds, needs-agree}

-- What an open of a region comes to.
abbrev pub region_opened : AccessMode → AmcPci → ℕ → ℕ → ℕ → Result FileData
region_opened mode s perm base size =
    if allows mode perm
    then ok (dma_file (record { dma = s.dma; base = base; length = size }))
    else err eacces

cleaned-result : {S A : Type 0} (q : Result A × S) (clean : S → S) → (cleaned q clean).0 ≡ q.0
cleaned-result (ok a, s) clean = refl
cleaned-result (err e, s) clean = refl

ok-injective : {A : Type 0} (a b : A) → ◌≡◌ {A = Result A} (ok a) (ok b) → a ≡ b
ok-injective a b h = cc

get_elem?-IsEntry :
    (fields : List Field) (i : ℕ) (f : Field)
    → All IsEntry fields
    → get_elem? fields i ≡ some f
    → IsEntry f
get_elem?-IsEntry [] i f v h = cc
get_elem?-IsEntry (g ∷ fields) zero f v h = subst IsEntry (some-injective g f h) v.0
get_elem?-IsEntry (g ∷ fields) (suc i) f v h = get_elem?-IsEntry fields i f v.1 h

module _ (mode : AccessMode) (address start len : ℕ) where
  open_area_lem :
      (base size perm : ℕ) (s : AmcPci)
      → (open_area mode (some address) start len base size perm s).0
        ≡ region_opened mode s perm base size
  unfolding amc_pci_dma_open
  open_area_lem base size perm s = elim (Bool-cases (allows mode perm)) [
    | inl allowed ↦ ground (arith, allowed, validate-allows mode perm)
    | inr refused ↦ ground (arith, refused, validate-allows mode perm)
  ]

  region_of :
      (s : AmcPci) (perm base size p b l : ℕ)
      → b ≡ base
      → l ≡ size
      → p ≡ perm
      → region_opened mode s p b l ≡ region_opened mode s perm base size
  region_of s perm base size p b l same_base same_size same_perm =
      ap (λ q. region_opened mode s q b l) same_perm
      ∙ ap (λ z. region_opened mode s perm z l) same_base
      ∙ ap (region_opened mode s perm base) same_size

  open_entry-short :
      (buff : ℕ → ℕ) (x : ℕ) (s : AmcPci) (perm base size : ℕ)
      → tag_at buff x ≡ prom_dma_tag
      → dma_base buff x ≡ base
      → dma_length_at buff x ≡ size
      → dma_perm_at buff x ≡ perm
      → (open_entry mode (some address) start len buff x s).0 ≡ region_opened mode s perm base size
  open_entry-short buff x s perm base size tag b l p =
      ground (arith, tag)
      ∙ open_area_lem (dma_base buff x) (dma_length_at buff x) (dma_perm_at buff x) s
      ∙ region_of s perm base size (dma_perm_at buff x) (dma_base buff x) (dma_length_at buff x) b l
          p

  open_entry-wide :
      (buff : ℕ → ℕ) (x : ℕ) (s : AmcPci) (perm base size : ℕ)
      → tag_at buff x ≡ prom_dma_ext_tag
      → dma_ext_base_at buff x ≡ base
      → dma_ext_length_at buff x ≡ size
      → dma_ext_perm_at buff x ≡ perm
      → (open_entry mode (some address) start len buff x s).0 ≡ region_opened mode s perm base size
  open_entry-wide buff x s perm base size tag b l p =
      ground (arith, tag)
      ∙ open_area_lem (dma_ext_base_at buff x) (dma_ext_length_at buff x) (dma_ext_perm_at buff x) s
      ∙ region_of s perm base size (dma_ext_perm_at buff x) (dma_ext_base_at buff x)
          (dma_ext_length_at buff x) b l p

  -- The work of the open of a minor number that stands for a region.
  open_minor-region :
      (s : AmcPci) (k x : ℕ) (text : List ℕ) (perm base size : ℕ)
      → IsBytes s.prom.buff
      → IsEntry (region text perm base size)
      → prom_find_entry_with_minor s.prom k ≡ some x
      → ((j : ℕ)
          → j < length (dump_field (region text perm base size))
          → s.prom.buff (x + j) ≡ get_or (dump_field (region text perm base size)) j 0)
      → (open_minor mode (some address) start len k s).0 ≡ region_opened mode s perm base size
  open_minor-region s k x text perm base size bytes v found holds =
      elim (Bool-cases (is_wide base size)) [
        | inl wide ↦
            let (tag, b, l, p) =
              region-wide text perm base size v.2 v.3 v.4 s.prom.buff x holds wide in
            ground (arith, found) ∙ open_entry-wide s.prom.buff x s perm base size tag b l p
        | inr narrow ↦
            let (tag, b, l, p) =
              region-short text perm base size v.2 v.3 v.4 s.prom.buff x holds narrow in
            ground (arith, found)
            ∙ open_entry-short s.prom.buff x s perm base size tag
                (dma_base-eq s.prom.buff x bytes ∙ b) l p
      ]

  amc_pci_open-minor :
      (s : AmcPci) (k : ℕ) (r : Result FileData)
      → s.refcount ≢ 0
      → (open_minor mode (some address) start len k (record s { refcount = s.refcount + 1 })).0 ≡ r
      → (amc_pci_open mode (some address) start len (s.minor + k) s).0 ≡ r
  unfolding amc_pci_open
  amc_pci_open-minor s k r used e =
      let same : s.minor + k - s.minor ≡ k = omega arith in
      let from : ltb (s.minor + k) s.minor ≡ false = ground arith in
      rw (ne→== s.refcount 0 used, from, same)
        (cleaned-result
            (open_minor mode (some address) start len k (record s { refcount = s.refcount + 1 }))
            amc_pci_release
          ∙ e)

-- The default image and the memory behind the PROM buffer are to hold bytes. Take a configuration
-- of version 1 (0 stands for it too) whose fields `struct.pack` accepts and whose names are in
-- ASCII and have fewer than 237 characters, with fewer than 4096 bytes in all, and a card in use
-- whose PROM context `load_prom` returned for an image that begins with the bytes that the program
-- makes of it. If line `k` among the names and regions of the configuration is a region, an open
-- of the `k`-th minor number of the card, with memory allocated, gives a DMA file of the base and
-- the length that the line says if the line's permissions allow the access mode, and -EACCES
-- otherwise.
pub amc_pci_open-process_config :
    (v : ℕ) (fields : List Field)
    → v ≤ 1
    → All IsEntry fields
    → length (process_config (version v ∷ fields)) < 4096
    → (default_prom : List ℕ) (beyond ioread32 : ℕ → ℕ) (prom_base : ℕ)
    → IsBytes (λ j. get_or default_prom j 0)
    → IsBytes beyond
    → ((j : ℕ)
        → j < length (process_config (version v ∷ fields))
        → image default_prom beyond ioread32 prom_base j
          ≡ get_or (process_config (version v ∷ fields)) j 0)
    → (s : AmcPci) → load_prom default_prom beyond ioread32 true prom_base ≡ ok s.prom
    → s.refcount ≢ 0
    → (k : ℕ) (text : List ℕ) (perm base size : ℕ)
    → get_elem? (select has_node fields) k ≡ some (region text perm base size)
    → (mode : AccessMode) (address start len : ℕ)
    → (amc_pci_open mode (some address) start len (s.minor + k) s).0
      ≡ region_opened mode s perm base size
amc_pci_open-process_config v fields default_version entries short default_prom beyond ioread32
      prom_base db bb holds s loaded used k text perm base size line mode address start len =
    let is_image : IsImage buff (offsets 5 fields) size_of =
      bytes-IsImage v fields default_version entries short buff holds in
    let c : PromContext = described prom_base buff (offsets 5 fields) size_of in
    let same : s.prom ≡ c = ok-injective s.prom c (
      sym loaded
      ∙ ((load_prom_lem default_prom beyond ioread32 prom_base db bb).2 c).1
          (offsets 5 fields, size_of, is_image, refl)) in
    let t = tail v fields default_version entries short in
    let room = length-bytes v fields default_version entries short in
    let reads = read_from v fields default_version entries short in
    let (x, at, within, bytes) =
      node-Holds packed 5 fields (0 ∷ t.size ∷ t.more) k (region text perm base size) entries reads
        line in
    let needs =
      needs-agree packed buff (offsets 5 fields) 5 (5 + length (dump_fields fields))
        (λ j le. sym (holds j (omega (arith, room))))
        (offsets-Chain packed 5 fields (t.size ∷ t.more) entries reads) in
    let found =
      prom_find_entry_with_minor-Chain c (offsets 5 fields) is_image.end_at is_image.chain
        (omega (arith, is_image.ends, short)) k
      ∙ ap (λ ys. get_elem? ys k) (sym needs)
      ∙ at in
    let (i, chosen) = (get_elem?-select has_node fields k (region text perm base size) line).1 in
    let valid = get_elem?-IsEntry fields i (region text perm base size) entries chosen in
    amc_pci_open-minor mode address start len s k (region_opened mode s perm base size) used (
      open_minor-region mode address start len (record s { refcount = s.refcount + 1 }) k x text
        perm base size
        (subst (λ (q : PromContext). IsBytes q.buff) (sym same)
          (image-IsBytes default_prom beyond ioread32 prom_base db bb))
        valid (ap (λ q. prom_find_entry_with_minor q k) same ∙ found)
        (λ j lt.
          ap (λ (q : PromContext). q.buff (x + j)) same
          ∙ holds (x + j) (omega (arith, within, room))
          ∙ bytes j lt))
  where
    buff : ℕ → ℕ
    buff = image default_prom beyond ioread32 prom_base

    packed : ℕ → ℕ
    packed j = get_or (process_config (version v ∷ fields)) j 0

    size_of : ℕ
    size_of = length (process_config (version v ∷ fields))
