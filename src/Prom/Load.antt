-- ===== src/Prom/Load.antt =====
-- `load_prom`: finding the PROM image, walking it and accepting or refusing it. `default_prom` is
-- the array that the build generates, and `beyond` is what happens to lie in memory behind `buff`.
use amc_pci_dev.Prelude.{
  ℕ, zero, suc, ◌+◌, Bool, true, false, ◌&&◌, ◌||◌, not, List, length, get_or, ltb, ◌==◌,
  if◌then◌else◌, byte_of, Result, ok, err, eio, enomem, ◌>>=◌, ◌>>◌,
}
use amc_pci_dev.Utils.{calc_checksum16}
use amc_pci_dev.Prom.{
  PromContext, prom_end_tag, prom_dma_tag, prom_dma_ext_tag, prom_max_length, prom_version,
  prom_version_offset, prom_first_entry_offset, prom_checksum_size, prom_entry_needs_minor,
}
use amc_pci_dev.Prom.Read.{read_prom}

abbrev pub check_magic : ℕ → Bool
check_magic magic =
    byte_of magic 0 == b'D'
    && byte_of magic 1 == b'I'
    && byte_of magic 2 == b'A'
    && byte_of magic 3 == b'G'

-- The variables of the loop over the entries.
pub record Scan : Type 0 where
  pub ent_i : ℕ
  pub nentries : ℕ
  pub dma_nentries : ℕ
  pub nentries_with_minor : ℕ

abbrev pub is_dma : (ℕ → ℕ) → ℕ → Bool
is_dma buff entry = buff entry == prom_dma_tag || buff entry == prom_dma_ext_tag

abbrev pub scanning : (ℕ → ℕ) → Scan → Bool
scanning buff s = ltb s.ent_i prom_max_length && not (buff s.ent_i == prom_end_tag)

abbrev pub scan_entry : (ℕ → ℕ) → Scan → Scan
scan_entry buff s = record {
  ent_i = s.ent_i + (buff (s.ent_i + 1) + 2);
  nentries = s.nentries + 1;
  dma_nentries = if is_dma buff s.ent_i then s.dma_nentries + 1 else s.dma_nentries;
  nentries_with_minor =
      if prom_entry_needs_minor buff s.ent_i
      then s.nentries_with_minor + 1
      else s.nentries_with_minor;
}

-- The `while` loop, with fuel for its rounds.
unfoldable pub scan : ℕ → (ℕ → ℕ) → Scan → Scan
scan zero buff s = s
scan (suc fuel) buff s = elim (scanning buff s) [
  | true ↦ scan fuel buff (scan_entry buff s)
  | false ↦ s
]

abbrev pub start : Scan
start = record {
  ent_i = prom_first_entry_offset;
  nentries = 0;
  dma_nentries = 0;
  nentries_with_minor = 0;
}

-- Each round moves `ent_i` on by two or more, so this is enough.
abbrev pub scan_fuel : ℕ
scan_fuel = 4096

abbrev pub require : Bool → Result (Unit {0})
require test = if test then ok tt else err eio

abbrev pub validate_prom : PromContext → Bool
validate_prom context = calc_checksum16 context.buff context.data_len == 0

-- `memcpy(buff, default_prom, sizeof(default_prom))`
abbrev pub copy_in : (ℕ → ℕ) → List ℕ → ℕ → ℕ
copy_in buff bytes j = if ltb j (length bytes) then get_or bytes j 0 else buff j

-- The structure as `kzalloc` returns it.
abbrev pub blank : (ℕ → ℕ) → ℕ → PromContext
blank beyond base = record {
  base = base;
  buff = λ j. if ltb j (prom_max_length + 1) then 0 else beyond j;
  data_len = 0;
  nentries = 0;
  dma_nentries = 0;
  nentries_with_minor = 0;
}

-- From the end of the loop to the return.
unfoldable pub finish : PromContext → Scan → Result PromContext
finish context s = do
  let data_len = s.ent_i + buff (s.ent_i + 1) + 2
  require (
      ltb data_len prom_max_length
      && buff s.ent_i == prom_end_tag
      && (buff (s.ent_i + 1) == prom_checksum_size || buff (s.ent_i + 1) == prom_checksum_size + 1))
  let found = record context {
    data_len = data_len;
    nentries = s.nentries;
    dma_nentries = s.dma_nentries;
    nentries_with_minor = s.nentries_with_minor;
  }
  require (validate_prom found)
  ok found
  where
    open context use {buff}

module _ (default_prom : List ℕ) (beyond : ℕ → ℕ) (ioread32 : ℕ → ℕ) where
  -- The image in the buffer: the card's, or the default one.
  unfoldable pub load_image : PromContext → Result (ℕ → ℕ)
  load_image context =
      if check_magic (ioread32 context.base)
      then (elim (read_prom ioread32 context context.buff 0 prom_max_length) [
        | ok r ↦ if r.size == prom_max_length then ok r.out else err eio
        | err e ↦ err eio
      ])
      else ok (copy_in context.buff default_prom)

  -- `allocated` tells whether `kzalloc` succeeded.
  unfoldable pub load_prom : Bool → ℕ → Result PromContext
  unfolding load_image scan finish
  load_prom allocated base =
      if allocated
      then (do
        let context = blank beyond base
        buff ← load_image context
        require (buff prom_version_offset == prom_version)
        finish (record context { buff = buff }) (scan scan_fuel buff start))
      else err enomem
