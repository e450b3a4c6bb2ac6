-- ===== src/Prom/Entries.antt =====
-- Walking the entries of the PROM: `prom_first_entry`, `prom_next_entry`, the macro
-- `prom_for_each_entry` and the searches built on it, and the fields of the packed entries.
use amc_pci_dev.Prelude.{
  ℕ, zero, suc, ◌+◌, ◌*◌, ◌^◌, true, false, Option, none, some, ◌==◌, if◌then◌else◌,
}
use amc_pci_dev.Prom.{
  PromContext, prom_end_tag, tag_at, size_at, prom_entry_needs_minor, prom_first_entry_offset,
}

abbrev pub prom_first_entry : PromContext → ℕ
prom_first_entry context = prom_first_entry_offset

abbrev pub prom_next_entry : (ℕ → ℕ) → ℕ → ℕ
prom_next_entry buff entry =
    if tag_at buff entry == prom_end_tag then entry else entry + (size_at buff entry + 2)

-- What one round of a loop does: go on, or return from the function.
pub data Flow (S R : Type 0) : Type 0 where
  next : S → Flow S R
  return : R → Flow S R

-- `prom_for_each_entry(pos, context) body`; `fuel` bounds the rounds.
unfoldable pub prom_for_each_entry :
    {S R : Type 0} → ℕ → (ℕ → ℕ) → (S → ℕ → Flow S R) → ℕ → S → Flow S R
prom_for_each_entry zero buff body pos s = next s
prom_for_each_entry (suc fuel) buff body pos s = elim (tag_at buff pos == prom_end_tag) [
  | true ↦ next s
  | false ↦ elim (body s pos) [
    | return r ↦ return r
    | next s' ↦ prom_for_each_entry fuel buff body (prom_next_entry buff pos) s'
  ]
]

-- An entry has two bytes or more, so the buffer has at most this many.
abbrev pub max_entries : ℕ
max_entries = 2048

abbrev pub returned : {S R : Type 0} → Flow S R → Option R
returned (next s) = none
returned (return r) = some r

-- The body of the loop of `prom_find_entry`; the state is `i`.
abbrev pub match_index : ℕ → ℕ → ℕ → Flow ℕ ℕ
match_index index i pentry = if i == index then return pentry else next (i + 1)

-- NULL is `none`.
unfoldable pub prom_find_entry : PromContext → ℕ → Option ℕ
prom_find_entry context index =
    returned (
      prom_for_each_entry max_entries context.buff (match_index index) (prom_first_entry context) 0)

abbrev pub match_minor : (ℕ → ℕ) → ℕ → ℕ → ℕ → Flow ℕ ℕ
match_minor buff minor i pentry =
    if prom_entry_needs_minor buff pentry
    then (if i == minor then return pentry else next (i + 1))
    else next i

unfoldable pub prom_find_entry_with_minor : PromContext → ℕ → Option ℕ
prom_find_entry_with_minor context minor = returned (
    prom_for_each_entry max_entries context.buff (match_minor context.buff minor)
      (prom_first_entry context) 0)

abbrev pub match_tag : (ℕ → ℕ) → ℕ → Unit {0} → ℕ → Flow (Unit {0}) ℕ
match_tag buff tag s pentry = if tag_at buff pentry == tag then return pentry else next tt

unfoldable pub prom_find_entry_by_tag : PromContext → ℕ → Option ℕ
prom_find_entry_by_tag context tag = returned (
    prom_for_each_entry max_entries context.buff (match_tag context.buff tag)
      (prom_first_entry context) tt)

-- Little-endian fields of the packed structures, at an offset.
abbrev pub u16_at : (ℕ → ℕ) → ℕ → ℕ
u16_at buff p = buff p + 256 * buff (p + 1)

abbrev pub u32_at : (ℕ → ℕ) → ℕ → ℕ
u32_at buff p = u16_at buff p + 2 ^ 16 * u16_at buff (p + 2)

abbrev pub u64_at : (ℕ → ℕ) → ℕ → ℕ
u64_at buff p = u32_at buff p + 2 ^ 32 * u32_at buff (p + 4)

-- `struct prom_dma_entry`
abbrev pub dma_base_at : (ℕ → ℕ) → ℕ → ℕ → ℕ
dma_base_at buff entry k = u16_at buff (entry + 2 + 2 * k)

abbrev pub dma_length_at : (ℕ → ℕ) → ℕ → ℕ
dma_length_at buff entry = u32_at buff (entry + 8)

abbrev pub dma_perm_at : (ℕ → ℕ) → ℕ → ℕ
dma_perm_at buff entry = buff (entry + 12)

-- `struct prom_dma_ext_entry`
abbrev pub dma_ext_base_at : (ℕ → ℕ) → ℕ → ℕ
dma_ext_base_at buff entry = u64_at buff (entry + 2)

abbrev pub dma_ext_length_at : (ℕ → ℕ) → ℕ → ℕ
dma_ext_length_at buff entry = u64_at buff (entry + 10)

abbrev pub dma_ext_perm_at : (ℕ → ℕ) → ℕ → ℕ
dma_ext_perm_at buff entry = buff (entry + 18)

-- `struct prom_dma_mask` and `struct prom_dma_align`
abbrev pub mask_at : (ℕ → ℕ) → ℕ → ℕ
mask_at buff entry = buff (entry + 2)

abbrev pub shift_at : (ℕ → ℕ) → ℕ → ℕ
shift_at buff entry = buff (entry + 2)
