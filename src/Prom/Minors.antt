-- ===== src/Prom/Minors.antt =====
-- Which entries have a minor number on a context that `load_prom` returned: what the core of the
-- driver relies on when it opens and creates device nodes.
use amc_pci_dev.Prelude.{
  ℕ, zero, suc, ◌+◌, ◌*◌, ◌≤◌, ◌<◌, ◌≡◌, arith, List, [], ◌∷◌, length, get_elem?, get_or, Bool,
  true, some, none, select, length-select-le, get_elem?-lt, get_elem?-ge, get_elem?-select, ok, sym,
  ◌∙◌, subst, Bool-cases, inl, inr,
}
use amc_pci_dev.Utils.Total.{IsBytes}
use amc_pci_dev.Prom.{PromContext, size_at, prom_entry_needs_minor}
use amc_pci_dev.Prom.Entries.{prom_find_entry_with_minor}
use amc_pci_dev.Prom.Load.{load_prom, is_dma}
use amc_pci_dev.Prom.Chain.{Chain, Chain-length, Chain-within}
use amc_pci_dev.Prom.Image.{IsImage, image, described}
use amc_pci_dev.Prom.Find.{prom_find_entry_with_minor-Chain}
use amc_pci_dev.Prom.Loading.{load_prom_lem}

-- A DMA entry needs a minor number.
length-is_dma-le :
    (buff : ℕ → ℕ) (xs : List ℕ)
    → length (select (is_dma buff) xs) ≤ length (select (prom_entry_needs_minor buff) xs)
length-is_dma-le buff [] = omega arith
length-is_dma-le buff (x ∷ xs) = ground (arith, length-is_dma-le buff xs)

-- The entries that pass a test stand in the order of their numbers.
select-lt :
    (buff : ℕ → ℕ) (p : ℕ → Bool) (xs : List ℕ) (at_ e : ℕ)
    → Chain buff xs at_ e
    → (i j x y : ℕ) → i < j
    → get_elem? (select p xs) i ≡ some x
    → get_elem? (select p xs) j ≡ some y
    → x < y
select-lt buff p [] at_ e c i j x y lt ex ey = cc
select-lt buff p (z ∷ zs) at_ e c zero zero x y lt ex ey = absurd (omega arith)
select-lt buff p (z ∷ zs) at_ e c (suc i) zero x y lt ex ey = absurd (omega arith)
select-lt buff p (z ∷ zs) at_ e c zero (suc j) x y lt ex ey = elim (Bool-cases (p z)) [
  | inl passes ↦
      let (t, (k, at_k)) = get_elem?-select p zs j y (rw passes at ey) in
      ground (arith, rw passes at ex, Chain-within buff zs _ e c.2 k y at_k)
  | inr fails ↦ select-lt buff p zs _ e c.2 zero (suc j) x y lt (rw fails at ex) (rw fails at ey)
]
select-lt buff p (z ∷ zs) at_ e c (suc i) (suc j) x y lt ex ey = elim (Bool-cases (p z)) [
  | inl passes ↦
      select-lt buff p zs _ e c.2 i j x y (omega arith) (rw passes at ex) (rw passes at ey)
  | inr fails ↦ select-lt buff p zs _ e c.2 (suc i) (suc j) x y lt (rw fails at ex) (rw fails at ey)
]

-- The entry with a minor number is one that needs one, and lies whole in the image.
abbrev pub MinorsNamed : PromContext → Type 0
MinorsNamed c =
    (minor : ℕ)
    → minor < c.nentries_with_minor
    → (entry : ℕ) × (prom_find_entry_with_minor c minor ≡ some entry)
      × (prom_entry_needs_minor c.buff entry ≡ true)
      × (5 ≤ entry)
      × (entry + size_at c.buff entry + 2 < c.data_len)

abbrev pub MinorsOrdered : PromContext → Type 0
MinorsOrdered c =
    (i j x y : ℕ)
    → i < j
    → prom_find_entry_with_minor c i ≡ some x
    → prom_find_entry_with_minor c j ≡ some y
    → x < y

abbrev pub MinorsBounded : PromContext → Type 0
MinorsBounded c =
    (minor : ℕ) → c.nentries_with_minor ≤ minor → prom_find_entry_with_minor c minor ≡ none

abbrev pub CountsOrdered : PromContext → Type 0
CountsOrdered c =
    (c.dma_nentries ≤ c.nentries_with_minor)
    × (c.nentries_with_minor ≤ c.nentries)
    × (2 * c.nentries + 9 ≤ c.data_len)

module _ (base : ℕ) (buff : ℕ → ℕ) (xs : List ℕ) (n : ℕ) (v : IsImage buff xs n) where
  abbrev c : PromContext
  c = described base buff xs n

  finds :
      (minor : ℕ)
      → prom_find_entry_with_minor c minor
        ≡ get_elem? (select (prom_entry_needs_minor buff) xs) minor
  finds = prom_find_entry_with_minor-Chain c xs v.end_at v.chain (omega (arith, v.ends, v.short))

  named : MinorsNamed c
  named minor h =
      let (x, e) = get_elem?-lt (select (prom_entry_needs_minor buff) xs) minor h in
      let (t, (k, e')) = get_elem?-select (prom_entry_needs_minor buff) xs minor x e in
      let w = Chain-within buff xs 5 v.end_at v.chain k x e' in
      (x, finds minor ∙ e, t, w.0, omega (arith, w, v.ends))

  ordered : MinorsOrdered c
  ordered i j x y lt ex ey =
      select-lt buff (prom_entry_needs_minor buff) xs 5 v.end_at v.chain i j x y lt
        (sym (finds i) ∙ ex) (sym (finds j) ∙ ey)

  bounded : MinorsBounded c
  bounded minor h = finds minor ∙ get_elem?-ge (select (prom_entry_needs_minor buff) xs) minor h

  counts : CountsOrdered c
  counts = (
    length-is_dma-le buff xs,
    length-select-le (prom_entry_needs_minor buff) xs,
    ground (arith, Chain-length buff xs 5 v.end_at v.chain, v.ends, v.marker),
  )

-- On a context that `load_prom` returned, the minor numbers below `nentries_with_minor` name
-- distinct entries in the order of the image, each of them a device or DMA entry that lies whole
-- in the image; every other minor number finds NULL. There are no more DMA entries than entries
-- with a minor number, no more of these than entries, and the entries fit the image.
pub prom_minors_lem :
    (default_prom : List ℕ) (beyond ioread32 : ℕ → ℕ) (base : ℕ) (c : PromContext)
    → IsBytes (λ j. get_or default_prom j 0)
    → IsBytes beyond
    → load_prom default_prom beyond ioread32 true base ≡ ok c
    → MinorsNamed c × MinorsOrdered c × MinorsBounded c × CountsOrdered c
prom_minors_lem default_prom beyond ioread32 base c db bb h =
    let (xs, n, v, p) = ((load_prom_lem default_prom beyond ioread32 base db bb).2 c).0 h in
    let im = image default_prom beyond ioread32 base in
    subst (λ (x : PromContext). MinorsNamed x × MinorsOrdered x × MinorsBounded x × CountsOrdered x)
      (sym p)
      (named base im xs n v, ordered base im xs n v, bounded base im xs n v, counts base im xs n v)
