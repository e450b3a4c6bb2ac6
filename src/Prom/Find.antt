-- ===== src/Prom/Find.antt =====
-- The searches among the entries, on a context that `load_prom` returned.
use amc_pci_dev.Prelude.{
  ℕ, zero, suc, ◌+◌, ◌<◌, ◌≡◌, ◌≢◌, refl, arith, List, [], ◌∷◌, length, get_elem?, get_or, true,
  ◌==◌, select, first_with, ok, ap, sym, ◌∙◌, subst, eq→==, ne→==,
}
use amc_pci_dev.Utils.Total.{IsBytes}
use amc_pci_dev.Prom.{PromContext, tag_at, prom_entry_needs_minor}
use amc_pci_dev.Prom.Entries.{
  Flow, next, return, returned, prom_for_each_entry, prom_next_entry, match_index, match_minor,
  match_tag, prom_find_entry, prom_find_entry_with_minor, prom_find_entry_by_tag, max_entries,
}
use amc_pci_dev.Prom.Load.{load_prom}
use amc_pci_dev.Prom.Chain.{Chain, Chain-length}
use amc_pci_dev.Prom.Image.{image}
use amc_pci_dev.Prom.Loading.{load_prom_lem}

-- The macro's loop over the offsets of a list.
unfoldable pub for_each : {S R : Type 0} → (S → ℕ → Flow S R) → List ℕ → S → Flow S R
for_each body [] s = next s
for_each body (x ∷ xs) s = elim (body s x) [ return r ↦ return r | next s' ↦ for_each body xs s' ]

prom_next_entry-eq :
    (buff : ℕ → ℕ) (p : ℕ) → buff p ≢ 0 → prom_next_entry buff p ≡ p + (buff (p + 1) + 2)
prom_next_entry-eq buff p h = rw (ne→== (buff p) 0 h)

-- With rounds enough, the macro walks the chain to its end marker.
pub prom_for_each_entry-Chain :
    {S R : Type 0} (buff : ℕ → ℕ) (body : S → ℕ → Flow S R)
    → (xs : List ℕ) (fuel p e : ℕ) (s : S) → Chain buff xs p e
    → length xs < fuel
    → prom_for_each_entry fuel buff body p s ≡ for_each body xs s
unfolding prom_for_each_entry for_each
prom_for_each_entry-Chain buff body xs zero p e s c h = absurd (omega arith)
prom_for_each_entry-Chain buff body [] (suc fuel) p e s c h =
    rw (eq→== (buff p) 0 c.0, prom_for_each_entry)
prom_for_each_entry-Chain buff body (x ∷ xs) (suc fuel) p e s c h =
    rw (c.0, ne→== (buff p) 0 c.1, prom_for_each_entry)
      λ i. elim (body s p) [
        | return r ↦ return r
        | next s' ↦
            (ap (λ q. prom_for_each_entry fuel buff body q s') (prom_next_entry-eq buff p c.1)
                ∙ prom_for_each_entry-Chain buff body xs fuel (p + (buff (p + 1) + 2)) e s' c.2
                    (omega arith))
              i
      ]

for_each-match_index :
    (xs : List ℕ) (i index target : ℕ)
    → target ≡ i + index
    → returned (for_each (match_index target) xs i) ≡ get_elem? xs index
unfolding for_each
for_each-match_index [] i index target e = refl
for_each-match_index (x ∷ xs) i zero target e = ground arith
for_each-match_index (x ∷ xs) i (suc index) target e =
    ground (arith, for_each-match_index xs (i + 1) index target (omega arith))

for_each-match_minor :
    (buff : ℕ → ℕ) (xs : List ℕ) (i minor target : ℕ)
    → target ≡ i + minor
    → returned (for_each (match_minor buff target) xs i)
      ≡ get_elem? (select (prom_entry_needs_minor buff) xs) minor
unfolding for_each
for_each-match_minor buff [] i minor target e = refl
for_each-match_minor buff (x ∷ xs) i zero target e =
    ground (arith, for_each-match_minor buff xs i zero target e)
for_each-match_minor buff (x ∷ xs) i (suc minor) target e = ground (
  arith,
  for_each-match_minor buff xs i (suc minor) target e,
  for_each-match_minor buff xs (i + 1) minor target (omega arith),
)

for_each-match_tag :
    (buff : ℕ → ℕ) (tag : ℕ) (xs : List ℕ)
    → returned (for_each (match_tag buff tag) xs tt) ≡ first_with (λ x. tag_at buff x == tag) xs
unfolding for_each
for_each-match_tag buff tag [] = refl
for_each-match_tag buff tag (x ∷ xs) = ground (arith, for_each-match_tag buff tag xs)

module _ (c : PromContext) (xs : List ℕ) (e : ℕ) (chain : Chain c.buff xs 5 e)
    (short : e < 4096) where
  rounds : length xs < max_entries
  rounds = omega (arith, Chain-length c.buff xs 5 e chain)

  pub prom_find_entry-Chain : (index : ℕ) → prom_find_entry c index ≡ get_elem? xs index
  unfolding prom_find_entry
  prom_find_entry-Chain index =
      ap returned
        (prom_for_each_entry-Chain c.buff (match_index index) xs max_entries 5 e 0 chain rounds)
      ∙ for_each-match_index xs 0 index index (omega arith)

  pub prom_find_entry_with_minor-Chain :
      (minor : ℕ)
      → prom_find_entry_with_minor c minor
        ≡ get_elem? (select (prom_entry_needs_minor c.buff) xs) minor
  unfolding prom_find_entry_with_minor
  prom_find_entry_with_minor-Chain minor =
      ap returned (
        prom_for_each_entry-Chain c.buff (match_minor c.buff minor) xs max_entries 5 e 0 chain
          rounds)
      ∙ for_each-match_minor c.buff xs 0 minor minor (omega arith)

  pub prom_find_entry_by_tag-Chain :
      (tag : ℕ) → prom_find_entry_by_tag c tag ≡ first_with (λ x. tag_at c.buff x == tag) xs
  unfolding prom_find_entry_by_tag
  prom_find_entry_by_tag-Chain tag =
      ap returned
        (prom_for_each_entry-Chain c.buff (match_tag c.buff tag) xs max_entries 5 e tt chain rounds)
      ∙ for_each-match_tag c.buff tag xs

-- The entries of a context that `load_prom` returned stand in a chain `xs` from offset 5 to an
-- end marker below offset 4096, and `nentries` is its length. `prom_find_entry` with an index
-- returns that entry of the chain, `prom_find_entry_with_minor` that one among the entries that
-- need a minor number, and `prom_find_entry_by_tag` the first with the tag; each returns NULL if
-- there is none.
pub prom_find_lem :
    (default_prom : List ℕ) (beyond ioread32 : ℕ → ℕ) (base : ℕ) (c : PromContext)
    → IsBytes (λ j. get_or default_prom j 0)
    → IsBytes beyond
    → load_prom default_prom beyond ioread32 true base ≡ ok c
    → (xs : List ℕ) × (e : ℕ) × Chain c.buff xs 5 e
      × (e < 4096)
      × (c.nentries ≡ length xs)
      × ((index : ℕ) → prom_find_entry c index ≡ get_elem? xs index)
      × ((minor : ℕ)
          → prom_find_entry_with_minor c minor
            ≡ get_elem? (select (prom_entry_needs_minor c.buff) xs) minor)
      × ((tag : ℕ) → prom_find_entry_by_tag c tag ≡ first_with (λ x. tag_at c.buff x == tag) xs)
prom_find_lem default_prom beyond ioread32 base c db bb h =
    let (xs, n, v, p) = ((load_prom_lem default_prom beyond ioread32 base db bb).2 c).0 h in
    let im = image default_prom beyond ioread32 base in
    let chain = subst (λ (x : PromContext). Chain x.buff xs 5 v.end_at) (sym p) v.chain in
    let short : v.end_at < 4096 = omega (arith, v.ends, v.short) in
    (
      xs,
      v.end_at,
      chain,
      short,
      ap (λ (x : PromContext). x.nentries) p,
      prom_find_entry-Chain c xs v.end_at chain short,
      prom_find_entry_with_minor-Chain c xs v.end_at chain short,
      prom_find_entry_by_tag-Chain c xs v.end_at chain short,
    )
