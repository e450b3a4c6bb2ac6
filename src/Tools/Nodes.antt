-- ===== src/Tools/Nodes.antt =====
-- The fields of driver/tools/prom_data_creator.py that get a device file, and the entries with a
-- minor number.
use amc_pci_dev.Prelude.{
  ℕ, zero, suc, ◌+◌, ◌≤◌, ◌<◌, ◌≡◌, refl, ap, ap₂, ◌∙◌, arith, subst, Bool, true, false, ◌==◌, ◌||◌,
  if◌then◌else◌, select, some, List, [], ◌∷◌, ◌++◌, All, length, length-append, get_or, get_elem?,
  Bool-cases, inl, inr,
}
use mathlib.Core.Option.{some-injective}
use amc_pci_dev.Prom.{prom_entry_needs_minor, prom_device_tag, prom_dma_tag, prom_dma_ext_tag}
use amc_pci_dev.Prom.Chain.{Chain, Chain-length}
use amc_pci_dev.Tools.{Field, version, name, region, mask, align_shift, dump_field, dump_fields}
use amc_pci_dev.Tools.Blocks.{IsEntry, offsets, offsets-holds, Reads, Reads-rest}
use amc_pci_dev.Tools.Regions.{is_wide}

-- The fields that get a device file.
abbrev pub has_node : Field → Bool
has_node (name text) = true
has_node (region text perm base size) = true
has_node _ = false

first_needs :
    (buff : ℕ → ℕ) (p : ℕ) (f : Field) (fields : List Field) (rest : List ℕ)
    → IsEntry f
    → Reads buff p (dump_fields (f ∷ fields) ++ rest)
    → prom_entry_needs_minor buff p ≡ has_node f
first_needs buff p f fields rest v h = at_tag f v (ap buff (omega arith) ∙ h 0)
  where
    at_tag :
        (g : Field)
        → IsEntry g
        → buff p ≡ get_or (dump_fields (g ∷ fields) ++ rest) 0 0
        → prom_entry_needs_minor buff p ≡ has_node g
    at_tag (version n) v e = absurd v
    at_tag (name text) v e = ground (arith, e)
    at_tag (region text perm base size) v e = elim (Bool-cases (is_wide base size)) [
      | inl wide ↦ ground (arith, rw wide at e)
      | inr narrow ↦ ground (arith, rw narrow at e)
    ]
    at_tag (mask n) v e = ground (arith, e)
    at_tag (align_shift n) v e = ground (arith, e)

abbrev pub Holds : (ℕ → ℕ) → ℕ → List Field → ℕ → Field → List ℕ → Type 0
Holds buff p fields k f offsets =
    (x : ℕ) × (get_elem? offsets k ≡ some x)
    × (x + length (dump_field f) ≤ p + length (dump_fields fields))
    × ((j : ℕ) → j < length (dump_field f) → buff (x + j) ≡ get_or (dump_field f) j 0)

abbrev rest_nodes : (ℕ → ℕ) → ℕ → Field → List Field → List ℕ
rest_nodes buff p g fields =
    select (prom_entry_needs_minor buff) (offsets (p + length (dump_field g)) fields)

abbrev RestHolds : (ℕ → ℕ) → ℕ → Field → List Field → Field → Type 0
RestHolds buff p g fields f =
    (k : ℕ)
    → get_elem? (select has_node fields) k ≡ some f
    → Holds buff (p + length (dump_field g)) fields k f (rest_nodes buff p g fields)

-- The `k`-th entry with a minor number is the `k`-th field with a device file.
pub node-Holds :
    (buff : ℕ → ℕ) (p : ℕ) (fields : List Field) (rest : List ℕ) (k : ℕ) (f : Field)
    → All IsEntry fields
    → Reads buff p (dump_fields fields ++ rest)
    → get_elem? (select has_node fields) k ≡ some f
    → Holds buff p fields k f (select (prom_entry_needs_minor buff) (offsets p fields))
node-Holds buff p [] rest k f v h e = cc
node-Holds buff p (g ∷ fields) rest k f v h e =
    let rest_holds : RestHolds buff p g fields f = λ k e.
      node-Holds buff (p + length (dump_field g)) fields rest k f v.1
        (Reads-rest buff p g fields rest h) e in
    elim (Bool-cases (has_node g)) [
      | inl has ↦ rw (needs ∙ has) (chosen rest_holds k (rw has at e))
      | inr hasnt ↦ rw (needs ∙ hasnt) (later rest_holds k (rw hasnt at e))
    ]
  where
    needs : prom_entry_needs_minor buff p ≡ has_node g
    needs = first_needs buff p g fields rest v.0 h

    later :
        RestHolds buff p g fields f
        → (k : ℕ) → get_elem? (select has_node fields) k ≡ some f
        → Holds buff p (g ∷ fields) k f (rest_nodes buff p g fields)
    later ih k e =
        let (x, at, within, bytes) = ih k e in
        (x, at, omega (arith, within, length-append (dump_field g) (dump_fields fields)), bytes)

    chosen :
        RestHolds buff p g fields f
        → (k : ℕ) → get_elem? (g ∷ select has_node fields) k ≡ some f
        → Holds buff p (g ∷ fields) k f (p ∷ rest_nodes buff p g fields)
    chosen ih zero e =
        subst (λ z. Holds buff p (g ∷ fields) 0 z (p ∷ rest_nodes buff p g fields))
          (some-injective g f e) (offsets-holds buff p (g ∷ fields) rest 0 g h refl)
    chosen ih (suc k) e = later ih k e

-- Buffers that agree on a chain have the same entries with a minor number.
pub needs-agree :
    (f g : ℕ → ℕ) (xs : List ℕ) (p e : ℕ)
    → ((j : ℕ) → j ≤ e → f j ≡ g j)
    → Chain f xs p e
    → select (prom_entry_needs_minor f) xs ≡ select (prom_entry_needs_minor g) xs
needs-agree f g [] p e h c = refl
needs-agree f g (x ∷ xs) p e h c =
    let within = Chain-length f xs (p + (f (p + 1) + 2)) e c.2 in
    let rest = needs-agree f g xs (p + (f (p + 1) + 2)) e h c.2 in
    let same : f x ≡ g x = h x (omega (arith, within, c.0)) in
    ap₂
      (λ t ys.
        if (t == prom_device_tag || t == prom_dma_tag || t == prom_dma_ext_tag) then x ∷ ys else ys)
      same rest
