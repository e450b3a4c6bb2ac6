-- ===== src/Core/NodeNames.antt =====
-- Which device nodes `create_device_nodes` of driver/amc_pci_core.c makes.
use amc_pci_dev.Prelude.{
  ℕ, ◌+◌, ◌≡◌, ◌≢◌, refl, sym, ap, ap₂, ◌∙◌, arith, subst, Bool, true, false, ◌==◌, if◌then◌else◌,
  none, some, List, [], ◌∷◌, ◌++◌, All, length, select, Bool-cases, inl, inr, ◌⊎◌, ℕ_discrete,
}
use mathlib.Core.List.{append_assoc, append-nil}
use amc_pci_dev.Prom.{tag_at, prom_device_tag, prom_dma_tag, prom_entry_needs_minor}
use amc_pci_dev.Prom.Entries.{next, return}
use amc_pci_dev.Prom.Find.{for_each}
use amc_pci_dev.Core.Nodes.{
  Node, NodeLoop, nodes_made, create_node, prefix, string_at, device_name_of, dma_name_of,
  dma_ext_name_of,
}

-- The name of the node of an entry, on a card whose device has its name at `device_name`.
abbrev pub node_name : (ℕ → ℕ) → ℕ → ℕ → ℕ → List ℕ
node_name buff board device_name entry =
    prefix buff board device_name
    ++ (if tag_at buff entry == prom_device_tag
        then b'r' ∷ b'e' ∷ b'g' ∷ []
        else (if tag_at buff entry == prom_dma_tag
            then string_at buff (dma_name_of entry)
            else string_at buff (dma_ext_name_of entry)))

-- The nodes of the entries `ys`, with minor numbers from `minor` on.
abbrev pub nodes_of : (ℕ → ℕ) → ℕ → ℕ → ℕ → List ℕ → List Node
nodes_of buff board device_name minor [] = []
nodes_of buff board device_name minor (y ∷ ys) =
    record { minor = minor; name = node_name buff board device_name y }
    ∷ nodes_of buff board device_name (minor + 1) ys

abbrev pub IsArea : (ℕ → ℕ) → ℕ → Type 0
IsArea buff entry = tag_at buff entry ≢ prom_device_tag

module _ (creates : ℕ → Bool) (buff : ℕ → ℕ) (minor board : ℕ) where
  abbrev pub areas : List ℕ → List ℕ
  areas xs = select (prom_entry_needs_minor buff) xs

  abbrev loop : ℕ → ℕ → List Node → NodeLoop
  loop off name nodes = record { minor_off = off; device_name = some name; nodes = nodes }

  -- What the body does once the device's name is known.
  area_step :
      (x off name : ℕ) (nodes : List Node)
      → IsArea buff x
      → prom_entry_needs_minor buff x ≡ true
      → create_node creates buff minor board (loop off name nodes) x
        ≡ next (
            loop (off + 1) name (
              nodes
              ++ nodes_made creates
                  (record { minor = minor + off; name = node_name buff board name x } ∷ [])))
  area_step x off name nodes area needs = elim (Bool-cases (tag_at buff x == prom_dma_tag)) [
    | inl dma ↦ ground (arith, dma)
    | inr other ↦ ground (arith, other)
  ]

  device_step :
      (x off name : ℕ) (nodes : List Node)
      → tag_at buff x ≡ prom_device_tag
      → create_node creates buff minor board (loop off name nodes) x ≡ return (loop off name nodes)
  device_step x off name nodes e = rw e refl

  other_step :
      (x : ℕ) (s : NodeLoop)
      → prom_entry_needs_minor buff x ≡ false
      → create_node creates buff minor board s x ≡ next s
  other_step x s e = ground (arith, e)

  areas-keep :
      (x : ℕ) (xs : List ℕ) → prom_entry_needs_minor buff x ≡ true → areas (x ∷ xs) ≡ x ∷ areas xs
  areas-keep x xs e = rw e refl

  areas-skip :
      (x : ℕ) (xs : List ℕ) → prom_entry_needs_minor buff x ≡ false → areas (x ∷ xs) ≡ areas xs
  areas-skip x xs e = rw e refl

  -- The node of an entry.
  abbrev node : ℕ → ℕ → ℕ → Node
  node x off name = record { minor = minor + off; name = node_name buff board name x }

  made-cons :
      (x : Node) (xs : List Node)
      → nodes_made creates (x ∷ []) ++ nodes_made creates xs ≡ nodes_made creates (x ∷ xs)
  made-cons x xs = ground arith

  moved :
      (x off name : ℕ) (nodes : List Node) (ys : List ℕ)
      → (nodes ++ nodes_made creates (node x off name ∷ []))
          ++ nodes_made creates (nodes_of buff board name (minor + (off + 1)) ys)
        ≡ nodes
          ++ nodes_made creates (node x off name ∷ nodes_of buff board name (minor + off + 1) ys)
  moved x off name nodes ys =
      append_assoc nodes (nodes_made creates (node x off name ∷ []))
        (nodes_made creates (nodes_of buff board name (minor + (off + 1)) ys))
      ∙ ap (λ zs. nodes ++ zs)
          (ap
              (λ m.
                nodes_made creates (node x off name ∷ [])
                ++ nodes_made creates (nodes_of buff board name m ys))
              (omega arith)
            ∙ made-cons (node x off name) (nodes_of buff board name (minor + off + 1) ys))

  -- All further entries have to be areas.
  for_each-areas :
      (xs : List ℕ) (off name : ℕ) (nodes : List Node)
      → All (IsArea buff) (areas xs)
      → for_each (create_node creates buff minor board) xs (loop off name nodes)
        ≡ next (
            loop
              (off + length (areas xs))
              name
              (nodes ++ nodes_made creates (nodes_of buff board name (minor + off) (areas xs))))
  unfolding for_each
  for_each-areas [] off name nodes h =
      ap next (ap₂ (λ o ns. loop o name ns) (omega arith) (sym (append-nil nodes)))
  for_each-areas (x ∷ xs) off name nodes h = elim (Bool-cases (prom_entry_needs_minor buff x)) [
    | inl needs ↦
        let rest = subst (All (IsArea buff)) (areas-keep x xs needs) h in
        rw (area_step x off name nodes rest.0 needs, for_each, needs)
          (for_each-areas xs (off + 1) name (nodes ++ nodes_made creates (node x off name ∷ []))
              rest.1
            ∙ ap next
                (ap₂ (λ o ns. loop o name ns) (omega arith) (moved x off name nodes (areas xs))))
    | inr other ↦
        rw (other_step x (loop off name nodes) other, for_each, other)
          (for_each-areas xs off name nodes (subst (All (IsArea buff)) (areas-skip x xs other) h))
  ]

  for_each-only_areas :
      (xs : List ℕ) (off name : ℕ) (nodes : List Node) (t : NodeLoop)
      → for_each (create_node creates buff minor board) xs (loop off name nodes) ≡ next t
      → All (IsArea buff) (areas xs)
  unfolding for_each
  for_each-only_areas [] off name nodes t e = tt
  for_each-only_areas (x ∷ xs) off name nodes t e =
      elim (Bool-cases (prom_entry_needs_minor buff x)) [
        | inl needs ↦ elim (ℕ_discrete (tag_at buff x) prom_device_tag) [
          | yes device ↦
              let stops : for_each (create_node creates buff minor board) (x ∷ xs)
                    (loop off name nodes)
                  ≡ return (loop off name nodes) =
                rw (device_step x off name nodes device, for_each) refl in
              absurd (ground (arith, stops, e))
          | no area ↦ subst (All (IsArea buff)) (sym (areas-keep x xs needs)) (
            area,
            for_each-only_areas xs (off + 1) name
                (nodes ++ nodes_made creates (node x off name ∷ [])) t
                (sym (rw (area_step x off name nodes area needs, for_each) refl) ∙ e),
          )
        ]
        | inr other ↦ subst (All (IsArea buff)) (sym (areas-skip x xs other)) (
            for_each-only_areas xs off name nodes t
              (sym (rw (other_step x (loop off name nodes) other, for_each) refl) ∙ e))
      ]

  -- As the loop begins.
  abbrev pub unnamed : List Node → NodeLoop
  unnamed nodes = record { minor_off = 0; device_name = none; nodes = nodes }

  first_step :
      (x : ℕ) (nodes : List Node)
      → tag_at buff x ≡ prom_device_tag
      → create_node creates buff minor board (unnamed nodes) x
        ≡ next (
            loop 1
              (device_name_of x)
              (nodes ++ nodes_made creates (node x 0 (device_name_of x) ∷ [])))
  first_step x nodes e = rw e (ground arith)

  no_name_step :
      (x : ℕ) (nodes : List Node)
      → IsArea buff x
      → prom_entry_needs_minor buff x ≡ true
      → create_node creates buff minor board (unnamed nodes) x ≡ return (unnamed nodes)
  no_name_step x nodes area needs = ground arith

  -- The device comes first, and is the only one.
  abbrev pub HasDevice : List ℕ → ℕ → List ℕ → Type 0
  HasDevice ys d ds = (ys ≡ d ∷ ds) × (tag_at buff d ≡ prom_device_tag) × All (IsArea buff) ds

  first-here :
      (x : ℕ) (xs : List ℕ) (nodes : List Node)
      → prom_entry_needs_minor buff x ≡ true
      → tag_at buff x ≡ prom_device_tag
      → All (IsArea buff) (areas xs)
      → for_each (create_node creates buff minor board) (x ∷ xs) (unnamed nodes)
        ≡ next (
            loop (1 + length (areas xs)) (device_name_of x) (
              nodes
              ++ nodes_made creates
                  (nodes_of buff board (device_name_of x) minor (areas (x ∷ xs)))))
  unfolding for_each
  first-here x xs nodes needs device rest =
      rw (first_step x nodes device, for_each, needs)
        (for_each-areas xs 1 (device_name_of x)
            (nodes ++ nodes_made creates (node x 0 (device_name_of x) ∷ [])) rest
          ∙ ap (λ ns. next (loop (1 + length (areas xs)) (device_name_of x) ns))
              (moved x 0 (device_name_of x) nodes (areas xs)
                ∙ ap
                    (λ m.
                      nodes
                      ++ nodes_made creates (
                          record { minor = m; name = node_name buff board (device_name_of x) x }
                          ∷ nodes_of buff board (device_name_of x) (m + 1) (areas xs)))
                    (omega arith)))

  pub for_each-HasDevice :
      (xs : List ℕ) (nodes : List Node) (d : ℕ) (ds : List ℕ)
      → HasDevice (areas xs) d ds
      → for_each (create_node creates buff minor board) xs (unnamed nodes)
        ≡ next (
            loop (1 + length ds) (device_name_of d) (
              nodes
              ++ nodes_made creates (nodes_of buff board (device_name_of d) minor (areas xs))))
  unfolding for_each
  for_each-HasDevice [] nodes d ds h = cc
  for_each-HasDevice (x ∷ xs) nodes d ds h = elim (Bool-cases (prom_entry_needs_minor buff x)) [
    | inl needs ↦
        let e : x ∷ areas xs ≡ d ∷ ds = sym (areas-keep x xs needs) ∙ h.0 in
        let head : x ≡ d = cc in
        let tail : areas xs ≡ ds = cc in
        first-here x xs nodes needs (ap (tag_at buff) head ∙ h.1)
          (subst (All (IsArea buff)) (sym tail) h.2)
        ∙ ap₂
            (λ d' n. next (
              loop (1 + n) (device_name_of d') (
                nodes
                ++ nodes_made creates
                    (nodes_of buff board (device_name_of d') minor (areas (x ∷ xs))))))
            head (ap length tail)
    | inr other ↦
        rw (other_step x (unnamed nodes) other, for_each, other)
          (for_each-HasDevice xs nodes d ds (sym (areas-skip x xs other) ∙ h.0, h.1, h.2))
  ]

  pub for_each-first :
      (xs : List ℕ) (nodes : List Node) (t : NodeLoop)
      → for_each (create_node creates buff minor board) xs (unnamed nodes) ≡ next t
      → (areas xs ≡ []) ⊎ ((d : ℕ) × (ds : List ℕ) × HasDevice (areas xs) d ds)
  unfolding for_each
  for_each-first [] nodes t e = inl refl
  for_each-first (x ∷ xs) nodes t e = elim (Bool-cases (prom_entry_needs_minor buff x)) [
    | inl needs ↦ elim (ℕ_discrete (tag_at buff x) prom_device_tag) [
      | yes device ↦ inr (
        x,
        areas xs,
        (
          areas-keep x xs needs,
          device,
          for_each-only_areas xs 1 (device_name_of x)
              (nodes ++ nodes_made creates (node x 0 (device_name_of x) ∷ [])) t
              (sym (rw (first_step x nodes device, for_each) refl) ∙ e),
        ),
      )
      | no area ↦
          let stops : for_each (create_node creates buff minor board) (x ∷ xs) (unnamed nodes)
              ≡ return (unnamed nodes) =
            rw (no_name_step x nodes area needs, for_each) refl in
          absurd (ground (arith, stops, e))
    ]
    | inr other ↦
        let rest =
          for_each-first xs nodes t
            (sym (rw (other_step x (unnamed nodes) other, for_each) refl) ∙ e) in
        subst (λ ys. (ys ≡ []) ⊎ ((d : ℕ) × (ds : List ℕ) × HasDevice ys d ds))
          (sym (areas-skip x xs other)) rest
  ]
