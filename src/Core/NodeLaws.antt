-- ===== src/Core/NodeLaws.antt =====
-- `create_device_nodes` of driver/amc_pci_core.c against `amc_pci_open`: the node with a minor
-- number has the name of the entry that an open of it finds.
use amc_pci_dev.Prelude.{
  ℕ, zero, suc, ◌+◌, ◌<◌, ◌≡◌, ◌≢◌, refl, sym, ap, ◌∙◌, arith, subst, Bool, true, some, List, [],
  ◌∷◌, ◌++◌, All, length, get_elem?, get_or, Result, ok, err, Errno, inl, inr, ◌⊎◌,
}
use mathlib.Core.Option
use amc_pci_dev.Utils.Total.{IsBytes}
use amc_pci_dev.Prom.{PromContext, tag_at, prom_device_tag}
use amc_pci_dev.Prom.Entries.{Flow, next, return, prom_find_entry_with_minor, max_entries}
use amc_pci_dev.Prom.Chain.{Chain, Chain-length}
use amc_pci_dev.Prom.Load.{load_prom}
use amc_pci_dev.Prom.Loading.{load_prom_lem}
use amc_pci_dev.Prom.Find.{for_each, prom_for_each_entry-Chain, prom_find_entry_with_minor-Chain}
use amc_pci_dev.Resources.{cdev}
use amc_pci_dev.Core.Nodes.{
  Node, NodeLoop, Nodes, nodes_made, create_node, node_loop, create_device_nodes, device_name_of,
}
use amc_pci_dev.Core.NodeNames.{
  node_name, nodes_of, areas, HasDevice, unnamed, for_each-HasDevice, for_each-first,
}

get_elem?-nodes_of :
    (buff : ℕ → ℕ) (board name minor : ℕ) (ys : List ℕ) (i : ℕ)
    → get_elem? (nodes_of buff board name minor ys) i
      ≡ Option.map
          (λ y. record { minor = minor + i; name = node_name buff board name y })
          (get_elem? ys i)
get_elem?-nodes_of buff board name minor [] i = refl
get_elem?-nodes_of buff board name minor (y ∷ ys) zero =
    ap (λ m. some (record { minor = m; name = node_name buff board name y })) (omega arith)
get_elem?-nodes_of buff board name minor (y ∷ ys) (suc i) =
    get_elem?-nodes_of buff board name (minor + 1) ys i
    ∙ ap
        (λ m.
          Option.map (λ y. record { minor = m; name = node_name buff board name y })
            (get_elem? ys i))
        (omega arith)

-- The nodes that the kernel was told to create, of which it made those that it could, and whose
-- they are: node `i` has the `i`-th minor number, and the name that belongs to the entry which an
-- open of this minor number finds.
pub record AreNodes (creates : ℕ → Bool) (c : PromContext) (minor board : ℕ) (s t : Nodes)
    (created : List Node) (device : ℕ) : Type 0 where
  pub nodes : t.nodes ≡ s.nodes ++ nodes_made creates created
  pub held : t.held ≡ cdev ∷ s.held
  pub first : prom_find_entry_with_minor c 0 ≡ some device
  pub is_device : tag_at c.buff device ≡ prom_device_tag
  pub named :
      (i : ℕ)
      → get_elem? created i
        ≡ Option.map
            (λ entry. record {
              minor = minor + i;
              name = node_name c.buff board (device_name_of device) entry;
            })
            (prom_find_entry_with_minor c i)

Flow-cases : {S R : Type 0} (f : Flow S R) → ((t : S) × (f ≡ next t)) ⊎ ((t : R) × (f ≡ return t))
Flow-cases (next t) = inl (t, refl)
Flow-cases (return t) = inr (t, refl)

All-from_get :
    {P : ℕ → Type 0} (ys : List ℕ) → ((i y : ℕ) → get_elem? ys i ≡ some y → P y) → All P ys
All-from_get [] h = tt
All-from_get (y ∷ ys) h = (h 0 y refl, All-from_get ys (λ i z e. h (suc i) z e))

ys-cons : (ys : List ℕ) (d : ℕ) → get_elem? ys 0 ≡ some d → (ds : List ℕ) × (ys ≡ d ∷ ds)
ys-cons [] d h = cc
ys-cons (y ∷ ys) d h = (ys, cc)

module _ (c : PromContext) (xs : List ℕ) (e : ℕ) (chain : Chain c.buff xs 5 e) (short : e < 4096)
    (minor board : ℕ) (creates : ℕ → Bool) where
  node_loop-eq :
      (nodes : List Node)
      → node_loop creates c minor board nodes
        ≡ for_each
            (create_node creates c.buff minor board)
            xs
            (unnamed creates c.buff minor board nodes)
  unfolding node_loop
  node_loop-eq nodes =
      prom_for_each_entry-Chain c.buff (create_node creates c.buff minor board) xs max_entries 5 e
        (unnamed creates c.buff minor board nodes) chain
        (omega (arith, Chain-length c.buff xs 5 e chain))

  abbrev ys : List ℕ
  ys = areas creates c.buff minor board xs

  module _ (counts : c.nentries_with_minor ≡ length ys) (added : Result (Unit {0}))
      (s : Nodes) where
    abbrev done : Result (Unit {0}) × Nodes
    done = create_device_nodes c minor board creates added s

    find-eq : (i : ℕ) → prom_find_entry_with_minor c i ≡ get_elem? ys i
    find-eq i = prom_find_entry_with_minor-Chain c xs e chain short i

    create_device_nodes-held : (x : Errno) → done.0 ≡ err x → done.1.held ≡ s.held
    unfolding create_device_nodes
    create_device_nodes-held x h = ground (arith, h)

    looped :
        (u : Unit {0})
        → done.0 ≡ ok u
        → (t : NodeLoop) × (node_loop creates c minor board s.nodes ≡ next t)
          × (done.1 ≡ record { nodes = t.nodes; held = cdev ∷ s.held })
          × (0 < length ys)
    unfolding create_device_nodes
    looped u h = elim (Flow-cases (node_loop creates c minor board s.nodes)) [
      | inl (t, goes) ↦ (t, goes, ground (arith, h, goes), ground (arith, h, counts))
      | inr (t, stops) ↦ absurd (ground (arith, h, stops))
    ]

    create_device_nodes-AreNodes :
        done.0 ≡ ok tt
        → (created : List Node) × (device : ℕ) × AreNodes creates c minor board s done.1 created
            device
    create_device_nodes-AreNodes h =
        let (t, looping, after, some_node) = looped tt h in
        elim (for_each-first creates c.buff minor board xs s.nodes t
          (sym (node_loop-eq s.nodes) ∙ looping)) [
            | inl nothing ↦ absurd (omega (arith, ap length nothing, some_node))
            | inr (d, ds, has) ↦
                let end =
                  sym looping
                  ∙ node_loop-eq s.nodes
                  ∙ for_each-HasDevice creates c.buff minor board xs s.nodes d ds has in
                (
                  nodes_of c.buff board (device_name_of d) minor ys,
                  d,
                  record {
                    nodes = ap Nodes.nodes after ∙ ground (arith, end);
                    held = ap Nodes.held after;
                    first = find-eq 0 ∙ ap (λ zs. get_elem? zs 0) has.0;
                    is_device = has.1;
                    named = λ i.
                        get_elem?-nodes_of c.buff board (device_name_of d) minor ys i
                        ∙ ap
                            (Option.map (λ y. record {
                              minor = minor + i;
                              name = node_name c.buff board (device_name_of d) y;
                            }))
                            (sym (find-eq i));
                  },
                )
          ]

    create_device_nodes-ok :
        (u : Unit {0}) (d : ℕ)
        → added ≡ ok u
        → prom_find_entry_with_minor c 0 ≡ some d
        → tag_at c.buff d ≡ prom_device_tag
        → ((i y : ℕ)
            → prom_find_entry_with_minor c (suc i) ≡ some y
            → tag_at c.buff y ≢ prom_device_tag)
        → done.0 ≡ ok tt
    unfolding create_device_nodes
    create_device_nodes-ok u d a first is_device others =
        let (ds, split) = ys-cons ys d (sym (find-eq 0) ∙ first) in
        let has : HasDevice creates c.buff minor board ys d ds = (
          split,
          is_device,
          All-from_get ds
              (λ i y g. others i y (find-eq (suc i) ∙ ap (λ zs. get_elem? zs (suc i)) split ∙ g)),
        ) in
        let goes =
          node_loop-eq s.nodes
          ∙ for_each-HasDevice creates c.buff minor board xs s.nodes d ds has in
        ground (arith, a, goes, counts, ap length split)

-- On an image that `load_prom` accepted, with a default image and memory behind the buffer that
-- hold bytes, `create_device_nodes` that fails deletes the character device again. Where it
-- succeeds, the first entry with a minor number is the device, and the nodes that it tells the
-- kernel to create are those of the entries that `amc_pci_open` finds, each under its minor number
-- and with the name of the device, the board and the area; added are those of them for which
-- `device_create` succeeds, whose failure the driver ignores. It does succeed if the character
-- device can be added, the first entry with a minor number is the device, and there is no other
-- device.
pub create_device_nodes_lem :
    (default_prom : List ℕ) (beyond ioread32 : ℕ → ℕ) (base : ℕ) (c : PromContext)
    → IsBytes (λ j. get_or default_prom j 0)
    → IsBytes beyond
    → load_prom default_prom beyond ioread32 true base ≡ ok c
    → (minor board : ℕ) (creates : ℕ → Bool) (added : Result (Unit {0})) (s : Nodes)
    → ((x : Errno)
        → (create_device_nodes c minor board creates added s).0 ≡ err x
        → (create_device_nodes c minor board creates added s).1.held ≡ s.held)
      × ((create_device_nodes c minor board creates added s).0 ≡ ok tt
          → (created : List Node) × (device : ℕ) × AreNodes creates c minor board s
              (create_device_nodes c minor board creates added s).1
              created
              device)
      × ((d : ℕ)
          → added ≡ ok tt
          → prom_find_entry_with_minor c 0 ≡ some d
          → tag_at c.buff d ≡ prom_device_tag
          → ((i y : ℕ)
              → prom_find_entry_with_minor c (suc i) ≡ some y
              → tag_at c.buff y ≢ prom_device_tag)
          → (create_device_nodes c minor board creates added s).0 ≡ ok tt)
create_device_nodes_lem default_prom beyond ioread32 base c db bb h minor board creates added s =
    let (xs, n, v, p) = ((load_prom_lem default_prom beyond ioread32 base db bb).2 c).0 h in
    let chain = subst (λ (x : PromContext). Chain x.buff xs 5 v.end_at) (sym p) v.chain in
    let short : v.end_at < 4096 = omega (arith, v.ends, v.short) in
    let counts : c.nentries_with_minor ≡ length (areas creates c.buff minor board xs) =
      subst
        (λ (x : PromContext). x.nentries_with_minor ≡ length (areas creates x.buff minor board xs))
        (sym p) refl in
    (
      create_device_nodes-held c xs v.end_at chain short minor board creates counts added s,
      create_device_nodes-AreNodes c xs v.end_at chain short minor board creates counts added s,
      create_device_nodes-ok c xs v.end_at chain short minor board creates counts added s tt,
    )
