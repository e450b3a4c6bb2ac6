-- ===== src/Core/NodeTrips.antt =====
-- `destroy_device_nodes` of driver/amc_pci_core.c undoes `create_device_nodes`.
use amc_pci_dev.Prelude.{
  ℕ, suc, ◌+◌, ◌≡◌, refl, sym, ap, ap₂, ◌∙◌, arith, Bool, true, false, some, List, [], ◌∷◌, ◌++◌,
  All, get_elem?, get_or, select, Result, ok, Bool-cases, Option-cases, inl, inr, dec_lt,
}
use mathlib.Core.List.{append-nil}
use mathlib.Core.Option
use mathlib.Core.Option.{some-injective}
use amc_pci_dev.Prom.Minors.{
  MinorsNamed, MinorsOrdered, MinorsBounded, CountsOrdered, prom_minors_lem,
}
use amc_pci_dev.Core.NodeNames.{node_name}
use amc_pci_dev.Utils.Total.{IsBytes}
use amc_pci_dev.Prom.{PromContext}
use amc_pci_dev.Prom.Entries.{prom_find_entry_with_minor}
use amc_pci_dev.Prom.Load.{load_prom}
use amc_pci_dev.Resources.{release, cdev}
use amc_pci_dev.Core.Nodes.{
  Node, Nodes, nodes_made, create_device_nodes, destroy_device_nodes, is_kept, device_name_of,
}
use amc_pci_dev.Core.NodeLaws.{AreNodes, create_device_nodes_lem}

select-append :
    {A : Type 0} (p : A → Bool) (xs ys : List A) → select p (xs ++ ys) ≡ select p xs ++ select p ys
select-append p [] ys = refl
select-append p (x ∷ xs) ys = ground (arith, select-append p xs ys)

select-All : {A : Type 0} (p : A → Bool) (xs : List A) → All (λ x. p x ≡ true) xs → select p xs ≡ xs
select-All p [] h = refl
select-All p (x ∷ xs) h = ground (arith, select-All p xs h.1, h.0)

-- Where no element is chosen by `p`, none that `q` chooses is.
select_none :
    {A : Type 0} (p q : A → Bool) (xs : List A)
    → ((i : ℕ) (x : A) → get_elem? xs i ≡ some x → p x ≡ false)
    → select p (select q xs) ≡ []
select_none p q [] h = refl
select_none p q (x ∷ xs) h =
    let rest = select_none p q xs (λ i y e. h (suc i) y e) in
    elim (Bool-cases (q x)) [
      | inl chosen ↦ rw chosen (ground (arith, h 0 x refl, rest))
      | inr dropped ↦ rw dropped rest
    ]

-- What was created has a minor number of the board.
created-mine :
    (creates : ℕ → Bool) (c : PromContext) (minor board : ℕ) (s t : Nodes) (created : List Node)
    (device : ℕ)
    → AreNodes creates c minor board s t created device
    → MinorsNamed c × MinorsOrdered c × MinorsBounded c × CountsOrdered c
    → (i : ℕ) (x : Node) → get_elem? created i ≡ some x
    → is_kept minor c.nentries x ≡ false
created-mine creates c minor board s t created device v m i x e =
    elim (Option-cases (prom_find_entry_with_minor c i)) [
      | inl absent ↦ absurd (ground (arith, e, v.named i, absent))
      | inr (entry, found) ↦ elim (dec_lt i c.nentries_with_minor) [
        | yes below ↦
            let named = ap Node.minor (
              some-injective _ x (
                ap
                  (Option.map (λ y. record {
                    minor = minor + i;
                    name = node_name c.buff board (device_name_of device) y;
                  }))
                  (sym found)
                ∙ sym (v.named i)
                ∙ e)) in
            ground (arith, named, below, m.3)
        | no above ↦ absurd (ground (arith, found, m.2 i (omega arith)))
      ]
    ]

-- Take an image that `load_prom` accepted, with a default image and memory behind the buffer that
-- hold bytes, and a state in which no device node has one of the minor numbers of the board, as
-- many as the image has entries. Where `create_device_nodes` succeeds there,
-- `destroy_device_nodes` brings back exactly this state.
pub destroy_device_nodes-create_device_nodes :
    (default_prom : List ℕ) (beyond ioread32 : ℕ → ℕ) (base : ℕ) (c : PromContext)
    → IsBytes (λ j. get_or default_prom j 0)
    → IsBytes beyond
    → load_prom default_prom beyond ioread32 true base ≡ ok c
    → (minor board : ℕ) (creates : ℕ → Bool) (added : Result (Unit {0})) (s : Nodes)
    → All (λ node. is_kept minor c.nentries node ≡ true) s.nodes
    → (create_device_nodes c minor board creates added s).0 ≡ ok tt
    → destroy_device_nodes c minor (create_device_nodes c minor board creates added s).1 ≡ s
unfolding destroy_device_nodes
destroy_device_nodes-create_device_nodes default_prom beyond ioread32 base c db bb h minor board
      creates added s others fine =
    let (created, device, v) =
      (create_device_nodes_lem default_prom beyond ioread32 base c db bb h minor board creates added
          s).1
        fine in
    let gone =
      select_none (is_kept minor c.nentries) (λ node. creates node.minor) created
        (created-mine creates c minor board s _ created device v
          (prom_minors_lem default_prom beyond ioread32 base c db bb h)) in
    ap₂ (λ ns hs. record { nodes = select (is_kept minor c.nentries) ns; held = release cdev hs })
      v.nodes v.held
    ∙ ap (λ ns. record { nodes = ns; held = s.held })
        (select-append (is_kept minor c.nentries) s.nodes (nodes_made creates created)
          ∙ ap₂ (λ a b. a ++ b) (select-All (is_kept minor c.nentries) s.nodes others) gone
          ∙ append-nil s.nodes)
