-- ===== src/Core/Nodes.antt =====
-- `create_device_nodes` and `destroy_device_nodes` of driver/amc_pci_core.c. A device node is its
-- minor number and its name, a list of bytes.
use amc_pci_dev.Prelude.{
  ℕ, zero, suc, ◌+◌, ◌/◌, ◌%◌, Bool, true, false, ◌||◌, ltb, leb, ◌==◌, if◌then◌else◌, Option, none,
  some, List, [], ◌∷◌, ◌++◌, select, Result, ok, err, einval,
}
use amc_pci_dev.Prelude.Op.{Op, require, on_error, ◌>>◌}
use amc_pci_dev.Prom.{PromContext, tag_at, prom_device_tag, prom_dma_tag, prom_dma_ext_tag}
use amc_pci_dev.Prom.Entries.{
  Flow, next, return, prom_for_each_entry, prom_first_entry, max_entries,
}
use amc_pci_dev.Resources.{Held, acquire, release, cdev}

pub record Node : Type 0 where
  pub minor : ℕ
  pub name : List ℕ

-- The characters up to a NUL, as `%s` prints them. The end marker of an image is one, so that the
-- fuel, the size of the buffer, is enough.
pub c_string : ℕ → (ℕ → ℕ) → ℕ → List ℕ
c_string zero buff p = []
c_string (suc fuel) buff p = elim (buff p == 0) [
  | true ↦ []
  | false ↦ buff p ∷ c_string fuel buff (p + 1)
]

abbrev pub string_at : (ℕ → ℕ) → ℕ → List ℕ
string_at buff p = c_string 4096 buff p

-- `%d`, with fuel for the digits.
pub decimal : ℕ → ℕ → List ℕ
decimal zero n = []
decimal (suc fuel) n =
    let rest = decimal fuel (n / 10) in
    if ltb n 10 then (b'0' + n) ∷ [] else rest ++ (b'0' + n % 10) ∷ []

-- "%s.%d.", of the name of the device and the board.
abbrev pub prefix : (ℕ → ℕ) → ℕ → ℕ → List ℕ
prefix buff board device_name = string_at buff device_name ++ b'.' ∷ decimal 10 board ++ b'.' ∷ []

-- Where the names stand in the packed structures.
abbrev pub device_name_of : ℕ → ℕ
device_name_of entry = entry + 2

abbrev pub dma_name_of : ℕ → ℕ
dma_name_of entry = entry + 13

abbrev pub dma_ext_name_of : ℕ → ℕ
dma_ext_name_of entry = entry + 19

-- The variables of the loop; `device_name` is the address of a string in the buffer.
pub record NodeLoop : Type 0 where
  pub minor_off : ℕ
  pub device_name : Option ℕ
  pub nodes : List Node

-- The node, where the kernel makes it: `creates` says for which minor numbers it does.
abbrev pub nodes_made : (ℕ → Bool) → List Node → List Node
nodes_made creates nodes = select (λ node. creates node.minor) nodes

-- `device_create`, whose result the driver does not look at, and `minor_off++`.
abbrev pub device_create : (ℕ → Bool) → ℕ → List ℕ → NodeLoop → NodeLoop
device_create creates minor name s = record s {
  minor_off = s.minor_off + 1;
  nodes = s.nodes ++ nodes_made creates (record { minor = minor + s.minor_off; name = name } ∷ []);
}

-- The node of a DMA area, which needs a device entry before it.
abbrev pub create_area_node : (ℕ → Bool) → (ℕ → ℕ) → ℕ → ℕ → ℕ → NodeLoop → Flow NodeLoop NodeLoop
create_area_node creates buff minor board area_name s = elim s.device_name [
  | none ↦ return s
  | some name ↦
      next (device_create creates minor (prefix buff board name ++ string_at buff area_name) s)
]

-- The body of the loop; `return` is the jump to `prom_error`.
abbrev pub create_node : (ℕ → Bool) → (ℕ → ℕ) → ℕ → ℕ → NodeLoop → ℕ → Flow NodeLoop NodeLoop
create_node creates buff minor board s pentry =
    let tag = tag_at buff pentry in
    if tag == prom_device_tag
    then (elim s.device_name [
      | some name ↦ return s
      | none ↦
          let name = device_name_of pentry in
          next (
            device_create creates minor (prefix buff board name ++ b'r' ∷ b'e' ∷ b'g' ∷ [])
              (record s { device_name = some name }))
    ])
    else (if tag == prom_dma_tag
        then create_area_node creates buff minor board (dma_name_of pentry) s
        else (if tag == prom_dma_ext_tag
            then create_area_node creates buff minor board (dma_ext_name_of pentry) s
            else next s))

-- The device nodes of the class, and what the driver holds.
pub record Nodes : Type 0 where
  pub nodes : List Node
  pub held : Held

abbrev with_held : {A : Type 0} → Result A × Held → Nodes → Result A × Nodes
with_held (r, held) s = (r, record s { held = held })

abbrev pub hold : {A : Type 0} → Op Held A → Op Nodes A
hold m s = with_held (m s.held) s

abbrev pub drop_cdev : Nodes → Nodes
drop_cdev s = record s { held = release cdev s.held }

abbrev pub nodes_created : Flow NodeLoop NodeLoop → Op Nodes (Unit {0})
nodes_created (next t) s = (ok tt, record s { nodes = t.nodes })
nodes_created (return t) s = (err einval, record s { nodes = t.nodes })

-- The loop over the entries.
unfoldable pub node_loop : (ℕ → Bool) → PromContext → ℕ → ℕ → List Node → Flow NodeLoop NodeLoop
node_loop creates prom minor board nodes =
    prom_for_each_entry max_entries prom.buff (create_node creates prom.buff minor board)
      (prom_first_entry prom) (record { minor_off = 0; device_name = none; nodes = nodes })

abbrev pub create_nodes : (ℕ → Bool) → PromContext → ℕ → ℕ → Op Nodes (Unit {0})
create_nodes creates prom minor board s =
    nodes_created (node_loop creates prom minor board s.nodes) s

-- `creates` says for which minor numbers `device_create` makes a node, and `added` is what
-- `cdev_add` returns. The label `prom_error` deletes the character device, and leaves the nodes.
unfoldable pub create_device_nodes :
    PromContext → ℕ → ℕ → (ℕ → Bool) → Result (Unit {0}) → Op Nodes (Unit {0})
create_device_nodes prom minor board creates added = do
  require (ltb 0 prom.nentries_with_minor) einval
  hold (acquire cdev added)
  on_error (create_nodes creates prom minor board) drop_cdev

-- `device_destroy` for each of `n` minor numbers from `minor` on.
abbrev pub is_kept : ℕ → ℕ → Node → Bool
is_kept minor n node = ltb node.minor minor || leb (minor + n) node.minor

unfoldable pub destroy_device_nodes : PromContext → ℕ → Nodes → Nodes
destroy_device_nodes prom minor s =
    drop_cdev (record s { nodes = select (is_kept minor prom.nentries) s.nodes })
