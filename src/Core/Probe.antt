-- ===== src/Core/Probe.antt =====
-- `amc_pci_probe` and `amc_pci_remove` of driver/amc_pci_core.c, and the setup of the module.
use amc_pci_dev.Prelude.{ℕ, ◌*◌, Bool, if◌then◌else◌, List, Result, ok, err, enomem}
use amc_pci_dev.Prelude.Op.{Op, pure, on_error, ◌>>=◌, ◌>>◌}
use amc_pci_dev.Prom.{PromContext}
use amc_pci_dev.Dma.{Dma, Transfer}
use amc_pci_dev.Interrupts.{Intc}
use amc_pci_dev.Resources.{
  Resource, Held, acquire, release, amc_state, prom_used_file, prom_file, chrdev_region,
  device_class, pci_driver,
}
use amc_pci_dev.Core.Numbers.{get_free_board, release_board}
use amc_pci_dev.Core.Board.{
  Board, BoardAnswers, Parts, enable_board, disable_board, initialise_board, terminate_board,
  max_minors_per_board,
}
use amc_pci_dev.Core.Nodes.{Node, Nodes, create_device_nodes, destroy_device_nodes}

-- What the driver has of all boards: `device_boards`, the device nodes and what it holds, and of
-- the board at hand the DMA controller and the writes to the interrupt controller.
pub record Driver : Type 0 where
  pub boards : ℕ → Bool
  pub nodes : List Node
  pub held : Held
  pub card : Dma
  pub writes : List (Intc × ℕ)

abbrev with_held : {A : Type 0} → Result A × Held → Driver → Result A × Driver
with_held (r, held) s = (r, record s { held = held })

abbrev pub hold : {A : Type 0} → Op Held A → Op Driver A
hold m s = with_held (m s.held) s

abbrev pub drop : Resource → Driver → Driver
drop r s = record s { held = release r s.held }

abbrev pub with_board : Board → Driver → Driver
with_board b s = record s { card = b.card; writes = b.writes; held = b.held }

abbrev pub board_of : Driver → Board
board_of s = record { card = s.card; writes = s.writes; held = s.held }

abbrev board_done : {A : Type 0} → Result A × Board → Driver → Result A × Driver
board_done (r, b) s = (r, with_board b s)

abbrev pub on_board : {A : Type 0} → Op Board A → Op Driver A
on_board m s = board_done (m (board_of s)) s

abbrev pub with_nodes : Nodes → Driver → Driver
with_nodes n s = record s { nodes = n.nodes; held = n.held }

abbrev pub nodes_of : Driver → Nodes
nodes_of s = record { nodes = s.nodes; held = s.held }

abbrev nodes_done : {A : Type 0} → Result A × Nodes → Driver → Result A × Driver
nodes_done (r, n) s = (r, with_nodes n s)

abbrev pub on_nodes : {A : Type 0} → Op Nodes A → Op Driver A
on_nodes m s = nodes_done (m (nodes_of s)) s

abbrev board_taken : Result ℕ × (ℕ → Bool) → Driver → Result ℕ × Driver
board_taken (r, boards) s = (r, record s { boards = boards })

abbrev pub take_board : Op Driver ℕ
take_board s = board_taken (get_free_board s.boards) s

abbrev pub give_board : ℕ → Driver → Driver
give_board board s = record s { boards = release_board board s.boards }

-- What the kernel answers, beside what the setup of the board asks.
pub record ProbeAnswers : Type 0 where
  pub allocated : Bool
  pub enabled : Result (Unit {0})
  pub requested : Result (Unit {0})
  pub msi_enabled : Result (Unit {0})
  pub board : BoardAnswers
  pub node_created : ℕ → Bool
  pub cdev_added : Result (Unit {0})
  pub used_created : Result (Unit {0})
  pub prom_created : Result (Unit {0})

abbrev pub alloc : Bool → Result (Unit {0})
alloc b = if b then ok tt else err enomem

abbrev pub terminated : PromContext → Driver → Driver
terminated prom s = with_board (terminate_board prom (board_of s)) s

abbrev pub disabled : Driver → Driver
disabled s = with_board (disable_board (board_of s)) s

-- `board * MAX_MINORS_PER_BOARD`
abbrev pub minor_of : ℕ → ℕ
minor_of board = board * max_minors_per_board

module _ (default_prom : List ℕ) (beyond ioread32 : ℕ → ℕ) (engine : Transfer → (ℕ → ℕ) → ℕ → ℕ)
    (block_shift : ℕ) (a : ProbeAnswers) where
  -- From the labels `sysfs_error` and `no_cdev` back to the top: each is what follows a failure of
  -- what stands under it.
  abbrev pub create_files : ℕ → Parts → Op Driver Parts
  create_files board parts =
      on_error
        (do
          on_nodes
              (create_device_nodes parts.prom (minor_of board) board a.node_created a.cdev_added)
          hold (acquire prom_used_file a.used_created)
          hold (acquire prom_file a.prom_created)
          pure parts)
        (terminated parts.prom)

  abbrev pub start_board : ℕ → Op Driver Parts
  start_board board =
      on_error
        (do
          parts ←
              on_board (initialise_board default_prom beyond ioread32 engine block_shift a.board)
          create_files board parts)
        disabled

  abbrev pub use_device : ℕ → Op Driver Parts
  use_device board =
      on_error (do on_board (enable_board a.enabled a.requested a.msi_enabled); start_board board)
        (drop amc_state)

  abbrev pub use_board : ℕ → Op Driver Parts
  use_board board =
      on_error (do hold (acquire amc_state (alloc a.allocated)); use_device board)
        (give_board board)

  -- The number of the board, and what was set up of it.
  unfoldable pub amc_pci_probe : Op Driver (ℕ × Parts)
  amc_pci_probe = do board ← take_board; parts ← use_board board; pure (board, parts)

-- The removal around its wait for the last user, in the source's order.
unfoldable pub amc_pci_remove : ℕ → PromContext → Driver → Driver
amc_pci_remove board prom s =
    let unlisted = with_nodes (destroy_device_nodes prom (minor_of board) (nodes_of s)) s in
    let off = disabled (terminated prom unlisted) in
    drop amc_state (drop prom_file (drop prom_used_file (give_board board off)))

-- What the calls of `amc_pci_init` return.
unfoldable pub amc_pci_init :
    Result (Unit {0}) → Result (Unit {0}) → Result (Unit {0}) → Op Held (Unit {0})
amc_pci_init region class registered = do
  acquire chrdev_region region
  on_error
      (do
        acquire device_class class
        on_error (acquire pci_driver registered) (release device_class))
      (release chrdev_region)

abbrev pub amc_pci_exit : Held → Held
amc_pci_exit held = release chrdev_region (release device_class (release pci_driver held))
