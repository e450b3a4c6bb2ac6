-- ===== src/Core/NodesLeft.antt =====
-- Which device nodes `amc_pci_probe` of driver/amc_pci_core.c leaves behind: no path of it
-- destroys one.
use amc_pci_dev.Prelude.{
  ℕ, ◌+◌, ◌≡◌, sym, ◌∙◌, arith, subst, List, ◌∷◌, Result, ok, Bool-cases, Result-cases, inl, inr,
  ◌⊎◌,
}
use amc_pci_dev.Prom.{PromContext}
use amc_pci_dev.Prom.Load.{load_prom}
use amc_pci_dev.Dma.{Transfer}
use amc_pci_dev.Resources.{Held, amc_state}
use amc_pci_dev.Core.Board.{Board, Parts, enable_board, initialise_board, prom_offset}
use amc_pci_dev.Core.BoardLadder.{initialise_board-ok}
use amc_pci_dev.Core.Nodes.{Node, create_device_nodes}
use amc_pci_dev.Core.Probe.{
  Driver, ProbeAnswers, create_files, start_board, use_board, with_board, minor_of, nodes_of,
  board_of,
}

module _ (default_prom : List ℕ) (beyond ioread32 : ℕ → ℕ) (engine : Transfer → (ℕ → ℕ) → ℕ → ℕ)
    (block_shift : ℕ) (a : ProbeAnswers) where
  -- The nodes of the class behind the creation of the nodes of this board.
  abbrev pub created_nodes : PromContext → ℕ → List Node → Held → List Node
  created_nodes prom board nodes held =
      (create_device_nodes prom (minor_of board) board a.node_created a.cdev_added
        (record { nodes = nodes; held = held })).1.nodes

  -- The nodes are as before, or those of an accepted image were created and all of them are still
  -- there.
  abbrev pub NodesLeft : ℕ → List Node → List Node → Type 0
  NodesLeft board nodes after =
      (after ≡ nodes)
      ⊎ ((m : ℕ) × (prom : PromContext) × (held : Held) × (load_prom default_prom beyond ioread32
              a.board.prom_allocated (m + prom_offset)
            ≡ ok prom)
          × (after ≡ created_nodes prom board nodes held))

  abbrev files_done : ℕ → Parts → Driver → Result Parts × Driver
  files_done board parts s =
      create_files default_prom beyond ioread32 engine block_shift a board parts s

  create_files-nodes :
      (board : ℕ) (parts : Parts) (s : Driver)
      → (files_done board parts s).1.nodes ≡ created_nodes parts.prom board s.nodes s.held
  create_files-nodes board parts s = elim (Result-cases created) [
    | inr (x, bad) ↦ ground (arith, bad)
    | inl (u, good) ↦ elim (Result-cases a.used_created) [
      | inr (x, bad) ↦ ground (arith, good, bad)
      | inl (v, used) ↦ elim (Result-cases a.prom_created) [
        | inr (x, bad) ↦ ground (arith, good, used, bad)
        | inl (w, file) ↦ ground (arith, good, used, file)
      ]
    ]
  ]
    where
      created : Result (Unit {0})
      created =
          (create_device_nodes parts.prom (minor_of board) board a.node_created a.cdev_added
            (nodes_of s)).0

  abbrev started : ℕ → Driver → Result Parts × Driver
  started board s = start_board default_prom beyond ioread32 engine block_shift a board s

  start_board-NodesLeft :
      (board : ℕ) (s : Driver) → NodesLeft board s.nodes (started board s).1.nodes
  start_board-NodesLeft board s = elim (Result-cases up.0) [
    | inr (x, bad) ↦ inl (ground (arith, bad))
    | inl (parts, good) ↦
        let ((m, loaded), now) =
          initialise_board-ok default_prom beyond ioread32 engine block_shift a.board (board_of s)
            parts good in
        let t : Driver = with_board up.1 s in
        let kept : (started board s).1.nodes ≡ (files_done board parts t).1.nodes =
          elim (Result-cases (files_done board parts t).0) [
            | inl (p, fine) ↦ rw good (ground (arith, fine))
            | inr (x, bad) ↦ rw good (ground (arith, bad))
          ] in
        inr (m, parts.prom, t.held, loaded, kept ∙ create_files-nodes board parts t)
  ]
    where
      up : Result Parts × Board
      up = initialise_board default_prom beyond ioread32 engine block_shift a.board (board_of s)

  abbrev used : ℕ → Driver → Result Parts × Driver
  used board s = use_board default_prom beyond ioread32 engine block_shift a board s

  pub use_board-NodesLeft :
      (board : ℕ) (s : Driver) → NodesLeft board s.nodes (used board s).1.nodes
  use_board-NodesLeft board s = elim (Bool-cases a.allocated) [
    | inr none ↦ inl (ground (arith, none))
    | inl allocated ↦ elim (Result-cases enabling.0) [
      | inr (x, bad) ↦ inl (ground (arith, allocated, bad))
      | inl (u, good) ↦
          let t : Driver = with_board enabling.1 with_state in
          let kept : (used board s).1.nodes ≡ (started board t).1.nodes =
            elim (Result-cases (started board t).0) [
              | inl (p, fine) ↦ rw (allocated, good) (ground (arith, fine))
              | inr (x, bad) ↦ rw (allocated, good) (ground (arith, bad))
            ] in
          subst (NodesLeft board s.nodes) (sym kept) (start_board-NodesLeft board t)
    ]
  ]
    where
      with_state : Driver
      with_state = record s { held = amc_state ∷ s.held }

      enabling : Result (Unit {0}) × Board
      enabling = enable_board a.enabled a.requested a.msi_enabled (board_of with_state)
