-- ===== src/Core/ProbeLadder.antt =====
-- What `amc_pci_probe` of driver/amc_pci_core.c leaves behind, from the setup of the board on.
use amc_pci_dev.Prelude.{
  ℕ, ◌+◌, ◌≡◌, refl, sym, ap, ◌∙◌, arith, true, List, ◌∷◌, get_or, Result, ok, err, Errno,
  Bool-cases, Result-cases, inl, inr, subst,
}
use amc_pci_dev.Utils.Total.{IsBytes}
use amc_pci_dev.Prelude.Op.{cleaned}
use amc_pci_dev.Prom.{PromContext}
use amc_pci_dev.Prom.Load.{load_prom}
use amc_pci_dev.Dma.{Transfer}
use amc_pci_dev.Resources.{
  Held, bar2, prom_data, cdev, prom_used_file, prom_file, enabled_device, regions, bus_master, msi,
}
use amc_pci_dev.Core.Board.{Board, Parts, initialise_board, prom_offset}
use amc_pci_dev.Core.BoardLadder.{initialise_board-ok, initialise_board_lem}
use amc_pci_dev.Prom.Loading.{load_prom_lem}
use amc_pci_dev.Core.Nodes.{Node, Nodes, create_device_nodes}
use amc_pci_dev.Core.Probe.{
  Driver, ProbeAnswers, create_files, start_board, with_board, disabled, minor_of, board_of,
}
use amc_pci_dev.Core.FilesLadder.{board_held, Leftover, create_files_lem}

module _ (default_prom : List ℕ) (beyond ioread32 : ℕ → ℕ) (engine : Transfer → (ℕ → ℕ) → ℕ → ℕ)
    (block_shift : ℕ) (a : ProbeAnswers) (db : IsBytes (λ j. get_or default_prom j 0))
    (bb : IsBytes beyond) where
  abbrev files_done : ℕ → Parts → Driver → Result Parts × Driver
  files_done board parts s =
      create_files default_prom beyond ioread32 engine block_shift a board parts s

  abbrev Left : Held → Held → Type 0
  Left held after = Leftover default_prom beyond ioread32 engine block_shift a db bb held after

  loaded-allocated :
      (m : ℕ) (prom : PromContext)
      → load_prom default_prom beyond ioread32 a.board.prom_allocated (m + prom_offset) ≡ ok prom
      → load_prom default_prom beyond ioread32 true (m + prom_offset) ≡ ok prom
  loaded-allocated m prom h = elim (Bool-cases a.board.prom_allocated) [
    | inl allocated ↦
        subst (λ b. load_prom default_prom beyond ioread32 b (m + prom_offset) ≡ ok prom) allocated
          h
    | inr failed ↦ absurd (
        ground (
          arith,
          (load_prom_lem default_prom beyond ioread32 (m + prom_offset) db bb).0,
          subst (λ b. load_prom default_prom beyond ioread32 b (m + prom_offset) ≡ ok prom) failed
              h,
        ))
  ]

  -- The nodes of the board, created where the board is set up.
  abbrev pub nodes_done : ℕ → Parts → List Node → Held → Result (Unit {0}) × Nodes
  nodes_done board p nodes held =
      create_device_nodes p.prom (minor_of board) board a.node_created a.cdev_added
        (record { nodes = nodes; held = board_held p.prom held })

  -- What a board that is in use has, set up from a state with these nodes and resources.
  pub record IsUp (board : ℕ) (p : Parts) (nodes : List Node) (held : Held) (t : Driver)
      : Type 0 where
    pub base : ℕ
    pub loaded : load_prom default_prom beyond ioread32 true base ≡ ok p.prom
    pub made : (nodes_done board p nodes held).0 ≡ ok tt
    pub with_nodes : t.nodes ≡ (nodes_done board p nodes held).1.nodes
    pub holds : t.held ≡ prom_file ∷ prom_used_file ∷ cdev ∷ board_held p.prom held

  abbrev board_done : ℕ → Driver → Result Parts × Driver
  board_done board s = start_board default_prom beyond ioread32 engine block_shift a board s

  start_board-eq :
      (board : ℕ) (s : Driver) (parts : Parts)
      → (initialise_board default_prom beyond ioread32 engine block_shift a.board (board_of s)).0
        ≡ ok parts
      → board_done board s
        ≡ cleaned
            (files_done board parts (
              with_board
                (initialise_board default_prom beyond ioread32 engine block_shift a.board
                  (board_of s)).1
                s))
            disabled
  start_board-eq board s parts good = rw good refl

  pub start_board_lem :
      (board : ℕ) (s : Driver) (held : Held)
      → s.held ≡ msi ∷ bus_master ∷ regions ∷ enabled_device ∷ held
      → ((e : Errno)
          → (board_done board s).0 ≡ err e
          → ((board_done board s).1.boards ≡ s.boards) × Left held (board_done board s).1.held)
        × ((p : Parts)
            → (board_done board s).0 ≡ ok p
            → ((board_done board s).1.boards ≡ s.boards)
              × IsUp board p s.nodes s.held (board_done board s).1)
  start_board_lem board s held at = elim (Result-cases (up.0)) [
    | inr (x, bad) ↦ (
      (λ e h. (
        ground (arith, bad),
        elim ((initialise_board_lem default_prom beyond ioread32 engine block_shift a.board
              (board_of s)).0
            x bad) [
              | inl same ↦ inl (ground (arith, bad, same, at))
              | inr (m, prom, mapped, loaded, used, fails, leak) ↦ inr (
                  inl (
                    m,
                    prom,
                    loaded,
                    used,
                    (s.card, prom_data ∷ bar2 ∷ s.held, x, fails),
                    ground (arith, bad, leak, at),
                  ))
            ],
      )),
      (λ p h. absurd (ground (arith, h, bad))),
    )
    | inl (parts, good) ↦
        let ((m, loaded), now) =
          initialise_board-ok default_prom beyond ioread32 engine block_shift a.board (board_of s)
            parts good in
        let loaded : load_prom default_prom beyond ioread32 true (m + prom_offset) ≡ ok parts.prom =
          loaded-allocated m parts.prom loaded in
        let files =
          create_files_lem default_prom beyond ioread32 engine block_shift a db bb (m + prom_offset)
            board parts (with_board up.1 s) s.held loaded now in
        let whole = start_board-eq board s parts good in
        let nodes_eq =
          ap
            (λ (z : Held).
              create_device_nodes parts.prom (minor_of board) board a.node_created a.cdev_added
                (record { nodes = s.nodes; held = z }))
            now in
        elim (Result-cases (files_done board parts (with_board up.1 s)).0) [
          | inr (x, bad) ↦
              let f = files.0 x bad in
              (
                (λ e h. (
                  ground (arith, whole, bad, f.0),
                  elim f.1 [
                    | inl same ↦ inl (ground (arith, whole, bad, same, at))
                    | inr (inl (y, refused, leak)) ↦
                        inr (inr (inl (y, refused, ground (arith, whole, bad, leak, at))))
                    | inr (inr (y, refused, leak)) ↦
                        inr (inr (inr (y, refused, ground (arith, whole, bad, leak, at))))
                  ],
                )),
                (λ p h. absurd (ground (arith, h, whole, bad))),
              )
          | inl (q, fine) ↦
              let f = files.1 q fine in
              (
                (λ e h. absurd (ground (arith, h, whole, fine))),
                (λ p h.
                    let same : parts ≡ p = ground (arith, h, whole, fine, f.0) in
                    (
                      ground (arith, whole, fine, f.2),
                      subst (λ p. IsUp board p s.nodes s.held (board_done board s).1) same
                          (record {
                            base = m + prom_offset;
                            loaded = loaded;
                            made = ap (λ (z : Result (Unit {0}) × Nodes). z.0) (sym nodes_eq) ∙ f.1;
                            with_nodes =
                                ground (arith, whole, fine, f.2)
                                ∙ ap (λ (z : Result (Unit {0}) × Nodes). z.1.nodes) nodes_eq;
                            holds = ground (arith, whole, fine, f.2);
                          }),
                    )),
              )
        ]
  ]
    where
      up : Result Parts × Board
      up = initialise_board default_prom beyond ioread32 engine block_shift a.board (board_of s)
