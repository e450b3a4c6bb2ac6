-- ===== src/Core/FilesLadder.antt =====
-- What `amc_pci_probe` of driver/amc_pci_core.c leaves behind, from the creation of its device
-- nodes on.
use amc_pci_dev.Prelude.{
  ℕ, ◌+◌, ◌≡◌, ap, ◌∙◌, arith, true, List, ◌∷◌, get_or, Result, ok, err, Errno, Result-cases, inl,
  inr, ◌⊎◌,
}
use amc_pci_dev.Utils.Total.{IsBytes}
use amc_pci_dev.Prom.{PromContext}
use amc_pci_dev.Prom.Load.{load_prom}
use amc_pci_dev.Dma.{Dma, Transfer}
use amc_pci_dev.Resources.{
  Held, bar2, prom_data, interrupt_state, irq_line, cdev, prom_used_file, prom_file,
}
use amc_pci_dev.Core.Board.{Board, Parts, terminate_board, uses_dma, prom_offset}
use amc_pci_dev.Core.PartsLadder.{dma_held, DmaFails}
use amc_pci_dev.Core.Nodes.{Node, Nodes, create_device_nodes}
use amc_pci_dev.Core.NodeLaws.{AreNodes, create_device_nodes_lem}
use amc_pci_dev.Core.Probe.{Driver, ProbeAnswers, create_files, minor_of, nodes_of, board_of}

-- The resources of a board that was set up, as `initialise_board` puts them down.
abbrev pub board_held : PromContext → Held → Held
board_held prom held = irq_line ∷ interrupt_state ∷ dma_held prom (prom_data ∷ bar2 ∷ held)

terminated-plain :
    (prom : PromContext) (s : Board) (held : Held)
    → s.held ≡ board_held prom held
    → (terminate_board prom s).held ≡ held
terminated-plain prom s held at = ground (arith, at)

terminated-cdev :
    (prom : PromContext) (s : Board) (held : Held)
    → s.held ≡ cdev ∷ board_held prom held
    → (terminate_board prom s).held ≡ cdev ∷ held
terminated-cdev prom s held at = ground (arith, at)

terminated-used :
    (prom : PromContext) (s : Board) (held : Held)
    → s.held ≡ prom_used_file ∷ cdev ∷ board_held prom held
    → (terminate_board prom s).held ≡ prom_used_file ∷ cdev ∷ held
terminated-used prom s held at = ground (arith, at)

pub terminated-files :
    (prom : PromContext) (s : Board) (held : Held)
    → s.held ≡ prom_file ∷ prom_used_file ∷ board_held prom held
    → (terminate_board prom s).held ≡ prom_file ∷ prom_used_file ∷ held
terminated-files prom s held at = ground (arith, at)

module _ (default_prom : List ℕ) (beyond ioread32 : ℕ → ℕ) (engine : Transfer → (ℕ → ℕ) → ℕ → ℕ)
    (block_shift : ℕ) (a : ProbeAnswers) (db : IsBytes (λ j. get_or default_prom j 0))
    (bb : IsBytes beyond) where
  -- What a failed probe leaves held.
  abbrev pub Leftover : Held → Held → Type 0
  Leftover held after =
      (after ≡ held)
      ⊎ (((m : ℕ) × (prom : PromContext) × (load_prom default_prom beyond ioread32
                a.board.prom_allocated (m + prom_offset)
              ≡ ok prom)
            × (uses_dma prom ≡ true)
            × ((card : Dma) × (below : Held) × (e : Errno) × DmaFails engine block_shift a.board
                  prom card below e)
            × (after ≡ prom_data ∷ held))
          ⊎ (((e : Errno) × (a.used_created ≡ err e) × (after ≡ cdev ∷ held))
              ⊎ ((e : Errno) × (a.prom_created ≡ err e) × (after ≡ prom_used_file ∷ cdev ∷ held))))

  abbrev pub files_done : ℕ → Parts → Driver → Result Parts × Driver
  files_done board parts s =
      create_files default_prom beyond ioread32 engine block_shift a board parts s

  abbrev created : ℕ → Parts → Driver → Result (Unit {0}) × Nodes
  created board parts s =
      create_device_nodes parts.prom (minor_of board) board a.node_created a.cdev_added (nodes_of s)

  pub create_files_lem :
      (base : ℕ) (board : ℕ) (parts : Parts) (s : Driver) (held : Held)
      → load_prom default_prom beyond ioread32 true base ≡ ok parts.prom
      → s.held ≡ board_held parts.prom held
      → ((e : Errno)
          → (files_done board parts s).0 ≡ err e
          → ((files_done board parts s).1.boards ≡ s.boards)
            × (((files_done board parts s).1.held ≡ held)
                ⊎ (((e : Errno) × (a.used_created ≡ err e)
                      × ((files_done board parts s).1.held ≡ cdev ∷ held))
                    ⊎ ((e : Errno) × (a.prom_created ≡ err e)
                        × ((files_done board parts s).1.held ≡ prom_used_file ∷ cdev ∷ held)))))
        × ((p : Parts)
            → (files_done board parts s).0 ≡ ok p
            → (p ≡ parts)
              × ((created board parts s).0 ≡ ok tt)
              × ((files_done board parts s).1 ≡ record s {
                nodes = (created board parts s).1.nodes;
                held = prom_file ∷ prom_used_file ∷ cdev ∷ board_held parts.prom held;
              }))
  create_files_lem base board parts s held loaded at =
      elim (Result-cases ((created board parts s).0)) [
        | inr (x, bad) ↦ (
          (λ e h. (
            ground (arith, bad),
            inl (
                ground (arith, bad)
                ∙ terminated-plain parts.prom
                    (board_of (record s { held = (created board parts s).1.held })) held
                    (facts.0 x bad ∙ at)),
          )),
          (λ p h. absurd (ground (arith, h, bad))),
        )
        | inl (u, good) ↦
            let now : (created board parts s).1.held ≡ cdev ∷ board_held parts.prom held =
              (let (cr, d, v) = facts.1 good in v.held ∙ ap (λ z. cdev ∷ z) at) in
            elim (Result-cases a.used_created) [
              | inr (x, bad) ↦ (
                (λ e h. (
                  ground (arith, good, bad),
                  inr (
                      inl (
                        x,
                        bad,
                        ground (arith, good, bad)
                            ∙ terminated-cdev parts.prom
                                (board_of (record s { held = (created board parts s).1.held })) held
                                now,
                      )),
                )),
                (λ p h. absurd (ground (arith, h, good, bad))),
              )
              | inl (v, used) ↦ elim (Result-cases a.prom_created) [
                | inr (x, bad) ↦ (
                  (λ e h. (
                    ground (arith, good, used, bad),
                    inr (
                        inr (
                          x,
                          bad,
                          ground (arith, good, used, bad)
                              ∙ terminated-used parts.prom
                                  (board_of (record s {
                                    held = prom_used_file ∷ (created board parts s).1.held;
                                  }))
                                  held (ap (λ z. prom_used_file ∷ z) now),
                        )),
                  )),
                  (λ p h. absurd (ground (arith, h, good, used, bad))),
                )
                | inl (w, file) ↦ (
                  (λ e h. absurd (ground (arith, h, good, used, file))),
                  (λ p h. (
                    ground (arith, h, good, used, file),
                    good,
                    ground (arith, good, used, file)
                        ∙ ap
                            (λ z. record s {
                              nodes = (created board parts s).1.nodes;
                              held = prom_file ∷ prom_used_file ∷ z;
                            })
                            now,
                  )),
                )
              ]
            ]
      ]
    where
      facts :
          ((e : Errno)
            → (created board parts s).0 ≡ err e
            → (created board parts s).1.held ≡ s.held)
          × ((created board parts s).0 ≡ ok tt
              → (cr : List Node) × (d : ℕ) × AreNodes a.node_created parts.prom
                  (minor_of board)
                  board
                  (nodes_of s)
                  (created board parts s).1
                  cr
                  d)
      facts =
          let f =
            create_device_nodes_lem default_prom beyond ioread32 base parts.prom db bb loaded
              (minor_of board) board a.node_created a.cdev_added (nodes_of s) in
          (f.0, f.1)
