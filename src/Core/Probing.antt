-- ===== src/Core/Probing.antt =====
-- `amc_pci_probe` and `amc_pci_init` of driver/amc_pci_core.c, each with what undoes it.
use amc_pci_dev.Prelude.{
  ℕ, ◌≡◌, refl, sym, ap, ◌∙◌, arith, true, List, ◌∷◌, get_or, All, Result, ok, err, Errno,
  Bool-cases, Result-cases, inl, inr, subst,
}
use amc_pci_dev.Utils.Total.{IsBytes}
use amc_pci_dev.Prelude.Op.{cleaned}
use amc_pci_dev.Dma.{Transfer}
use amc_pci_dev.Resources.{Held, amc_state, enabled_device, regions, bus_master, msi}
use amc_pci_dev.Core.Numbers.{
  get_free_board, release_board, get_free_board-IsNumbered, max_boards, IsNumbered,
}
use amc_pci_dev.Core.Board.{Board, Parts, enable_board}
use amc_pci_dev.Core.Nodes.{Node, Nodes, destroy_device_nodes, is_kept}
use amc_pci_dev.Core.NodeTrips.{destroy_device_nodes-create_device_nodes}
use amc_pci_dev.Core.Probe.{
  Driver, ProbeAnswers, start_board, use_board, amc_pci_probe, amc_pci_remove, amc_pci_init,
  amc_pci_exit, with_nodes, drop, give_board, with_board, minor_of, nodes_of, board_of,
}
use amc_pci_dev.Core.NodesLeft.{NodesLeft, use_board-NodesLeft}
use amc_pci_dev.Core.FilesLadder.{Leftover, board_held, terminated-files}
use amc_pci_dev.Core.ProbeLadder.{IsUp, start_board_lem}

-- If the setup of the module fails, on any path, it holds what it held before; if it succeeds,
-- `amc_pci_exit` gives back exactly what it acquired.
pub amc_pci_init_lem :
    (region class registered : Result (Unit {0})) (held : Held)
    → ((e : Errno)
        → (amc_pci_init region class registered held).0 ≡ err e
        → (amc_pci_init region class registered held).1 ≡ held)
      × ((amc_pci_init region class registered held).0 ≡ ok tt
          → amc_pci_exit (amc_pci_init region class registered held).1 ≡ held)
unfolding amc_pci_init
amc_pci_init_lem region class registered held =
    ((λ e h. ground (arith, h)), (λ h. ground (arith, h)))

enable_board-held :
    (enabled requested msi_enabled : Result (Unit {0})) (s : Board)
    → (u : Unit {0}) → (enable_board enabled requested msi_enabled s).0 ≡ ok u
    → (enable_board enabled requested msi_enabled s).1.held
      ≡ msi ∷ bus_master ∷ regions ∷ enabled_device ∷ s.held
unfolding enable_board
enable_board-held enabled requested msi_enabled s u h = ground (arith, h)

enable_board-err :
    (enabled requested msi_enabled : Result (Unit {0})) (s : Board)
    → (x : Errno) → (enable_board enabled requested msi_enabled s).0 ≡ err x
    → (enable_board enabled requested msi_enabled s).1.held ≡ s.held
unfolding enable_board
enable_board-err enabled requested msi_enabled s x h = ground (arith, h)

module _ (default_prom : List ℕ) (beyond ioread32 : ℕ → ℕ) (engine : Transfer → (ℕ → ℕ) → ℕ → ℕ)
    (block_shift : ℕ) (a : ProbeAnswers) (db : IsBytes (λ j. get_or default_prom j 0))
    (bb : IsBytes beyond) where
  abbrev Left : Held → Held → Type 0
  Left held after = Leftover default_prom beyond ioread32 engine block_shift a db bb held after

  abbrev Up : ℕ → Parts → List Node → Held → Driver → Type 0
  Up board p nodes held t =
      IsUp default_prom beyond ioread32 engine block_shift a db bb board p nodes held t

  abbrev enabled_held : Held → Held
  enabled_held held = msi ∷ bus_master ∷ regions ∷ enabled_device ∷ amc_state ∷ held

  abbrev used : ℕ → Driver → Result Parts × Driver
  used board s = use_board default_prom beyond ioread32 engine block_shift a board s

  abbrev started : ℕ → Driver → Result Parts × Driver
  started board s = start_board default_prom beyond ioread32 engine block_shift a board s

  abbrev with_state : Driver → Driver
  with_state s = record s { held = amc_state ∷ s.held }

  abbrev enabling : Driver → Result (Unit {0}) × Board
  enabling s = enable_board a.enabled a.requested a.msi_enabled (board_of (with_state s))

  use_board-eq :
      (board : ℕ) (s : Driver)
      → a.allocated ≡ true
      → (u : Unit {0}) → (enabling s).0 ≡ ok u
      → used board s
        ≡ cleaned
            (cleaned (started board (with_board (enabling s).1 (with_state s))) (drop amc_state))
            (give_board board)
  use_board-eq board s allocated u good = rw (allocated, good) refl

  use_board_lem :
      (board : ℕ) (s : Driver)
      → ((e : Errno)
          → (used board s).0 ≡ err e
          → ((used board s).1.boards ≡ release_board board s.boards)
            × Left s.held (used board s).1.held)
        × ((p : Parts)
            → (used board s).0 ≡ ok p
            → ((used board s).1.boards ≡ s.boards)
              × Up board p s.nodes (enabled_held s.held) (used board s).1)
  use_board_lem board s = elim (Bool-cases a.allocated) [
    | inr none ↦ (
      (λ e h. (ground (arith, none), inl (ground (arith, none)))),
      (λ p h. absurd (ground (arith, h, none))),
    )
    | inl allocated ↦ elim (Result-cases ((enabling s).0)) [
      | inr (x, bad) ↦
          let back =
            enable_board-err a.enabled a.requested a.msi_enabled (board_of (with_state s)) x bad in
          (
            (λ e h. (ground (arith, allocated, bad), inl (ground (arith, allocated, bad, back)))),
            (λ p h. absurd (ground (arith, h, allocated, bad))),
          )
      | inl (u, good) ↦
          let now =
            enable_board-held a.enabled a.requested a.msi_enabled (board_of (with_state s)) u
              good in
          let st =
            start_board_lem default_prom beyond ioread32 engine block_shift a db bb board
              (with_board (enabling s).1 (with_state s)) (amc_state ∷ s.held) now in
          let whole = use_board-eq board s allocated u good in
          elim (Result-cases (started board (with_board (enabling s).1 (with_state s))).0) [
            | inr (x, bad) ↦
                let f = st.0 x bad in
                (
                  (λ e h. (
                    ground (arith, whole, bad, f.0),
                    elim f.1 [
                      | inl same ↦ inl (ground (arith, whole, bad, same))
                      | inr (inl (m, prom, loaded, dma, fails, leak)) ↦
                          inr (inl (m, prom, loaded, dma, fails, ground (arith, whole, bad, leak)))
                      | inr (inr (inl (y, refused, leak))) ↦
                          inr (inr (inl (y, refused, ground (arith, whole, bad, leak))))
                      | inr (inr (inr (y, refused, leak))) ↦
                          inr (inr (inr (y, refused, ground (arith, whole, bad, leak))))
                    ],
                  )),
                  (λ p h. absurd (ground (arith, h, whole, bad))),
                )
            | inl (q, fine) ↦
                let f = st.1 q fine in
                let same : (used board s).1
                    ≡ (started board (with_board (enabling s).1 (with_state s))).1 =
                  ground (arith, whole, fine) in
                (
                  (λ e h. absurd (ground (arith, h, whole, fine))),
                  (λ p h. (
                    ap Driver.boards same ∙ f.0,
                    subst (λ t. Up board p s.nodes (enabled_held s.held) t) (sym same)
                        (subst
                          (λ p.
                            Up board p s.nodes (enabled_held s.held)
                              (started board (with_board (enabling s).1 (with_state s))).1)
                          (ground (arith, h, whole, fine))
                          (subst
                            (λ h.
                              Up board q s.nodes h
                                (started board (with_board (enabling s).1 (with_state s))).1)
                            now f.1)),
                  )),
                )
          ]
    ]
  ]

  -- The default image and the memory behind the PROM buffer are to hold bytes. Where the probe of
  -- a card fails, the board numbers are as before, and what the driver holds is what it held
  -- before or exactly one of these more: the PROM context, where the image has a DMA entry and the
  -- setup of the DMA controller fails; the character device, where the file `prom_used` cannot be
  -- created; the character device and this file, where the file `prom` cannot be created. The
  -- device nodes are as before, or they are those that `create_device_nodes` left for an accepted
  -- image: none of them is destroyed.
  pub amc_pci_probe-Leftover :
      (s : Driver) (e : Errno)
      → (amc_pci_probe default_prom beyond ioread32 engine block_shift a s).0 ≡ err e
      → ((amc_pci_probe default_prom beyond ioread32 engine block_shift a s).1.boards ≡ s.boards)
        × Leftover default_prom beyond ioread32 engine block_shift a db bb s.held
            (amc_pci_probe default_prom beyond ioread32 engine block_shift a s).1.held
        × ((board : ℕ) × NodesLeft default_prom beyond ioread32 engine block_shift a board s.nodes
              (amc_pci_probe default_prom beyond ioread32 engine block_shift a s).1.nodes)
  unfolding amc_pci_probe
  amc_pci_probe-Leftover s e h = elim (Result-cases (get_free_board s.boards).0) [
    | inr (x, bad) ↦ (
      ground (arith, bad, (v.full x bad).1),
      inl (ground (arith, bad)),
      (0, inl (ground (arith, bad))),
    )
    | inl (n, good) ↦
        let f = v.found n good in
        let t : Driver = record s { boards = (get_free_board s.boards).1 } in
        let u = use_board_lem n t in
        elim (Result-cases (used n t).0) [
          | inl (p, fine) ↦ absurd (ground (arith, h, good, fine))
          | inr (x, bad) ↦
              let same : (amc_pci_probe default_prom beyond ioread32 engine block_shift a s).1
                  ≡ (used n t).1 =
                unfold amc_pci_probe in ground (arith, good, bad) in
              (
                ap Driver.boards same ∙ (u.0 x bad).0 ∙ f.3,
                subst (λ (w : Driver). Left s.held w.held) (sym same) (u.0 x bad).1,
                (
                  n,
                  subst
                      (λ (w : Driver).
                        NodesLeft default_prom beyond ioread32 engine block_shift a n s.nodes
                          w.nodes)
                      (sym same)
                      (use_board-NodesLeft default_prom beyond ioread32 engine block_shift a n t),
                ),
              )
        ]
  ]
    where
      v : IsNumbered 0 max_boards s.boards (get_free_board s.boards)
      v = get_free_board-IsNumbered s.boards

  removed :
      (board : ℕ) (p : Parts) (nodes : List Node) (held : Held) (t : Driver)
      → Up board p nodes (enabled_held held) t
      → All (λ node. is_kept (minor_of board) p.prom.nentries node ≡ true) nodes
      → ((amc_pci_remove board p.prom t).boards ≡ release_board board t.boards)
        × ((amc_pci_remove board p.prom t).nodes ≡ nodes)
        × ((amc_pci_remove board p.prom t).held ≡ held)
  unfolding amc_pci_remove
  removed board p nodes held t up free =
      let made =
        destroy_device_nodes-create_device_nodes default_prom beyond ioread32 up.base p.prom db bb
          up.loaded (minor_of board) board a.node_created a.cdev_added
          (record { nodes = nodes; held = board_held p.prom (enabled_held held) }) free up.made in
      let off =
        terminated-files p.prom
          (board_of (with_nodes (destroy_device_nodes p.prom (minor_of board) (nodes_of t)) t))
          (enabled_held held) (unfold destroy_device_nodes in ground (arith, up.holds)) in
      (
        refl,
        (unfold destroy_device_nodes in ground (arith, up.with_nodes, ap Nodes.nodes made)),
        ground (arith, off),
      )

  -- The default image and the memory behind the PROM buffer are to hold bytes. Where the probe of
  -- a card succeeds and no device node had a minor number of the board, as many as the image has
  -- entries, the removal brings back the board numbers, the device nodes and what the driver held.
  pub amc_pci_remove-amc_pci_probe :
      (s : Driver) (board : ℕ) (p : Parts)
      → (amc_pci_probe default_prom beyond ioread32 engine block_shift a s).0 ≡ ok (board, p)
      → All (λ node. is_kept (minor_of board) p.prom.nentries node ≡ true) s.nodes
      → ((amc_pci_remove board p.prom
            (amc_pci_probe default_prom beyond ioread32 engine block_shift a s).1).boards
          ≡ s.boards)
        × ((amc_pci_remove board p.prom
              (amc_pci_probe default_prom beyond ioread32 engine block_shift a s).1).nodes
            ≡ s.nodes)
        × ((amc_pci_remove board p.prom
              (amc_pci_probe default_prom beyond ioread32 engine block_shift a s).1).held
            ≡ s.held)
  unfolding amc_pci_probe
  amc_pci_remove-amc_pci_probe s board p h free = elim (Result-cases (get_free_board s.boards).0) [
    | inr (x, bad) ↦ absurd (ground (arith, h, bad))
    | inl (n, good) ↦
        let t : Driver = record s { boards = (get_free_board s.boards).1 } in
        elim (Result-cases (used n t).0) [
          | inr (x, bad) ↦ absurd (ground (arith, h, good, bad))
          | inl (q, fine) ↦
              let same : (amc_pci_probe default_prom beyond ioread32 engine block_shift a s).1
                  ≡ (used n t).1 =
                unfold amc_pci_probe in ground (arith, good, fine) in
              let n_eq : n ≡ board = ground (arith, h, good, fine) in
              let f = (get_free_board-IsNumbered s.boards).found n good in
              let u = (use_board_lem n t).1 p (ground (arith, h, good, fine)) in
              let r =
                removed board p s.nodes s.held (used n t).1
                  (subst (λ b. Up b p s.nodes (enabled_held s.held) (used n t).1) n_eq u.1) free in
              let back = ap (amc_pci_remove board p.prom) same in
              (
                ap Driver.boards back
                    ∙ r.0
                    ∙ ap (release_board board) u.0
                    ∙ ap (λ b. release_board b t.boards) (sym n_eq)
                    ∙ f.3,
                ap Driver.nodes back ∙ r.1,
                ap Driver.held back ∙ r.2,
              )
        ]
  ]
