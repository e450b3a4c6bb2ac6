-- ===== src/Core/BoardLadder.antt =====
-- What `enable_board` and `initialise_board` of driver/amc_pci_core.c leave behind.
use amc_pci_dev.Prelude.{
  sym, ap, ◌∙◌, ℕ, ◌+◌, ◌≡◌, refl, arith, true, leb, List, ◌∷◌, Result, ok, err, Errno, Bool-cases,
  Result-cases, inl, inr, ◌⊎◌,
}
use amc_pci_dev.Prom.{PromContext}
use amc_pci_dev.Prom.Load.{load_prom}
use amc_pci_dev.Dma.{Transfer}
use amc_pci_dev.Resources.{bar2, prom_data, interrupt_state, irq_line}
use amc_pci_dev.Core.Board.{
  Board, BoardAnswers, Parts, enable_board, disable_board, initialise_board, terminate_board,
  uses_dma, prom_offset, iomapped,
}
use amc_pci_dev.Core.PartsLadder.{dma_held, DmaFails, start_parts_lem}

-- If `enable_board` fails, on any path, it holds what it held before; if it succeeds,
-- `disable_board` gives back exactly what it acquired.
pub enable_board_lem :
    (enabled requested msi_enabled : Result (Unit {0})) (s : Board)
    → ((e : Errno)
        → (enable_board enabled requested msi_enabled s).0 ≡ err e
        → (enable_board enabled requested msi_enabled s).1.held ≡ s.held)
      × ((enable_board enabled requested msi_enabled s).0 ≡ ok tt
          → (disable_board (enable_board enabled requested msi_enabled s).1).held ≡ s.held)
unfolding enable_board
enable_board_lem enabled requested msi_enabled s =
    ((λ e h. ground (arith, h)), (λ h. ground (arith, h)))

module _ (default_prom : List ℕ) (beyond ioread32 : ℕ → ℕ) (engine : Transfer → (ℕ → ℕ) → ℕ → ℕ)
    (block_shift : ℕ) (a : BoardAnswers) where
  abbrev board_done : Board → Result Parts × Board
  board_done s = initialise_board default_prom beyond ioread32 engine block_shift a s

  -- What a board that was set up has: a PROM context that `load_prom` returned, and the resources
  -- of its parts.
  pub initialise_board-ok :
      (s : Board) (p : Parts)
      → (board_done s).0 ≡ ok p
      → ((m : ℕ) × (load_prom default_prom beyond ioread32 a.prom_allocated (m + prom_offset)
            ≡ ok p.prom))
        × ((board_done s).1.held
            ≡ irq_line ∷ interrupt_state ∷ dma_held p.prom (prom_data ∷ bar2 ∷ s.held))
  unfolding initialise_board
  initialise_board-ok s p h = elim (Bool-cases (leb 16384 a.bar2_len)) [
    | inr short ↦ absurd (ground (arith, h, short))
    | inl long ↦ elim (Result-cases (iomapped a.mapped)) [
      | inr (x, bad) ↦ absurd (ground (arith, h, long, bad))
      | inl (m, good) ↦
          elim (Result-cases
            (load_prom default_prom beyond ioread32 a.prom_allocated (m + prom_offset))) [
              | inr (x, refused) ↦ absurd (ground (arith, h, long, good, refused))
              | inl (prom, accepted) ↦
                  let parts =
                    (start_parts_lem default_prom beyond ioread32 engine block_shift a prom
                        (record s { held = prom_data ∷ bar2 ∷ s.held }) (bar2 ∷ s.held) refl).1
                      p (ground (arith, h, long, good, accepted)) in
                  (
                    (m, accepted ∙ ap ok (sym parts.0)),
                    ground (arith, long, good, accepted, h)
                        ∙ parts.1
                        ∙ ap
                            (λ q.
                              irq_line ∷ interrupt_state ∷ dma_held q (prom_data ∷ bar2 ∷ s.held))
                            (sym parts.0),
                  )
            ]
    ]
  ]

  -- If `initialise_board` fails, it holds what it held before, or, and this only where a PROM
  -- image with a DMA entry was accepted and the setup of the DMA controller fails with the error
  -- that is returned, also the PROM context. If it succeeds, `terminate_board` gives back exactly
  -- what was acquired.
  pub initialise_board_lem :
      (s : Board)
      → ((e : Errno)
          → (board_done s).0 ≡ err e
          → ((board_done s).1.held ≡ s.held)
            ⊎ ((m : ℕ) × (prom : PromContext) × (iomapped a.mapped ≡ ok m)
                × (load_prom default_prom beyond ioread32 a.prom_allocated (m + prom_offset)
                    ≡ ok prom)
                × (uses_dma prom ≡ true)
                × DmaFails engine block_shift a prom s.card (prom_data ∷ bar2 ∷ s.held) e
                × ((board_done s).1.held ≡ prom_data ∷ s.held)))
        × ((p : Parts)
            → (board_done s).0 ≡ ok p
            → (terminate_board p.prom (board_done s).1).held ≡ s.held)
  unfolding initialise_board
  initialise_board_lem s = elim (Bool-cases (leb 16384 a.bar2_len)) [
    | inr short ↦ ((λ e h. inl (ground (arith, short))), (λ p h. absurd (ground (arith, h, short))))
    | inl long ↦ elim (Result-cases (iomapped a.mapped)) [
      | inr (x, bad) ↦
          ((λ e h. inl (ground (arith, long, bad))), (λ p h. absurd (ground (arith, h, long, bad))))
      | inl (m, good) ↦ elim (Result-cases (loaded m)) [
        | inr (x, refused) ↦ (
          (λ e h. inl (ground (arith, long, good, refused))),
          (λ p h. absurd (ground (arith, h, long, good, refused))),
        )
        | inl (prom, accepted) ↦
            let parts =
              start_parts_lem default_prom beyond ioread32 engine block_shift a prom
                (record s { held = prom_data ∷ bar2 ∷ s.held }) (bar2 ∷ s.held) refl in
            (
              (λ e h. elim (parts.0 e (ground (arith, h, long, good, accepted))) [
                | inl same ↦ inl (ground (arith, long, good, accepted, same, h))
                | inr (used, fails, leak) ↦ inr (
                  m,
                  prom,
                  good,
                  accepted,
                  used,
                  fails,
                  ground (arith, long, good, accepted, leak, h),
                )
              ]),
              (λ p h. ground (
                arith,
                long,
                good,
                accepted,
                h,
                parts.1 p (ground (arith, h, long, good, accepted)),
              )),
            )
      ]
    ]
  ]
    where
      loaded : ℕ → Result PromContext
      loaded m = load_prom default_prom beyond ioread32 a.prom_allocated (m + prom_offset)
