-- ===== src/Dma/Ladder.antt =====
-- What the setup of driver/dma_control.c leaves behind.
use amc_pci_dev.Prelude.{◌∷◌}
use amc_pci_dev.Prelude.{ℕ, ◌+◌, ◌^◌, ◌≤◌, ◌<◌, ◌≡◌, arith, Result, ok, err, Errno}
use amc_pci_dev.Dma.{DmaControl, Transfer, Answers}
use amc_pci_dev.Dma.Setup.{Setup, SetupAnswers, initialise_dma_control}
use amc_pci_dev.Resources.{dma_state, dma_pages, dma_mapping}

-- Sizes that the driver can work with: a buffer below 2 GiB, an alignment that is not above the
-- buffer's size nor above 4 MiB, so that one unit fits a transfer, and a DMA address for the
-- buffer within the address space.
pub record IsSane (dma_block_shift dma_alignment_shift : ℕ) (mapped : Result ℕ) : Type 0 where
  pub block : dma_block_shift ≤ 30
  pub unit : dma_alignment_shift ≤ dma_block_shift
  pub shift : dma_alignment_shift ≤ 22
  pub address : (b : ℕ) → mapped ≡ ok b → b + 2 ^ dma_block_shift < 2 ^ 64

module _ (engine : Transfer → (ℕ → ℕ) → ℕ → ℕ) (a : SetupAnswers) (r : Answers) (k mask j : ℕ)
    (s : Setup) where
  abbrev done : Result DmaControl × Setup
  done = initialise_dma_control engine a r k mask j s

  pub initialise_dma_control-held :
      ((e : Errno) → done.0 ≡ err e → done.1.held ≡ s.held)
      × ((dma : DmaControl)
          → done.0 ≡ ok dma
          → done.1.held ≡ dma_mapping ∷ dma_pages ∷ dma_state ∷ s.held)
  unfolding initialise_dma_control
  initialise_dma_control-held = ((λ e h. ground (arith, h)), (λ dma h. ground (arith, h)))
