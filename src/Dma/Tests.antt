-- ===== src/Dma/Tests.antt =====
-- One DMA operation of driver/dma_control.c, on a controller that needs a reset.
use amc_pci_dev.Prelude.{
  ℕ, ◌+◌, ◌-◌, ◌≡◌, refl, arith, true, false, ◌&&◌, ltb, leb, if◌then◌else◌, [], ◌∷◌, ok,
}
use amc_pci_dev.Dma.{
  Dma, DmaControl, Transfer, Answers, dma_from_device, dma_operation_unlocked, configure_dma_engine,
  maybe_reset_dma, reset_dma_controller, poll_reset,
}
use amc_pci_dev.Dma.Setup.{Setup, SetupAnswers, initialise_dma_control, terminate_dma_control}
use amc_pci_dev.Prelude.{Result}
use amc_pci_dev.Dma.Laws.{IsIdle, HasRun, outcome, is_started, dma_operation_unlocked_lem}

abbrev engine : Transfer → (ℕ → ℕ) → ℕ → ℕ
engine t memory j =
    if leb t.dst j && ltb j (t.dst + t.count) then memory (t.src + (j - t.dst)) else memory j

abbrev control : DmaControl
control = record {
  buffer_shift = 5;
  buffer_size = 32;
  buffer_dma = 65536;
  alignment = 16;
  max_transfer = 32;
}

-- A decode error is pending, and the reset bit clears at the second poll.
abbrev answers : Answers
answers = record {
  status = 66;
  first_poll = 4;
  more_polls = 4 ∷ 0 ∷ [];
  completes = true;
  irq_status = 4098;
  status_after = 4098;
}

abbrev idle : Dma
idle = record {
  source = 0;
  source_msb = 0;
  dest = 0;
  dest_msb = 0;
  memory = λ j. j;
  writes = [];
  transfers = [];
  done = false;
  locked = true;
}

dma_operation_unlocked_lem_example :
    ((dma_operation_unlocked engine control answers 4112 100 dma_from_device idle).0
      ≡ outcome engine control answers (record { src = 4112; dst = 65536; count = 32 }))
    × (is_started engine control answers (record { src = 4112; dst = 65536; count = 32 }) ≡ true
        → HasRun engine
            (record { src = 4112; dst = 65536; count = 32 })
            idle
            (dma_operation_unlocked engine control answers 4112 100 dma_from_device idle).1)
    × (is_started engine control answers (record { src = 4112; dst = 65536; count = 32 }) ≡ false
        → IsIdle engine idle
            (dma_operation_unlocked engine control answers 4112 100 dma_from_device idle).1)
dma_operation_unlocked_lem_example =
    dma_operation_unlocked_lem engine control answers 4112 100 dma_from_device idle
      (record { src = 4112; dst = 65536; count = 32 }) refl (omega arith) (omega arith)
      (omega arith)

operation_runs :
    (dma_operation_unlocked engine control answers 4112 100 dma_from_device idle).0 ≡ ok 32
unfolding dma_operation_unlocked configure_dma_engine maybe_reset_dma reset_dma_controller
    poll_reset
operation_runs = refl

abbrev granted : SetupAnswers
granted = record { set_mask = λ bits. ok tt; allocated = true; pages = true; mapped = ok 65536 }

-- The default buffer of 1 MiB, and an alignment of 64.
abbrev set_up : Result DmaControl × Setup
set_up = initialise_dma_control engine granted answers 20 47 6 (record { card = idle; held = [] })

setup_runs : terminate_dma_control set_up.1.held ≡ []
unfolding initialise_dma_control reset_dma_controller poll_reset
setup_runs = refl
