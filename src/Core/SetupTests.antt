-- ===== src/Core/SetupTests.antt =====
-- The setup of a board whose card holds the first image of driver/test_assets.
use amc_pci_dev.Prelude.{
  get_or, get_or-lt, inl, ℕ, suc, ◌+◌, ◌-◌, ◌^◌, ◌≡◌, ◌≢◌, refl, arith, true, false, ltb, ◌⊎◌, List,
  [], ◌∷◌, some, none, Result, ok, err, Errno, enxio, eio,
}
use amc_pci_dev.Prom.{PromContext, tag_at, prom_device_tag}
use amc_pci_dev.Prom.Tests.{
  rom, zeros, test_prom1, context1, no_default-IsBytes, zeros-IsBytes, test_prom1_loads,
}
use amc_pci_dev.Prom.Entries.{prom_for_each_entry, prom_find_entry_with_minor}
use amc_pci_dev.Prom.Image.{image, IsImage, described}
use amc_pci_dev.Utils.Total.{total, IsBytes}
use amc_pci_dev.Prom.Load.{load_prom}
use amc_pci_dev.Prom.Loading.{load_prom_lem}
use amc_pci_dev.Interrupts.{mer, ier, iar}
use amc_pci_dev.Interrupts.Setup.{initialise_interrupt_control}
use amc_pci_dev.Dma.{Transfer}
use amc_pci_dev.Resources.{bar2, prom_data, prom_used_file, cdev}
use amc_pci_dev.Core.Board.{
  Board, BoardAnswers, Parts, initialise_board, terminate_board, enable_board, disable_board,
  iomapped, prom_offset, uses_dma,
}
use amc_pci_dev.Core.PartsLadder.{DmaFails}
use amc_pci_dev.Core.BoardLadder.{initialise_board_lem, enable_board_lem}
use amc_pci_dev.Core.Numbers.{IsNumbered, get_free_board, get_free_board-IsNumbered}
use amc_pci_dev.Core.Nodes.{Node, Nodes, create_device_nodes, destroy_device_nodes, node_loop}
use amc_pci_dev.Core.NodeLaws.{AreNodes, create_device_nodes_lem}
use amc_pci_dev.Core.NodeTrips.{destroy_device_nodes-create_device_nodes}
use amc_pci_dev.Core.Probe.{
  Driver, ProbeAnswers, amc_pci_probe, amc_pci_remove, amc_pci_init, amc_pci_exit,
}
use amc_pci_dev.Core.NodesLeft.{NodesLeft}
use amc_pci_dev.Core.FilesLadder.{Leftover}
use amc_pci_dev.Core.Probing.{
  amc_pci_init_lem, amc_pci_probe-Leftover, amc_pci_remove-amc_pci_probe,
}

abbrev engine : Transfer → (ℕ → ℕ) → ℕ → ℕ
engine t memory = memory

abbrev answers : BoardAnswers
answers = record {
  bar2_len = 16384;
  mapped = ok 65536;
  prom_allocated = true;
  dma = record { set_mask = λ bits. ok tt; allocated = true; pages = true; mapped = ok 0 };
  reset = record {
    status = 2;
    first_poll = 0;
    more_polls = [];
    completes = true;
    irq_status = 0;
    status_after = 2;
  };
  irq_allocated = true;
  irq = ok tt;
}

abbrev off : Board
off = record {
  card = record {
    source = 0;
    source_msb = 0;
    dest = 0;
    dest_msb = 0;
    memory = λ j. 0;
    writes = [];
    transfers = [];
    done = false;
    locked = false;
  };
  writes = [];
  held = [];
}

-- Without a magic number on the card, and with an empty default image.
abbrev board : Result Parts × Board
board = initialise_board [] (λ j. 0) (λ j. 0) engine 20 answers off

initialise_board_lem_example :
    ((e : Errno)
      → board.0 ≡ err e
      → (board.1.held ≡ [])
        ⊎ ((m : ℕ) × (p : PromContext) × (iomapped answers.mapped ≡ ok m)
            × (load_prom [] (λ j. 0) (λ j. 0) true (m + prom_offset) ≡ ok p)
            × (uses_dma p ≡ true)
            × DmaFails engine 20 answers p off.card (prom_data ∷ bar2 ∷ []) e
            × (board.1.held ≡ prom_data ∷ [])))
    × ((p : Parts) → board.0 ≡ ok p → (terminate_board p.prom board.1).held ≡ [])
initialise_board_lem_example = initialise_board_lem [] (λ j. 0) (λ j. 0) engine 20 answers off

enable_board_lem_example :
    ((e : Errno)
      → (enable_board (ok tt) (ok tt) (err enxio) off).0 ≡ err e
      → (enable_board (ok tt) (ok tt) (err enxio) off).1.held ≡ [])
    × ((enable_board (ok tt) (ok tt) (err enxio) off).0 ≡ ok tt
        → (disable_board (enable_board (ok tt) (ok tt) (err enxio) off).1).held ≡ [])
enable_board_lem_example = enable_board_lem (ok tt) (ok tt) (err enxio) off

-- The first two numbers are taken.
get_free_board-IsNumbered_example : IsNumbered 0 4 (λ i. ltb i 2) (get_free_board (λ i. ltb i 2))
get_free_board-IsNumbered_example = get_free_board-IsNumbered (λ i. ltb i 2)

abbrev other_node : Node
other_node = record { minor = 35; name = b'a' ∷ [] }

abbrev before : Nodes
before = record { nodes = other_node ∷ []; held = [] }

abbrev made : Result (Unit {0}) × Nodes
made = create_device_nodes context1 16 1 (λ minor. true) (ok tt) before

create_device_nodes_lem_example :
    ((x : Errno) → made.0 ≡ err x → made.1.held ≡ [])
    × (made.0 ≡ ok tt
        → (created : List Node) × (device : ℕ) × AreNodes
            (λ minor. true)
            context1
            16
            1
            before
            made.1
            created
            device)
    × ((d : ℕ)
        → (◌≡◌ {A = Result (Unit {0})} (ok tt) (ok tt))
        → prom_find_entry_with_minor context1 0 ≡ some d
        → tag_at context1.buff d ≡ prom_device_tag
        → ((i y : ℕ)
            → prom_find_entry_with_minor context1 (suc i) ≡ some y
            → tag_at context1.buff y ≢ prom_device_tag)
        → made.0 ≡ ok tt)
create_device_nodes_lem_example =
    create_device_nodes_lem [] zeros (rom test_prom1) 0 context1 no_default-IsBytes zeros-IsBytes
      test_prom1_loads 16 1 (λ minor. true) (ok tt) before

-- The nodes of the image: `test_dev.1.reg`, and those of the three areas.
creates : made.0 ≡ ok tt
unfolding create_device_nodes node_loop prom_for_each_entry
creates = refl

destroy_device_nodes-create_device_nodes_example : destroy_device_nodes context1 16 made.1 ≡ before
destroy_device_nodes-create_device_nodes_example =
    destroy_device_nodes-create_device_nodes [] zeros (rom test_prom1) 0 context1 no_default-IsBytes
      zeros-IsBytes test_prom1_loads 16 1 (λ minor. true) (ok tt) before (refl, tt) creates

amc_pci_init_lem_example :
    ((e : Errno)
      → (amc_pci_init (ok tt) (ok tt) (err enxio) []).0 ≡ err e
      → (amc_pci_init (ok tt) (ok tt) (err enxio) []).1 ≡ [])
    × ((amc_pci_init (ok tt) (ok tt) (err enxio) []).0 ≡ ok tt
        → amc_pci_exit (amc_pci_init (ok tt) (ok tt) (err enxio) []).1 ≡ [])
amc_pci_init_lem_example = amc_pci_init_lem (ok tt) (ok tt) (err enxio) []

-- `sysfs_create_bin_file` of the second file answers `last`.
abbrev probing : Result (Unit {0}) → ProbeAnswers
probing last = record {
  allocated = true;
  enabled = ok tt;
  requested = ok tt;
  msi_enabled = ok tt;
  board = answers;
  node_created = λ minor. true;
  cdev_added = ok tt;
  used_created = ok tt;
  prom_created = last;
}

-- A default image with one device entry, of the name `a`.
abbrev default_prom : List ℕ
default_prom = 250 ∷ 0 ∷ 0 ∷ 0 ∷ 1 ∷ 1 ∷ 2 ∷ b'a' ∷ 0 ∷ 0 ∷ 2 ∷ 157 ∷ 0 ∷ []

abbrev default_image : ℕ → ℕ
default_image = image default_prom zeros zeros 0

default_image-IsImage : IsImage default_image (5 ∷ []) 13
unfolding total
default_image-IsImage = record {
  end_at = 9;
  version = refl;
  chain = omega arith;
  marker = inl refl;
  ends = refl;
  short = omega arith;
  some_bits = omega arith;
  summed = refl;
}

default_prom-IsBytes : IsBytes (λ j. get_or default_prom j 0)
default_prom-IsBytes = get_or-lt default_prom 256 (omega arith) (omega arith)

abbrev default_context : PromContext
default_context = described (65536 + prom_offset) default_image (5 ∷ []) 13

loads : load_prom default_prom zeros zeros true (65536 + prom_offset) ≡ ok default_context
loads =
    ((load_prom_lem default_prom zeros zeros (65536 + prom_offset) default_prom-IsBytes
          zeros-IsBytes).2
        default_context).1
      (5 ∷ [], 13, default_image-IsImage, refl)

abbrev alone : Driver
alone = record {
  boards = λ j. false;
  nodes = other_node ∷ [];
  held = [];
  card = off.card;
  writes = [];
}

abbrev probed : Result (Unit {0}) → Result (ℕ × Parts) × Driver
probed last = amc_pci_probe default_prom zeros zeros engine 20 (probing last) alone

abbrev parts : Parts
parts = record {
  prom = default_context;
  dma = none;
  interrupts = record {
    dma = none;
    events = λ i. 0;
    active_readers = λ i. false;
    writes = (mer, 3) ∷ (ier, 2 ^ 32 - 1) ∷ (iar, 2 ^ 32 - 1) ∷ (mer, 0) ∷ [];
  };
}

succeeds : (probed (ok tt)).0 ≡ ok (0, parts)
unfolding amc_pci_probe get_free_board enable_board initialise_board initialise_interrupt_control
    create_device_nodes node_loop prom_for_each_entry
succeeds = rw loads refl

amc_pci_remove-amc_pci_probe_example :
    ((amc_pci_remove 0 default_context (probed (ok tt)).1).boards ≡ alone.boards)
    × ((amc_pci_remove 0 default_context (probed (ok tt)).1).nodes ≡ other_node ∷ [])
    × ((amc_pci_remove 0 default_context (probed (ok tt)).1).held ≡ [])
amc_pci_remove-amc_pci_probe_example =
    amc_pci_remove-amc_pci_probe default_prom zeros zeros engine 20 (probing (ok tt))
      default_prom-IsBytes zeros-IsBytes alone 0 parts succeeds (refl, tt)

fails : ((probed (err eio)).0 ≡ err eio) × ((probed (err eio)).1.held ≡ prom_used_file ∷ cdev ∷ [])
unfolding amc_pci_probe get_free_board enable_board initialise_board initialise_interrupt_control
    create_device_nodes node_loop prom_for_each_entry
fails = rw loads (refl, refl)

amc_pci_probe-Leftover_example :
    ((probed (err eio)).1.boards ≡ alone.boards)
    × Leftover default_prom zeros zeros engine 20
        (probing (err eio))
        default_prom-IsBytes
        zeros-IsBytes
        []
        (probed (err eio)).1.held
    × ((board : ℕ) × NodesLeft default_prom zeros zeros engine 20
          (probing (err eio))
          board
          alone.nodes
          (probed (err eio)).1.nodes)
amc_pci_probe-Leftover_example =
    amc_pci_probe-Leftover default_prom zeros zeros engine 20 (probing (err eio))
      default_prom-IsBytes zeros-IsBytes alone eio fails.0
