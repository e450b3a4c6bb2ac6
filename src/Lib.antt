-- ===== src/Lib.antt =====
-- The AMC PCI driver (driver/): a Linux kernel module for an FPGA card on PCI Express.
--
-- At probe the driver reads the card's PROM image, which lists the device files to create: one for
-- the registers and one per DMA area. An open of such a file ends in registers.c or memory.c. Reads
-- and writes of a DMA area go through the one DMA controller of the card, with one buffer and one
-- mutex; its completion comes through the interrupt handler, which also hands the card's events to
-- the readers of the register files.
--
-- Files:
--   Prelude    Boolean tests, lists, machine words, error codes, and the operations `Op`, which
--              change a state and return a value or an error code.
--   Utils      driver/utils.c: `calc_checksum16`.
--   Prom       driver/prom_processing.c and .h: the entries of an image and the searches in them
--              (Entries), `read_prom` (Read), `load_prom` (Load). Image says which images are well
--              formed. A buffer is a map from offsets to bytes, an entry is its offset, and NULL is
--              `none`.
--   Dma        driver/dma_control.c: one DMA operation (Laws), the setup (Setup) and what it leaves
--              behind (Ladder). The registers are a record of the last values written, with the log
--              of the writes and of the transfers started.
--   Resources  What the driver holds of the kernel, as a list, for the setup functions.
--   Memory     driver/memory.c: open, read, write, llseek and ioctl of a DMA area. The state of a call
--              is `File`: the card, the file position and the user's buffer. Files has the open files of
--              a card and the calls on them, Spec what they promise, as a store of bytes with
--              positions, View how a card stands for it, Refines one call, Serving sequences of calls;
--              Outcomes is what one read or write comes to.
--   Interrupts driver/interrupts.c: the reader slots (Slots), the interrupt handler and the way of the
--              events (Delivery), the waiting read (Waiting). A waiting call is given what happens
--              until it ends, as a list of wake-ups.
--   Registers  driver/registers.c: open, release, lock, mmap, read and poll of the register file. System
--              has the steps that open files and interrupts make together, Invariant and Preserved
--              what they keep, Stream what a read and a mapping come to. Each open or release is one
--              step.
--   Debug      driver/debug.c: the dumps, as lists of lines (Lines, Dumps).
--   Core       driver/amc_pci_core.c: open and release of a device file (Opening), and the count of the
--              users of a card up to its removal (Lifetime); the board numbers
--              (Numbers); the setup of a board (Board) and what it leaves behind (PartsLadder,
--              BoardLadder); the device nodes (Nodes), their names (NodeNames), and which are there
--              (NodeLaws, NodeTrips); probe, removal and the setup of the module (Probe), and what
--              they leave behind (FilesLadder, NodesLeft, ProbeLadder, Probing).
--   Tools      driver/tools/prom_data_creator.py: what it writes for a configuration, with its checksum
--              (Sums, Marker), the fields as entries (Blocks, Regions, Nodes), and what the driver makes
--              of it (Accepted, Opened).
--
-- Parameters, which stand for code outside the repository: the default image that the build
-- generates, `ioread32`, the DMA engine of the card, `copy_to_user` and `copy_from_user`,
-- `generic_file_llseek_size`, and the values that the controller's registers return (`Answers`).
-- What is relied on is in Memory/Lock (`Copies`, `CopiesTo`, `CopiesFrom`): engine and copies
-- move the bytes they are told to and write nothing else; and in Memory/View (`Bounded`): a seek
-- from within the area stays within it. `device_create` is a parameter by its success for each
-- minor number. Memory/Plan has what a DMA area and controller have to be like (`IsArea`,
-- `IsDmaControl`).
--
-- Fuel: the walk of `load_prom` has fuel 4096, and 2046 rounds are the most that it makes, since each
-- moves on by two bytes or more; the searches have fuel 2048, one for each entry that fits into an image that
-- `load_prom` accepted, which ends below 4096. The theorems show that the fuel is not used up.
--
-- Addresses and sizes are 64 bits wide and the machine is little-endian. A transfer happens at once
-- when the register `btt` is written. The interrupt handler's writes to the DMA controller stand in the
-- log of the interrupt controller too, for their order.
--
-- Not modelled: what a transfer does behind a wait that was killed, where the driver releases the
-- mutex while it may still run (the sequences of calls of Memory/Serving have none of these); the
-- texts that the driver prints to the kernel log while it works, the reading of the configuration
-- and the output formats of the Python program, and the build files.
pub mod Prelude
pub mod Utils
pub mod Prom
pub mod Debug
pub mod Dma
pub mod Memory
pub mod Interrupts
pub mod Registers
pub mod Resources
pub mod Core
pub mod Tools
