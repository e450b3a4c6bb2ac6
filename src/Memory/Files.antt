-- ===== src/Memory/Files.antt =====
-- The DMA areas of a card as open files of driver/memory.c: all of them go through the one DMA
-- controller, and each has its own position.
use amc_pci_dev.Prelude.{ℕ, List, [], ◌∷◌, update, Result}
use amc_pci_dev.Dma.{Dma, DmaControl, Transfer, Answers}
use amc_pci_dev.Memory.{
  MemoryContext, File, Copy, Seek, amc_pci_dma_read, amc_pci_dma_write, amc_pci_dma_llseek,
}

pub record Area : Type 0 where
  pub base : ℕ
  pub length : ℕ

-- The entries of `amc_pci_dma_fops` that take part; `user` is the caller's buffer.
pub data Request : Type 0 where
  write : (user : ℕ → ℕ) (count : ℕ) → Request
  read : (user : ℕ → ℕ) (count : ℕ) → Request
  llseek : (offset whence : ℕ) → Request

-- A call on an open file, with what the controller answers to it.
pub record Call : Type 0 where
  pub file : ℕ
  pub request : Request
  pub answers : Answers

-- What the call returns, and the caller's buffer behind it.
pub record Reply : Type 0 where
  pub result : Result ℕ
  pub user : ℕ → ℕ

pub record Device : Type 0 where
  pub card : Dma
  pub f_pos : ℕ → ℕ

abbrev pub context_of : DmaControl → (ℕ → Area) → ℕ → MemoryContext
context_of dma areas file = record {
  dma = dma;
  base = (areas file).base;
  length = (areas file).length;
}

abbrev pub opened_file : ℕ → (ℕ → ℕ) → Device → File
opened_file file user d = record { card = d.card; f_pos = d.f_pos file; user = user }

abbrev pub replied : ℕ → Device → Result ℕ × File → Reply × Device
replied file d (r, s) = (
  record { result = r; user = s.user },
  record { card = s.card; f_pos = update d.f_pos file s.f_pos },
)

module _ (engine : Transfer → (ℕ → ℕ) → ℕ → ℕ) (copy_from_user copy_to_user : Copy)
    (generic_file_llseek_size : Seek) (dma : DmaControl) (areas : ℕ → Area) where
  abbrev pub handle : ℕ → Request → Answers → Device → Reply × Device
  handle file (write user count) a d = replied file d (
      amc_pci_dma_write engine copy_from_user copy_to_user (context_of dma areas file) a count
        (opened_file file user d))
  handle file (read user count) a d = replied file d (
      amc_pci_dma_read engine copy_from_user copy_to_user (context_of dma areas file) a count
        (opened_file file user d))
  handle file (llseek offset whence) a d = replied file d (
      amc_pci_dma_llseek generic_file_llseek_size (context_of dma areas file) offset whence
        (opened_file file (λ i. 0) d))

  -- One call after the other.
  unfoldable pub serve : List Call → Device → List Reply × Device
  serve [] d = ([], d)
  serve (c ∷ calls) d =
      let (reply, d) = handle c.file c.request c.answers d in
      let (replies, d) = serve calls d in (reply ∷ replies, d)
