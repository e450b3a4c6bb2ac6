-- ===== src/Memory/Serving.antt =====
-- Sequences of calls on the files of driver/memory.c, and what a read finds of a write.
use amc_pci_dev.Prelude.{
  ℕ, ◌-◌, ◌≤◌, ◌<◌, ◌≡◌, ◌∙◌, false, ltb, if◌then◌else◌, List, [], ◌∷◌, All, ok,
}
use amc_pci_dev.Dma.{DmaControl, Transfer, Answers}
use amc_pci_dev.Memory.{MemoryContext, File, Copy, Seek, amc_pci_dma_read, amc_pci_dma_write}
use amc_pci_dev.Memory.Plan.{IsArea, max_rw_count}
use amc_pci_dev.Memory.Lock.{Copies, CopiesTo, CopiesFrom}
use amc_pci_dev.Memory.Reads.{amc_pci_dma_read-IsDelivered}
use amc_pci_dev.Memory.Writes.{amc_pci_dma_write-IsSafeWrite, amc_pci_dma_write-IsWritten}
use amc_pci_dev.Memory.Files.{
  Area, Request, write, read, llseek, Call, Reply, Device, context_of, handle, serve,
}
use amc_pci_dev.Memory.Spec.{Serves, ServesAll, idle, served}
use amc_pci_dev.Memory.View.{IsSane, IsCompleted, Bounded, store_of, IsView}
use amc_pci_dev.Memory.Refines.{read-Handled, write-Handled, llseek-Handled}

module _ (engine : Transfer → (ℕ → ℕ) → ℕ → ℕ) (copy_from_user copy_to_user : Copy)
    (generic_file_llseek_size : Seek) (dma : DmaControl) (areas : ℕ → Area) (copies : Copies engine)
    (from : CopiesFrom copy_from_user) (to : CopiesTo copy_to_user)
    (bounded : Bounded generic_file_llseek_size)
    (valid : (file : ℕ) → IsArea (context_of dma areas file)) where
  abbrev handled : ℕ → Request → Answers → Device → Reply × Device
  handled = handle engine copy_from_user copy_to_user generic_file_llseek_size dma areas

  abbrev done : List Call → Device → List Reply × Device
  done = serve engine copy_from_user copy_to_user generic_file_llseek_size dma areas

  handle-Serves :
      (file : ℕ) (request : Request) (a : Answers) (d : Device) (bytes : ℕ → ℕ)
      → IsSane request
      → IsView dma areas d bytes
      → (b : ℕ → ℕ) × Serves
          (areas file)
          file
          request
          (handled file request a d).0
          (store_of bytes d)
          (store_of b (handled file request a d).1)
        × IsView dma areas (handled file request a d).1 b
  handle-Serves file (write user count) a d bytes sane v =
      write-Handled engine copy_from_user copy_to_user generic_file_llseek_size dma areas copies
        from to bounded valid file user count a d bytes v
  handle-Serves file (read user count) a d bytes sane v =
      read-Handled engine copy_from_user copy_to_user generic_file_llseek_size dma areas copies from
        to bounded valid file user count a d bytes sane v
  handle-Serves file (llseek offset whence) a d bytes sane v =
      llseek-Handled engine copy_from_user copy_to_user generic_file_llseek_size dma areas copies
        from to bounded valid file offset whence a d bytes v

  -- Take open files of areas in the lower half of the address space that lie apart from the DMA
  -- buffer, and a store with the card's memory outside the buffer, where the mutex is free and no
  -- position is behind the end of its area. Whatever reads, writes and seeks are made on these
  -- files, in any order and with any answers of the controller by which no wait for a transfer is
  -- killed, their replies are those that the specification allows from this store on, and the
  -- store behind them agrees with the card again. The engine and the kernel's copies copy what
  -- they are told to, reads ask for MAX_RW_COUNT bytes at most, and `generic_file_llseek_size`
  -- leaves no position that is within the area for one behind it.
  pub serve-ServesAll :
      (calls : List Call) (d : Device) (bytes : ℕ → ℕ)
      → All IsCompleted calls
      → IsView dma areas d bytes
      → (b : ℕ → ℕ) × ServesAll areas calls
          (done calls d).0
          (store_of bytes d)
          (store_of b (done calls d).1)
        × IsView dma areas (done calls d).1 b
  unfolding serve
  serve-ServesAll [] d bytes sane v = (bytes, idle (store_of bytes d), v)
  serve-ServesAll (c ∷ calls) d bytes sane v =
      let (m, one, w) = handle-Serves c.file c.request c.answers d bytes sane.0.0 v in
      let (b, more, u) =
        serve-ServesAll calls (handled c.file c.request c.answers d).1 m sane.1 w in
      (
        b,
        served c calls _ _ (store_of bytes d) (store_of m (handled c.file c.request c.answers d).1)
            _ one more,
        u,
      )

-- A file is written where it stands, and then, wherever the position was moved to, read from the
-- same place: as far as both went, the reader's buffer has the writer's bytes, with zeros for
-- those that `copy_from_user` did not copy. This holds with any answers of the controller with
-- which both calls return a count, for an area in the lower half of the address space and apart
-- from the DMA buffer, with the mutex free at first, if engine and copies move what they are told
-- to and the read asks for MAX_RW_COUNT bytes at most.
pub amc_pci_dma_read-amc_pci_dma_write :
    (engine : Transfer → (ℕ → ℕ) → ℕ → ℕ) (copy_from_user copy_to_user : Copy)
    (context : MemoryContext) (copies : Copies engine) (from : CopiesFrom copy_from_user)
    (to : CopiesTo copy_to_user) (v : IsArea context) (a b : Answers) (count wanted n m : ℕ)
    (s : File) (out : ℕ → ℕ)
    → wanted ≤ max_rw_count
    → s.card.locked ≡ false
    → (amc_pci_dma_write engine copy_from_user copy_to_user context a count s).0 ≡ ok n
    → (amc_pci_dma_read engine copy_from_user copy_to_user context b wanted
        (record (amc_pci_dma_write engine copy_from_user copy_to_user context a count s).1 {
          f_pos = s.f_pos;
          user = out;
        })).0
      ≡ ok m
    → (i : ℕ) → i < n
    → i < m
    → (amc_pci_dma_read engine copy_from_user copy_to_user context b wanted
          (record (amc_pci_dma_write engine copy_from_user copy_to_user context a count s).1 {
            f_pos = s.f_pos;
            user = out;
          })).1.user
        i
      ≡ (if ltb i (count - (copy_from_user context.dma.buffer_dma count s.user s.card.memory).0)
          then s.user i
          else 0)
amc_pci_dma_read-amc_pci_dma_write engine copy_from_user copy_to_user context copies from to v a b
      count wanted n m s out sane free wrote got i lt_n lt_m =
    let after = (amc_pci_dma_write engine copy_from_user copy_to_user context a count s).1 in
    let safe =
      amc_pci_dma_write-IsSafeWrite engine copy_from_user copy_to_user context a copies from v count
        s free in
    let written =
      amc_pci_dma_write-IsWritten engine copy_from_user copy_to_user context a copies from v count s
        free in
    let delivered =
      amc_pci_dma_read-IsDelivered engine copy_from_user copy_to_user context b copies to v wanted
        sane (record after { f_pos = s.f_pos; user = out }) safe.free in
    (delivered.bytes m got).2 i lt_m ∙ (written.bytes n wrote).2 i lt_n
