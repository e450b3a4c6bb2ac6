-- ===== src/Memory/Outcomes.antt =====
-- What a read and a write of driver/memory.c come to.
use amc_pci_dev.Prelude.{
  ℕ, ◌+◌, ◌%◌, ◌≤◌, ◌<◌, ◌≡◌, ◌≢◌, false, ltb, if◌then◌else◌, ◌⊎◌, Result, ok, ◌∷◌,
}
use amc_pci_dev.Dma.{Transfer}
use amc_pci_dev.Memory.{MemoryContext, File}
use amc_pci_dev.Memory.Lock.{next_pos}

-- A transfer between the DMA buffer and the area: inside both, and a multiple of the alignment.
abbrev pub IsInside : MemoryContext → ℕ → ℕ → ℕ → Type 0
IsInside context buffer card count =
    (buffer ≡ context.dma.buffer_dma)
    × (count ≤ context.dma.buffer_size)
    × (context.base ≤ card)
    × (card + count ≤ context.base + context.length)
    × (card % context.dma.alignment ≡ 0)
    × (count % context.dma.alignment ≡ 0)

-- What a read does to the card: the mutex is free again, one transfer at most is made, from the
-- area to the buffer, and no memory outside the buffer changes.
pub record IsSafeRead (context : MemoryContext) (s : File) (r : Result ℕ × File) : Type 0 where
  pub free : r.1.card.locked ≡ false
  pub transfer :
      (r.1.card.transfers ≡ s.card.transfers)
      ⊎ ((t : Transfer) × (r.1.card.transfers ≡ t ∷ s.card.transfers)
          × IsInside context t.dst t.src t.count)
  pub kept :
      (j : ℕ)
      → (j < context.dma.buffer_dma) ⊎ (context.dma.buffer_dma + context.dma.buffer_size ≤ j)
      → r.1.card.memory j ≡ s.card.memory j

-- What a read gives: on success with `n` bytes, the area's bytes at the position.
pub record IsDelivered (context : MemoryContext) (count : ℕ) (s : File) (r : Result ℕ × File)
    : Type 0 where
  pub bytes :
      (n : ℕ)
      → r.0 ≡ ok n
      → (n ≤ count)
        × (s.f_pos + n ≤ context.length)
        × ((i : ℕ) → i < n → r.1.user i ≡ s.card.memory (context.base + s.f_pos + i))
        × (r.1.f_pos ≡ next_pos context s.f_pos n)
  pub unmoved : ((n : ℕ) → r.0 ≢ ok n) → r.1.f_pos ≡ s.f_pos

-- What a write does to the card: the mutex is free again, one transfer at most is made, from the
-- buffer to the area, and no memory changes outside the buffer and the `count` bytes at the
-- position.
pub record IsSafeWrite (context : MemoryContext) (count : ℕ) (s : File) (r : Result ℕ × File)
    : Type 0 where
  pub free : r.1.card.locked ≡ false
  pub transfer :
      (r.1.card.transfers ≡ s.card.transfers)
      ⊎ ((t : Transfer) × (r.1.card.transfers ≡ t ∷ s.card.transfers)
          × IsInside context t.src t.dst t.count)
  pub kept :
      (j : ℕ)
      → (j < context.dma.buffer_dma) ⊎ (context.dma.buffer_dma + context.dma.buffer_size ≤ j)
      → (j < context.base + s.f_pos) ⊎ (context.base + s.f_pos + count ≤ j)
      → r.1.card.memory j ≡ s.card.memory j

-- What a write gives: on success with `n` bytes, the area holds the user's bytes at the position,
-- and zeros for those among them that could not be copied from the user.
pub record IsWritten (context : MemoryContext) (copied count : ℕ) (s : File) (r : Result ℕ × File)
    : Type 0 where
  pub bytes :
      (n : ℕ)
      → r.0 ≡ ok n
      → (n ≤ count)
        × (s.f_pos + n ≤ context.length)
        × ((i : ℕ)
            → i < n
            → r.1.card.memory (context.base + s.f_pos + i) ≡ (if ltb i copied then s.user i else 0))
        × (r.1.f_pos ≡ next_pos context s.f_pos n)
  -- Behind the `n` bytes nothing changes, but for the buffer.
  pub rest :
      (n j : ℕ)
      → r.0 ≡ ok n
      → (j < context.dma.buffer_dma) ⊎ (context.dma.buffer_dma + context.dma.buffer_size ≤ j)
      → (j < context.base + s.f_pos) ⊎ (context.base + s.f_pos + n ≤ j)
      → r.1.card.memory j ≡ s.card.memory j
  pub unmoved : ((n : ℕ) → r.0 ≢ ok n) → r.1.f_pos ≡ s.f_pos
