-- ===== src/Memory/View.antt =====
-- How the store of Spec stands for the card and its open files, driver/memory.c.
use amc_pci_dev.Prelude.{
  ℕ, ◌+◌, ◌-◌, ◌≤◌, ◌<◌, ◌≡◌, sym, ap, ◌∙◌, arith, fun_ext, true, false, ◌⊎◌, inl, inr, update, ok,
  dec_lt,
}
use amc_pci_dev.Dma.{DmaControl}
use amc_pci_dev.Memory.{Seek}
use amc_pci_dev.Memory.Plan.{max_rw_count}
use amc_pci_dev.Memory.Files.{Area, Request, write, read, llseek, Call, Device}
use amc_pci_dev.Memory.Spec.{Store, overwrite}

-- The kernel cuts the count of a read to MAX_RW_COUNT.
abbrev pub IsSane : Request → Type 0
IsSane (write user count) = Unit {0}
IsSane (read user count) = count ≤ max_rw_count
IsSane (llseek offset whence) = Unit {0}

-- A call on a file that asks for no more than the kernel lets through, and whose wait for the
-- controller is not killed. What a transfer does behind a killed wait is not in the model.
abbrev pub IsCompleted : Call → Type 0
IsCompleted c = IsSane c.request × (c.answers.completes ≡ true)

-- `generic_file_llseek_size` returns no position behind the largest one, if the file does not
-- stand behind it: it returns the present position unchecked for `SEEK_CUR` with an offset of 0.
abbrev pub Bounded : Seek → Type 0
Bounded seek =
    (f_pos offset whence maxsize eof pos : ℕ)
    → f_pos ≤ maxsize
    → seek f_pos offset whence maxsize eof ≡ ok pos
    → pos ≤ maxsize

abbrev pub store_of : (ℕ → ℕ) → Device → Store
store_of bytes d = record { bytes = bytes; f_pos = d.f_pos }

-- The store has the card's memory but for the DMA buffer; between calls the mutex is free, and no
-- position is behind the end of its area.
pub record IsView (dma : DmaControl) (areas : ℕ → Area) (d : Device) (bytes : ℕ → ℕ) : Type 0 where
  pub same :
      (j : ℕ)
      → (j < dma.buffer_dma) ⊎ (dma.buffer_dma + dma.buffer_size ≤ j)
      → d.card.memory j ≡ bytes j
  pub inside : (file : ℕ) → d.f_pos file ≤ (areas file).length
  pub free : d.card.locked ≡ false

pub update_same : (f : ℕ → ℕ) (i : ℕ) → update f i (f i) ≡ f
update_same f i = fun_ext (λ j. ground arith)

pub overwrite-eq :
    (memory bytes new : ℕ → ℕ) (at n : ℕ)
    → ((i : ℕ) → i < n → memory (at + i) ≡ new i)
    → (j : ℕ) → ((j < at) ⊎ (at + n ≤ j) → memory j ≡ bytes j)
    → memory j ≡ overwrite bytes at n new j
overwrite-eq memory bytes new at n inner j outer = elim (dec_lt j at) [
  | yes below ↦ ground (arith, below, outer (inl below))
  | no from ↦ elim (dec_lt j (at + n)) [
    | no above ↦ ground (arith, above, outer (inr (omega arith)))
    | yes within ↦
        let same : at + (j - at) ≡ j = omega arith in
        ap memory (sym same) ∙ inner (j - at) (omega arith) ∙ ground (arith, from, within)
  ]
]
