-- ===== src/Registers/System.antt =====
-- The register files of one card as a system: the files that are open, and the steps that they and
-- the card make.
use amc_pci_dev.Prelude.{ℕ, ◌≡◌, false, Option, none, List, [], ◌∷◌, ◌++◌, Result, ok, err}
use amc_pci_dev.Dma.{Transfer}
use amc_pci_dev.Interrupts.{InterruptControl, interrupt, take, act}
use amc_pci_dev.Registers.{
  Registers, RegisterContext, amc_pci_reg_open, amc_pci_reg_release, amc_pci_reg_ioctl,
}
use amc_pci_dev.Memory.{Ioctl}

pub record System : Type 0 where
  pub registers : Registers
  -- the open register files
  pub files : List RegisterContext

-- The system after an open: the new file, if there is one.
abbrev pub opened : Result RegisterContext × Registers → List RegisterContext → System
opened (ok c, r) files = record { registers = r; files = c ∷ files }
opened (err e, r) files = record { registers = r; files = files }

abbrev pub on_control : (InterruptControl → InterruptControl) → Registers → Registers
on_control f r = record r { control = f r.control }

module _ (engine : Transfer → (ℕ → ℕ) → ℕ → ℕ) where
  pub data Step : System → System → Type 0 where
    open_file :
        (s : System) (allocated : Option ℕ) (start len : ℕ)
        → Step s (opened (amc_pci_reg_open allocated start len s.registers) s.files)
    release_file :
        (r : Registers) (xs : List RegisterContext) (c : RegisterContext)
        (ys : List RegisterContext)
        → Step
            (record { registers = r; files = xs ++ c ∷ ys })
            (record { registers = amc_pci_reg_release c r; files = xs ++ ys })
    ioctl :
        (r : Registers) (xs : List RegisterContext) (c : RegisterContext)
        (ys : List RegisterContext) (cmd : Ioctl)
        → Step
            (record { registers = r; files = xs ++ c ∷ ys })
            (record { registers = (amc_pci_reg_ioctl c cmd r).1; files = xs ++ c ∷ ys })
    irq :
        (s : System) (isr dma_status : ℕ)
        → Step s (record s {
          registers = on_control (act engine (interrupt isr dma_status)) s.registers;
        })
    read_events :
        (s : System) (reader : ℕ)
        → Step s (record s { registers = on_control (act engine (take reader)) s.registers })

  -- As the probe leaves it: no file is open, no slot is taken, and the lock is free.
  pub record IsInitial (s : System) : Type 0 where
    pub no_files : s.files ≡ []
    pub no_slots : s.registers.control.active_readers ≡ (λ i. false)
    pub no_count : s.registers.locking.reference_count ≡ 0
    pub no_owner : s.registers.locking.locked_by ≡ none

  pub data Reachable : System → Type 0 where
    initial : (s : System) → IsInitial s → Reachable s
    step : (s t : System) → Reachable s → Step s t → Reachable t
