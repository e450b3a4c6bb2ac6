-- ===== src/Registers/Stream.antt =====
-- `amc_pci_reg_read` and `amc_pci_reg_mmap` of driver/registers.c.
use amc_pci_dev.Prelude.{
  ℕ, ◌+◌, ◌-◌, ◌*◌, ◌/◌, ◌%◌, ◌^◌, ◌≤◌, ◌<◌, ◌≡◌, ◌≢◌, refl, arith, Bool, true, false, ◌==◌, ltb,
  if◌then◌else◌, Option, none, some, List, [], Result, ok, err, eagain, erestartsys, einval,
  Bool-cases, inl, inr,
}
use amc_pci_dev.Dma.{Transfer}
use amc_pci_dev.Interrupts.{InterruptControl, Action, Wakeup, acts, read_interrupt_events}
use amc_pci_dev.Interrupts.Waiting.{IsWaited, signalled, read_interrupt_events_lem}
use amc_pci_dev.Registers.{
  RegisterContext, Reading, amc_pci_reg_read, amc_pci_reg_mmap, read_end, page_shift,
}

-- What a read comes to.
pub record IsStreamed (reader : ℕ) (interrupted : Bool) (r : Option (Result ℕ) × Reading)
    : Type 0 where
  pub some_events :
      (n : ℕ) → r.0 ≡ some (ok n) → (n ≡ 4) × ((e : ℕ) × (r.1.user ≡ some e) × (0 < e))
  pub by_signal : r.0 ≡ some (err erestartsys) → interrupted ≡ true

module _ (engine : Transfer → (ℕ → ℕ) → ℕ → ℕ) (context : RegisterContext) (count : ℕ) where
  -- With a control that the test for events and the others have left.
  end-IsStreamed :
      (ws : List Wakeup) (copied : Bool) (user : Option ℕ) (c : InterruptControl)
      → IsStreamed context.reader_number
          (signalled ws)
          (read_end copied user (read_interrupt_events engine false context.reader_number ws c))
  end-IsStreamed ws copied user c =
      let w = (read_interrupt_events_lem engine context.reader_number ws c).0 in
      ended (read_interrupt_events engine false context.reader_number ws c) w
    where
      ended :
          (p : Option (Result ℕ) × InterruptControl)
          → IsWaited (signalled ws) context.reader_number p
          → IsStreamed context.reader_number (signalled ws) (read_end copied user p)
      ended (none, d) w = record { some_events = λ n e. cc; by_signal = λ e. cc }
      ended (some (err x), d) w = record {
        some_events = λ n e. cc;
        by_signal = λ e. ground (arith, e, w.by_signal x refl);
      }
      ended (some (ok events), d) w = record {
        some_events =
            λ n e. (ground (arith, e), (events, ground (arith, e), w.some_events events refl));
        by_signal = λ e. ground (arith, e);
      }

  -- A blocking read that returns a count returns 4, with events other than 0 in the user's buffer,
  -- and it returns -ERESTARTSYS only after a signal. A read with O_NONBLOCK always returns, and
  -- while nobody else takes the reader's events, the buffer has room for four bytes and the copy
  -- succeeds, it returns -EAGAIN if no events are pending, and else 4, with all of them in the
  -- user's buffer, and none pending afterwards.
  pub amc_pci_reg_read_lem :
      (between : List Action) (ws : List Wakeup) (copied : Bool) (s : Reading)
      → IsStreamed context.reader_number
          (signalled ws)
          (amc_pci_reg_read engine context false count between ws copied s)
        × ((amc_pci_reg_read engine context true count between ws copied s).0 ≢ none)
        × (4 ≤ count
            → (amc_pci_reg_read engine context true count [] ws true s).0
              ≡ some (if s.control.events context.reader_number == 0 then err eagain else ok 4))
        × (4 ≤ count
            → s.control.events context.reader_number ≢ 0
            → ((amc_pci_reg_read engine context true count [] ws true s).1.user
                ≡ some (s.control.events context.reader_number))
              × ((amc_pci_reg_read engine context true count [] ws true s).1.control.events
                    context.reader_number
                  ≡ 0))
  unfolding amc_pci_reg_read acts
  amc_pci_reg_read_lem between ws copied s = (
    elim (Bool-cases (ltb count 4)) [
      | inl short ↦
          rw (short, amc_pci_reg_read)
            (record { some_events = λ n e. cc; by_signal = λ e. ground (arith, e) })
      | inr long ↦
          rw (long, amc_pci_reg_read)
            (end-IsStreamed ws copied s.user (acts engine between s.control))
    ],
    (λ e. ground (arith, e)),
    (λ h. ground arith),
    (λ h some_pending. (ground arith, ground arith)),
  )

-- On a BAR0 at a page boundary, and for a range whose end in bytes fits 64 bits, as the kernel
-- makes sure of: a mapping is refused with -EINVAL if the range ends behind BAR0, and otherwise
-- maps pages of the physical address space that lie within BAR0.
pub amc_pci_reg_mmap_lem :
    (remap : ℕ → ℕ → Result (Unit {0})) (context : RegisterContext)
    (start vm_start vm_end vm_pgoff : ℕ)
    → start % 2 ^ page_shift ≡ 0
    → context.base_page ≡ start / 2 ^ page_shift
    → start + context.length < 2 ^ 64
    → vm_start ≤ vm_end
    → vm_end < 2 ^ 64
    → vm_pgoff * 2 ^ page_shift + (vm_end - vm_start) < 2 ^ 64
    → (context.length < vm_pgoff * 2 ^ page_shift + (vm_end - vm_start)
        → amc_pci_reg_mmap remap context vm_start vm_end vm_pgoff ≡ err einval)
      × (vm_pgoff * 2 ^ page_shift + (vm_end - vm_start) ≤ context.length
          → (pfn : ℕ) × (amc_pci_reg_mmap remap context vm_start vm_end vm_pgoff
              ≡ remap pfn (vm_end - vm_start))
            × (start ≤ pfn * 2 ^ page_shift)
            × (pfn * 2 ^ page_shift + (vm_end - vm_start) ≤ start + context.length))
unfolding amc_pci_reg_mmap
amc_pci_reg_mmap_lem remap context start vm_start vm_end vm_pgoff a b c d e f = (
  (λ over. ground arith),
  (λ fits. (context.base_page + vm_pgoff, ground arith, omega arith, omega arith)),
)
