-- ===== src/Registers/Preserved.antt =====
-- Every step of the register files of driver/registers.c keeps the invariant.
use amc_pci_dev.Prelude.{
  ℕ, suc, ◌+◌, ◌%◌, ◌^◌, ◌≤◌, ◌≡◌, ◌≢◌, refl, sym, ap, ◌∙◌, arith, true, false, ltb, Option, none,
  some, List, [], ◌∷◌, ◌++◌, length, length-append, All, update, Bool-cases, Option-cases, inl, inr,
  subst, fun_ext,
}
use mathlib.Core.Option.{some-injective}
use amc_pci_dev.Prelude.Op.{and_then}
use amc_pci_dev.Dma.{Transfer}
use amc_pci_dev.Interrupts.{InterruptControl, n_event_readers, assign_reader_number}
use amc_pci_dev.Interrupts.Slots.{IsAssigned, assign_reader_number-IsAssigned}
use amc_pci_dev.Interrupts.Delivery.{amc_pci_isr-IsHandled}
use amc_pci_dev.Registers.{
  Registers, RegisterContext, RegisterLocking, slot_taken, open_slot, owns, amc_pci_reg_open,
  amc_pci_reg_release, amc_pci_reg_ioctl, lock_register, unlock_register,
}
use amc_pci_dev.Registers.System.{
  System, Step, open_file, release_file, ioctl, irq, read_events, opened, Reachable, initial, step,
}
use amc_pci_dev.Registers.Invariant.{
  IsSound, Holds, Other, Distinct, count_taken, count_taken-le, count_taken-none,
  count_taken-assign, count_taken-unassign, All-middle, Distinct-middle, Holds-update, free-Other,
}
use amc_pci_dev.Memory.{
  Ioctl, amc_map_size, amc_buf_size, amc_reg_lock, amc_reg_unlock, amc_dma_area_size, unknown,
}

-- Only the slots and the lock count.
same-IsSound :
    (s : System) (r : Registers)
    → r.control.active_readers ≡ s.registers.control.active_readers
    → r.locking ≡ s.registers.locking
    → IsSound s
    → IsSound (record s { registers = r })
same-IsSound s r e l v = record {
  counted = ap RegisterLocking.reference_count l ∙ v.counted;
  taken = ap (count_taken n_event_readers) e ∙ v.taken;
  slots = subst (λ f. All (Holds f) s.files) (sym e) v.slots;
  distinct = v.distinct;
  alone = λ a h. v.alone a (sym (ap RegisterLocking.locked_by l) ∙ h);
}

-- A slot that was assigned and given back.
given_back :
    (s : System) (n : ℕ) (c : InterruptControl)
    → IsAssigned 0 n_event_readers s.registers.control (some n, c)
    → update c.active_readers n false ≡ s.registers.control.active_readers
given_back s n c h = fun_ext (λ j.
    ground
      (arith, h.found n refl, ap (λ (x : InterruptControl). x.active_readers j) (h.found n refl).4))

-- With the lock free, a new file in the slot that was assigned.
new-IsSound :
    (s : System) (n : ℕ) (c : InterruptControl)
    → IsAssigned 0 n_event_readers s.registers.control (some n, c)
    → IsSound s
    → (x : RegisterContext) → x.reader_number ≡ n
    → IsSound (record {
      registers = record {
        control = c;
        locking = record {
          reference_count = (s.registers.locking.reference_count + 1) % 2 ^ 32;
          locked_by = none;
        };
      };
      files = x ∷ s.files;
    })
new-IsSound s n c h v x e = record {
  counted = ground (arith, v.counted, one_more, count_taken-le n_event_readers c.active_readers);
  taken = one_more;
  slots = (
    (ground (arith, e, h.found n refl), ground (arith, e, now)),
    subst (λ f. All (Holds f) s.files) (sym now)
        (Holds-update s.registers.control.active_readers n true s.files others v.slots),
  );
  distinct = (subst (λ m. All (λ d. d.reader_number ≢ m) s.files) (sym e) others, v.distinct);
  alone = λ a w. cc;
}
  where
    now : c.active_readers ≡ update s.registers.control.active_readers n true
    now = ap InterruptControl.active_readers (h.found n refl).4

    one_more : count_taken n_event_readers c.active_readers ≡ suc (length s.files)
    one_more = omega (
      arith,
      ap (count_taken n_event_readers) now,
      count_taken-assign n_event_readers n s.registers.control.active_readers (h.found n refl).1
          (h.found n refl).2,
      v.taken,
    )

    others : All (λ d. d.reader_number ≢ n) s.files
    others = free-Other s.registers.control.active_readers n s.files (h.found n refl).2 v.slots

-- An open, given what the search for a slot returned.
open_file-IsSound :
    (s : System) (allocated : Option ℕ) (start len : ℕ) (p : Option ℕ × InterruptControl)
    → IsAssigned 0 n_event_readers s.registers.control p
    → IsSound s
    → IsSound (opened (and_then (slot_taken p s.registers) (open_slot allocated start len)) s.files)
open_file-IsSound s allocated start len (none, c) h v =
    same-IsSound s (record s.registers { control = c })
      (ap InterruptControl.active_readers (h.full refl).0) refl v
open_file-IsSound s none start len (some n, c) h v = same-IsSound s _ (given_back s n c h) refl v
open_file-IsSound s (some address) start len (some n, c) h v =
    elim (Option-cases s.registers.locking.locked_by) [
      | inl free ↦ rw free (new-IsSound s n c h v _ refl)
      | inr (a, locked) ↦ rw locked (
          same-IsSound s _ (given_back s n c h)
            (ap (λ o. record s.registers.locking { locked_by = o }) (sym locked)) v)
    ]

-- The only file that is open.
sole :
    (xs : List RegisterContext) (c : RegisterContext) (ys : List RegisterContext)
    (x : RegisterContext)
    → xs ++ c ∷ ys ≡ x ∷ []
    → c ≡ x
sole [] c ys x e = cc
sole (y ∷ xs) c ys x e = absurd (omega (arith, ap length e, length-append xs (c ∷ ys)))

sole_file :
    (xs : List RegisterContext) (c : RegisterContext) (ys : List RegisterContext)
    → length (xs ++ c ∷ ys) ≤ 1
    → xs ++ c ∷ ys ≡ c ∷ []
sole_file [] c [] h = refl
sole_file [] c (y ∷ ys) h = absurd (omega arith)
sole_file (x ∷ xs) c ys h = absurd (omega (arith, length-append xs (c ∷ ys)))

release_file-IsSound :
    (r : Registers) (xs : List RegisterContext) (c : RegisterContext) (ys : List RegisterContext)
    → IsSound (record { registers = r; files = xs ++ c ∷ ys })
    → IsSound (record { registers = amc_pci_reg_release c r; files = xs ++ ys })
unfolding amc_pci_reg_release
release_file-IsSound r xs c ys v = record {
  counted = ground (arith, v.counted, v.taken, few, length-append xs (c ∷ ys), length-append xs ys);
  taken = ground (arith, v.taken, fewer, length-append xs (c ∷ ys), length-append xs ys);
  slots = Holds-update r.control.active_readers c.reader_number false (xs ++ ys) others.0 held.1;
  distinct = others.1;
  alone = λ a h.
      let still : r.locking.locked_by ≡ some a = ground arith in
      let (x, e, same) = v.alone a still in
      absurd (ground (arith, still, h, ap RegisterContext.address (sole xs c ys x e) ∙ same));
}
  where
    others : All (Other c) (xs ++ ys) × Distinct (xs ++ ys)
    others = Distinct-middle xs c ys v.distinct

    held : Holds r.control.active_readers c × All (Holds r.control.active_readers) (xs ++ ys)
    held = All-middle (Holds r.control.active_readers) xs c ys v.slots

    few : count_taken n_event_readers r.control.active_readers ≤ n_event_readers
    few = count_taken-le n_event_readers r.control.active_readers

    fewer :
        count_taken n_event_readers (update r.control.active_readers c.reader_number false) + 1
        ≡ count_taken n_event_readers r.control.active_readers
    fewer =
        count_taken-unassign n_event_readers c.reader_number r.control.active_readers held.0.0
          held.0.1

-- A new owner of the lock has to be alone.
owner-IsSound :
    (s : System) (o : Option ℕ)
    → ((a : ℕ) → o ≡ some a → (c : RegisterContext) × (s.files ≡ c ∷ []) × (c.address ≡ a))
    → IsSound s
    → IsSound (record s {
      registers = record s.registers { locking = record s.registers.locking { locked_by = o } };
    })
owner-IsSound s o h v = record {
  counted = v.counted;
  taken = v.taken;
  slots = v.slots;
  distinct = v.distinct;
  alone = h;
}

-- A command on a file that is open.
ioctl-IsSound :
    (r : Registers) (xs : List RegisterContext) (c : RegisterContext) (ys : List RegisterContext)
    (cmd : Ioctl)
    → IsSound (record { registers = r; files = xs ++ c ∷ ys })
    → IsSound (record { registers = (amc_pci_reg_ioctl c cmd r).1; files = xs ++ c ∷ ys })
unfolding amc_pci_reg_ioctl lock_register unlock_register
ioctl-IsSound r xs c ys amc_reg_lock v = elim (Bool-cases (ltb 1 r.locking.reference_count)) [
  | inl busy ↦ rw (busy, lock_register) v
  | inr idle ↦ elim (Option-cases r.locking.locked_by) [
    | inl free ↦
        rw (idle, lock_register, free)
          (owner-IsSound (record { registers = r; files = xs ++ c ∷ ys }) (some c.address)
            (λ a e.
              (c, sole_file xs c ys (ground (arith, v.counted)), some-injective c.address a e))
            v)
    | inr (a, locked) ↦
        subst (λ (t : Registers). IsSound (record { registers = t; files = xs ++ c ∷ ys }))
          (ground (arith, locked)) v
  ]
]
ioctl-IsSound r xs c ys amc_reg_unlock v = elim (Bool-cases (owns c r.locking)) [
  | inl owner ↦
      rw (owner, unlock_register)
        (owner-IsSound (record { registers = r; files = xs ++ c ∷ ys }) none (λ a e. cc) v)
  | inr other ↦ rw (other, unlock_register) v
]
ioctl-IsSound r xs c ys amc_map_size v = v
ioctl-IsSound r xs c ys amc_buf_size v = v
ioctl-IsSound r xs c ys amc_dma_area_size v = v
ioctl-IsSound r xs c ys (unknown n) v = v

module _ (engine : Transfer → (ℕ → ℕ) → ℕ → ℕ) where
  Step-IsSound : (s t : System) → Step engine s t → IsSound s → IsSound t
  unfolding amc_pci_reg_open
  Step-IsSound _ _ (open_file s allocated start len) v =
      open_file-IsSound s allocated start len (assign_reader_number s.registers.control)
        (assign_reader_number-IsAssigned s.registers.control) v
  Step-IsSound _ _ (release_file r xs c ys) v = release_file-IsSound r xs c ys v
  Step-IsSound _ _ (ioctl r xs c ys cmd) v = ioctl-IsSound r xs c ys cmd v
  Step-IsSound _ _ (irq s isr dma_status) v =
      same-IsSound s _ (amc_pci_isr-IsHandled engine isr dma_status s.registers.control).readers
        refl v
  Step-IsSound _ _ (read_events s reader) v = same-IsSound s _ refl refl v

  -- However register files are opened, released, locked, unlocked and read, and whatever
  -- interrupts come: the reference count is the number of open files, which is the number of slots
  -- taken, so none is lost; each open file has a slot of its own, below 8; and a file that holds
  -- the exclusive lock is the only one that is open.
  pub Reachable-IsSound : (s : System) → Reachable engine s → IsSound s
  Reachable-IsSound _ (initial s h) = record {
    counted = h.no_count ∙ sym (ap length h.no_files);
    taken =
        ap (count_taken n_event_readers) h.no_slots
        ∙ count_taken-none n_event_readers
        ∙ sym (ap length h.no_files);
    slots = subst (All (Holds s.registers.control.active_readers)) (sym h.no_files) tt;
    distinct = subst Distinct (sym h.no_files) tt;
    alone = λ a e. absurd (ground (arith, e, h.no_owner));
  }
  Reachable-IsSound _ (step s t h x) = Step-IsSound s t x (Reachable-IsSound s h)
