-- ===== src/Dma/Laws.antt =====
-- What one DMA operation of driver/dma_control.c does, on every path.
use amc_pci_dev.Prelude.{
  ℕ, ◌+◌, ◌*◌, ◌/◌, ◌^◌, ◌<◌, ◌≡◌, refl, arith, Bool, true, false, not, ◌&&◌, ◌||◌, ltb,
  if◌then◌else◌, ◌∷◌, is_aligned, u32, Result, ok, err, eio, einval, erestartsys, Option, some,
  none, subst, ◌∙◌, min,
}
use mathlib.Core.Option.{some-injective}
use amc_pci_dev.Prelude.Op.{Op, and_then, pure, ◌>>◌}
use amc_pci_dev.Dma.{
  Dma, DmaControl, dma_bidirectional, dma_none, Transfer, Answers, Direction, dma_to_device,
  dma_from_device, has_bits, poll_reset, cdmacr_reset, cdmasr_errors, cdmasr_idle, maybe_reset_dma,
  configure_dma_engine, dma_operation_unlocked, wait_for_completion, check_dma_status,
}

-- The controller needs no reset, or the reset completes before the deadline.
abbrev pub is_ready : Answers → Bool
is_ready a =
    not (has_bits a.status cdmasr_errors || not (has_bits a.status cdmasr_idle))
    || not (has_bits (poll_reset a.first_poll a.more_polls) cdmacr_reset)

abbrev pub all_aligned : DmaControl → ℕ → ℕ → ℕ → Bool
all_aligned dma src dst count =
    is_aligned src dma.alignment && is_aligned dst dma.alignment && is_aligned count dma.alignment

module _ (engine : Transfer → (ℕ → ℕ) → ℕ → ℕ) where
  -- Nothing was transferred.
  pub record IsIdle (s t : Dma) : Type 0 where
    pub memory : t.memory ≡ s.memory
    pub transfers : t.transfers ≡ s.transfers
    pub locked : t.locked ≡ s.locked

  -- The engine was started once, on this transfer.
  pub record HasRun (x : Transfer) (s t : Dma) : Type 0 where
    pub memory : t.memory ≡ engine x s.memory
    pub transfers : t.transfers ≡ x ∷ s.transfers
    pub locked : t.locked ≡ s.locked

  maybe_reset_dma_lem :
      (a : Answers) (s : Dma)
      → ((maybe_reset_dma engine a s).0 ≡ (if is_ready a then ok tt else err eio))
        × IsIdle s (maybe_reset_dma engine a s).1
        × ((maybe_reset_dma engine a s).1.source ≡ s.source)
  unfolding maybe_reset_dma
  maybe_reset_dma_lem a s = (ground arith, ground arith, ground arith)

  module _ (dma : DmaControl) where
    configure_dma_engine_lem :
        (a : Answers) (src dst count : ℕ) (s : Dma)
        → src < 2 ^ 64
        → dst < 2 ^ 64
        → count < 2 ^ 32
        → ((configure_dma_engine engine dma a src dst count s).0 ≡ (
            if all_aligned dma src dst count
            then (if is_ready a then ok tt else err eio)
            else err einval))
          × (all_aligned dma src dst count && is_ready a ≡ true
              → HasRun
                  (record { src = src; dst = dst; count = count })
                  s
                  (configure_dma_engine engine dma a src dst count s).1)
          × (all_aligned dma src dst count && is_ready a ≡ false
              → IsIdle s (configure_dma_engine engine dma a src dst count s).1)
    unfolding configure_dma_engine
    configure_dma_engine_lem a src dst count s hs hd hc = (
      ground arith,
      λ h. record {
        memory = ground (arith, same);
        transfers = ground (arith, same);
        locked = ground arith;
      },
      λ h. record { memory = ground arith; transfers = ground arith; locked = ground arith },
    )
      where
        same :
            ◌≡◌ {A = Transfer}
              (record {
                src = u32 src + 2 ^ 32 * u32 (src / 2 ^ 32);
                dst = u32 dst + 2 ^ 32 * u32 (dst / 2 ^ 32);
                count = u32 count;
              })
              (record { src = src; dst = dst; count = count })
        same = ground arith

    -- The transfer that an operation asks for, if its direction is one of the two.
    abbrev pub requested : Direction → ℕ → ℕ → Option Transfer
    requested dma_to_device start count =
        some (record { src = dma.buffer_dma; dst = start; count = count })
    requested dma_from_device start count =
        some (record { src = start; dst = dma.buffer_dma; count = count })
    requested _ start count = none

    abbrev pub is_started : Answers → Transfer → Bool
    is_started a t = all_aligned dma t.src t.dst t.count && is_ready a

    -- The result of an operation, by what happens first.
    abbrev pub outcome : Answers → Transfer → Result ℕ
    outcome a t =
        if not (all_aligned dma t.src t.dst t.count)
        then err einval
        else if not (is_ready a)
        then err eio
        else if not a.completes
        then err erestartsys
        else if has_bits a.status_after cdmasr_errors
        then err eio
        else ok t.count

    -- The operation from the configuration on.
    abbrev operate : Answers → ℕ → ℕ → ℕ → Op Dma ℕ
    operate a src dst count = do
      configure_dma_engine engine dma a src dst count
      wait_for_completion engine dma a
      check_dma_status engine a
      pure count

    abbrev Operated : Answers → Transfer → Dma → Result ℕ × Dma → Type 0
    Operated a t s r =
        (r.0 ≡ outcome a t)
        × (is_started a t ≡ true → HasRun t s r.1)
        × (is_started a t ≡ false → IsIdle s r.1)

    -- Behind the configuration nothing is transferred.
    abbrev waited : Answers → ℕ → Result (Unit {0}) × Dma → Result ℕ × Dma
    waited a count p =
        and_then p (λ _. do wait_for_completion engine dma a; check_dma_status engine a; pure count)

    waited-IsIdle :
        (a : Answers) (count : ℕ) (p : Result (Unit {0}) × Dma) → IsIdle p.1 (waited a count p).1
    waited-IsIdle a count (ok u, s) = record {
      memory = ground arith;
      transfers = ground arith;
      locked = ground arith;
    }
    waited-IsIdle a count (err e, s) = record { memory = refl; transfers = refl; locked = refl }

    operate_lem :
        (a : Answers) (t : Transfer) (s : Dma)
        → t.src < 2 ^ 64
        → t.dst < 2 ^ 64
        → t.count < 2 ^ 32
        → Operated a t s (operate a t.src t.dst t.count (record s { done = false }))
    operate_lem a t s hs hd hc = (
      ground (arith, conf),
      λ h. record {
        memory = idle.memory ∙ (conf.1 h).memory;
        transfers = idle.transfers ∙ (conf.1 h).transfers;
        locked = idle.locked ∙ (conf.1 h).locked;
      },
      λ h. record {
        memory = idle.memory ∙ (conf.2 h).memory;
        transfers = idle.transfers ∙ (conf.2 h).transfers;
        locked = idle.locked ∙ (conf.2 h).locked;
      },
    )
      where
        s' : Dma
        s' = record s { done = false }

        conf :
            ((configure_dma_engine engine dma a t.src t.dst t.count s').0 ≡ (
              if all_aligned dma t.src t.dst t.count
              then (if is_ready a then ok tt else err eio)
              else err einval))
            × (is_started a t ≡ true
                → HasRun t s' (configure_dma_engine engine dma a t.src t.dst t.count s').1)
            × (is_started a t ≡ false
                → IsIdle s' (configure_dma_engine engine dma a t.src t.dst t.count s').1)
        conf = configure_dma_engine_lem a t.src t.dst t.count s' hs hd hc

        idle :
            IsIdle
              (configure_dma_engine engine dma a t.src t.dst t.count s').1
              (operate a t.src t.dst t.count s').1
        idle = waited-IsIdle a t.count (configure_dma_engine engine dma a t.src t.dst t.count s')

    min-eq : (m n : ℕ) → (if ltb m n then m else n) ≡ min m n
    min-eq m n = ground arith

    -- A DMA operation in one of the two directions, with 64-bit addresses and a transfer limit of
    -- 32 bits, asks for one transfer between the card and the buffer, of the smaller of the count
    -- and the limit. It returns what `outcome` says: -EINVAL if an address or the count is not
    -- aligned, else -EIO if the controller needs a reset that does not complete, else -ERESTARTSYS
    -- if the process is killed before the completion, else -EIO if the status then shows an error,
    -- else the count. In the first two cases nothing is transferred; in the others the engine runs
    -- exactly once, on that transfer. The mutex is left as it was.
    pub dma_operation_unlocked_lem :
        (a : Answers) (start count : ℕ) (dir : Direction) (s : Dma) (t : Transfer)
        → requested dir start (min dma.max_transfer count) ≡ some t
        → start < 2 ^ 64
        → dma.buffer_dma < 2 ^ 64
        → dma.max_transfer < 2 ^ 32
        → ((dma_operation_unlocked engine dma a start count dir s).0 ≡ outcome a t)
          × (is_started a t ≡ true
              → HasRun t s (dma_operation_unlocked engine dma a start count dir s).1)
          × (is_started a t ≡ false
              → IsIdle s (dma_operation_unlocked engine dma a start count dir s).1)
    unfolding dma_operation_unlocked
    dma_operation_unlocked_lem a start count dma_to_device s t e hs hb hm =
        let x : Transfer = record {
          src = dma.buffer_dma;
          dst = start;
          count = min dma.max_transfer count;
        } in
        let done : Operated a x s
            (dma_operation_unlocked engine dma a start count dma_to_device s) =
          rw (min-eq dma.max_transfer count) (operate_lem a x s hb hs (omega arith)) in
        subst
          (λ (y : Transfer).
            Operated a y s (dma_operation_unlocked engine dma a start count dma_to_device s))
          (some-injective x t e) done
    dma_operation_unlocked_lem a start count dma_from_device s t e hs hb hm =
        let x : Transfer = record {
          src = start;
          dst = dma.buffer_dma;
          count = min dma.max_transfer count;
        } in
        let done : Operated a x s
            (dma_operation_unlocked engine dma a start count dma_from_device s) =
          rw (min-eq dma.max_transfer count) (operate_lem a x s hs hb (omega arith)) in
        subst
          (λ (y : Transfer).
            Operated a y s (dma_operation_unlocked engine dma a start count dma_from_device s))
          (some-injective x t e) done
    dma_operation_unlocked_lem a start count dma_bidirectional s t e hs hb hm = cc
    dma_operation_unlocked_lem a start count dma_none s t e hs hb hm = cc
