-- ===== src/Core/Lifetime.antt =====
-- The life of a card in driver/amc_pci_core.c: files that come and go, and the removal that waits
-- for the last of them before it frees what they use.
use amc_pci_dev.Prelude.{
  ℕ, suc, ◌+◌, ◌≡◌, ◌≢◌, ap, ◌∙◌, arith, Bool, true, false, ◌==◌, if◌then◌else◌, Option, Result, ok,
  err, enxio, inl, inr,
}
use amc_pci_dev.Core.{AmcPci, AccessMode, FileData, amc_pci_open, amc_pci_release, drop_driver}
use amc_pci_dev.Core.Opening.{Counted, amc_pci_open-Counted, amc_pci_open-gone}

-- `removing` is set from the removal's `wait_for_clients` on, and `freed` behind its wait.
pub record Life : Type 0 where
  pub card : AmcPci
  pub files : ℕ
  pub removing : Bool
  pub freed : Bool

-- The life behind an open.
abbrev pub opened : Result FileData × AmcPci → Life → Life
opened (ok f, card) s = record s { card = card; files = s.files + 1 }
opened (err e, card) s = record s { card = card }

pub data LifeStep : Life → Life → Type 0 where
  open_file :
      (s : Life) (mode : AccessMode) (allocated : Option ℕ) (start len iminor : ℕ)
      → s.freed ≡ false
      → LifeStep s (opened (amc_pci_open mode allocated start len iminor s.card) s)
  close_file :
      (s : Life) (n : ℕ)
      → s.files ≡ suc n
      → LifeStep s (record s { card = amc_pci_release s.card; files = n })
  remove :
      (s : Life)
      → s.removing ≡ false
      → LifeStep s (record s { card = drop_driver s.card; removing = true })
  -- `wait_for_completion` returns, and the resources are freed.
  free :
      (s : Life)
      → s.removing ≡ true
      → s.card.completed ≡ true
      → LifeStep s (record s { freed = true })

-- As the probe leaves the card.
pub record IsProbed (s : Life) : Type 0 where
  pub one_user : s.card.refcount ≡ 1
  pub not_completed : s.card.completed ≡ false
  pub no_files : s.files ≡ 0
  pub not_removing : s.removing ≡ false
  pub not_freed : s.freed ≡ false

pub data Lives : Life → Type 0 where
  probed : (s : Life) → IsProbed s → Lives s
  then_ : (s t : Life) → Lives s → LifeStep s t → Lives t

abbrev pub users : Life → ℕ
users s = if s.removing then s.files else s.files + 1

-- Every open file and the driver are counted; the completion is given exactly when nobody is left;
-- and what the files use is freed only then.
pub record IsAlive (s : Life) : Type 0 where
  pub counted : s.card.refcount ≡ users s
  pub completes : s.card.completed ≡ (s.card.refcount == 0)
  pub frees : s.freed ≡ true → (s.files ≡ 0) × (s.removing ≡ true)

open_file-IsAlive :
    (s : Life) (r : Result FileData × AmcPci)
    → Counted s.card r
    → (s.card.refcount ≡ 0 → r ≡ (err enxio, s.card))
    → s.freed ≡ false
    → IsAlive s
    → IsAlive (opened r s)
open_file-IsAlive s (ok f, card) (same, inl (g, e, more)) gone live v = record {
  counted = ground (arith, more, v.counted);
  completes = ground (arith, same, more, v.completes, used);
  frees = λ x. absurd (ground (arith, x, live));
}
  where
    used : s.card.refcount ≢ 0
    used z = absurd (ground (arith, ap (λ (q : Result FileData × AmcPci). q.0) (gone z)))
open_file-IsAlive s (ok f, card) (same, inr (x, e, less)) gone live v = absurd (ground (arith, e))
open_file-IsAlive s (err x, card) (same, inl (f, e, more)) gone live v = absurd (ground (arith, e))
open_file-IsAlive s (err x, card) (same, inr (y, e, less)) gone live v = record {
  counted = less ∙ v.counted;
  completes = ground (arith, same, less, v.completes);
  frees = λ x. absurd (ground (arith, x, live));
}

step-IsAlive : (s t : Life) → LifeStep s t → IsAlive s → IsAlive t
unfolding amc_pci_release
step-IsAlive _ _ (open_file s mode allocated start len iminor live) v =
    open_file-IsAlive s (amc_pci_open mode allocated start len iminor s.card)
      (amc_pci_open-Counted mode allocated start len iminor s.card)
      (amc_pci_open-gone mode allocated start len iminor s.card) live v
step-IsAlive _ _ (close_file s n e) v = record {
  counted = ground (arith, e, v.counted);
  completes = ground (arith, e, v.counted, v.completes);
  frees = λ x. absurd (ground (arith, e, v.frees x));
}
step-IsAlive _ _ (remove s e) v = record {
  counted = ground (arith, e, v.counted);
  completes = ground (arith, e, v.counted, v.completes);
  frees = λ x. absurd (ground (arith, e, v.frees x));
}
step-IsAlive _ _ (free s e done) v = record {
  counted = v.counted;
  completes = v.completes;
  frees = λ x. (ground (arith, e, done, v.counted, v.completes), e);
}

Lives-IsAlive : (s : Life) → Lives s → IsAlive s
Lives-IsAlive _ (probed s p) = record {
  counted = ground (arith, p.one_user, p.no_files, p.not_removing);
  completes = ground (arith, p.one_user, p.not_completed);
  frees = λ x. absurd (ground (arith, x, p.not_freed));
}
Lives-IsAlive _ (then_ s t l x) = step-IsAlive s t x (Lives-IsAlive s l)

-- However files are opened and closed and whenever the card is removed: what the files use is freed
-- only when no file is open, and from then on every open fails with -ENXIO. While a file is open
-- the removal waits, and as soon as the last one is closed it goes on.
pub Lives_lem :
    (s : Life)
    → Lives s
    → (s.freed ≡ true → s.files ≡ 0)
      × (s.freed ≡ true
          → (mode : AccessMode) (allocated : Option ℕ) (start len iminor : ℕ)
          → (amc_pci_open mode allocated start len iminor s.card).0 ≡ err enxio)
      × (s.removing ≡ true → (s.card.completed ≡ (s.files == 0)))
Lives_lem s l =
    let v = Lives-IsAlive s l in
    (
      (λ f. (v.frees f).0),
      (λ f mode allocated start len iminor.
          ap (λ (q : Result FileData × AmcPci). q.0)
            (amc_pci_open-gone mode allocated start len iminor s.card
              (ground (arith, v.frees f, v.counted)))),
      (λ r. ground (arith, r, v.counted, v.completes)),
    )
