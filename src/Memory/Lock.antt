-- ===== src/Memory/Lock.antt =====
-- How the calls of driver/memory.c end, and what the kernel's copies and the engine are relied on
-- for.
use amc_pci_dev.Prelude.{
  ℕ, ◌+◌, ◌-◌, ◌≤◌, ◌<◌, ◌≡◌, ◌≢◌, refl, arith, true, false, ltb, leb, ◌==◌, if◌then◌else◌, ◌⊎◌,
  Result, ok, err,
}
use amc_pci_dev.Prelude.Op.{Op, modify, and_then, cleaned, ◌>>◌}
use amc_pci_dev.Dma.{Transfer}
use amc_pci_dev.Memory.{MemoryContext, File, Copy, under_lock, unlocked, return_count}

abbrev pub Apart : ℕ → ℕ → ℕ → Type 0
Apart a b count = (a + count ≤ b) ⊎ (b + count ≤ a)

-- The engine copies `count` bytes between ranges that lie apart, and writes nothing else.
abbrev pub Copies : (Transfer → (ℕ → ℕ) → ℕ → ℕ) → Type 0
Copies engine =
    (t : Transfer) (memory : ℕ → ℕ)
    → Apart t.src t.dst t.count
    → ((i : ℕ) → i < t.count → engine t memory (t.dst + i) ≡ memory (t.src + i))
      × ((j : ℕ) → (j < t.dst) ⊎ (t.dst + t.count ≤ j) → engine t memory j ≡ memory j)

-- One call of `copy_to_user` wrote what it copied, and nothing behind `count` bytes.
abbrev pub CopiedTo : ℕ → ℕ → (ℕ → ℕ) → (ℕ → ℕ) → ℕ × (ℕ → ℕ) → Type 0
CopiedTo src count memory user r =
    (r.0 ≤ count)
    × ((i : ℕ) → i < count - r.0 → r.1 i ≡ memory (src + i))
    × ((i : ℕ) → count ≤ i → r.1 i ≡ user i)

abbrev pub CopiesTo : Copy → Type 0
CopiesTo copy =
    (src count : ℕ) (memory user : ℕ → ℕ)
    → CopiedTo src count memory user (copy src count memory user)

-- One call of `copy_from_user` wrote what it copied, padded the rest of `count` bytes with zeros,
-- and wrote nothing else.
abbrev pub CopiedFrom : ℕ → ℕ → (ℕ → ℕ) → (ℕ → ℕ) → ℕ × (ℕ → ℕ) → Type 0
CopiedFrom dst count user memory r =
    (r.0 ≤ count)
    × ((i : ℕ) → i < count → r.1 (dst + i) ≡ (if ltb i (count - r.0) then user i else 0))
    × ((j : ℕ) → (j < dst) ⊎ (dst + count ≤ j) → r.1 j ≡ memory j)

abbrev pub CopiesFrom : Copy → Type 0
CopiesFrom copy =
    (dst count : ℕ) (user memory : ℕ → ℕ)
    → CopiedFrom dst count user memory (copy dst count user memory)

-- The position behind a call that returned `n`.
abbrev pub next_pos : MemoryContext → ℕ → ℕ → ℕ
next_pos context pos n =
    if n == 0 then pos else (if leb context.length (pos + n) then 0 else pos + n)

abbrev pub locked_card : File → File
locked_card s = record s { card = record s.card { locked = true } }

-- The lock is free behind the call, whatever the work under it did; its result is the call's, and
-- the position moves on by what was transferred.
pub record Ends (context : MemoryContext) (q r : Result ℕ × File) : Type 0 where
  pub result : r.0 ≡ q.0
  pub free : r.1.card.locked ≡ false
  pub memory : r.1.card.memory ≡ q.1.card.memory
  pub transfers : r.1.card.transfers ≡ q.1.card.transfers
  pub user : r.1.user ≡ q.1.user
  pub moved : (n : ℕ) → q.0 ≡ ok n → r.1.f_pos ≡ next_pos context q.1.f_pos n
  pub stays : ((n : ℕ) → q.0 ≢ ok n) → r.1.f_pos ≡ q.1.f_pos

module _ (context : MemoryContext) where
  abbrev ended : Result ℕ × File → Result ℕ × File
  ended q = and_then (cleaned q unlocked) (λ n. do modify unlocked; return_count context n)

  ended-Ends : (q : Result ℕ × File) → Ends context q (ended q)
  ended-Ends (ok n, s) = record {
    result = ground arith;
    free = ground arith;
    memory = ground arith;
    transfers = ground arith;
    user = ground arith;
    moved = λ m e. ground arith;
    stays = λ h. absurd (h n refl);
  }
  ended-Ends (err e, s) = record {
    result = refl;
    free = refl;
    memory = refl;
    transfers = refl;
    user = refl;
    moved = λ m e. cc;
    stays = λ h. refl;
  }

  pub under_lock-Ends :
      (work : Op File ℕ) (s : File)
      → Ends context (work (locked_card s)) (under_lock context work s)
  under_lock-Ends work s = ended-Ends (work (locked_card s))
