-- ===== src/Core/Numbers.antt =====
-- The board numbers and the files `prom_used` and `prom` of driver/amc_pci_core.c.
use amc_pci_dev.Prelude.{
  ℕ, zero, suc, ◌+◌, ◌-◌, ◌≤◌, ◌<◌, ◌≡◌, refl, arith, min, Bool, true, false, ltb, if◌then◌else◌,
  update, Result, ok, err, Errno, eio, einval, Bool-cases, inl, inr, subst, ℕ_discrete, fun_ext,
}
use amc_pci_dev.Prom.{PromContext, prom_max_length}
use amc_pci_dev.Prom.Read.{read_prom}

abbrev pub max_boards : ℕ
max_boards = 4

-- The loop of `get_free_board` from `bit` on, with `n` rounds to go. `boards` is `device_boards`.
pub free_board_from : ℕ → ℕ → (ℕ → Bool) → Result ℕ × (ℕ → Bool)
free_board_from zero bit boards = (err eio, boards)
free_board_from (suc n) bit boards = elim (boards bit) [
  | true ↦ free_board_from n (suc bit) boards
  | false ↦ (ok bit, update boards bit true)
]

unfoldable pub get_free_board : (ℕ → Bool) → Result ℕ × (ℕ → Bool)
unfolding free_board_from
get_free_board boards = free_board_from max_boards 0 boards

abbrev pub release_board : ℕ → (ℕ → Bool) → ℕ → Bool
release_board board boards = update boards board false

-- `prom_used_read`: the number of bytes, and the caller's buffer.
unfoldable pub prom_used_read :
    PromContext → (ℕ → ℕ) → ℕ → ℕ → Result (record { size : ℕ; out : ℕ → ℕ })
prom_used_read prom buff off count =
    if ltb prom_max_length off
    then err einval
    else let size = min count (prom_max_length - off) in
      ok (record { size = size; out = λ j. if ltb j size then prom.buff (off + j) else buff j })

abbrev pub prom_read :
    (ℕ → ℕ) → PromContext → (ℕ → ℕ) → ℕ → ℕ → Result (record { size : ℕ; out : ℕ → ℕ })
prom_read ioread32 prom buff off count = read_prom ioread32 prom buff off count

-- What the search from `bit` on up to `limit` finds.
pub record IsNumbered (bit limit : ℕ) (boards : ℕ → Bool) (r : Result ℕ × (ℕ → Bool)) : Type 0 where
  pub full :
      (e : Errno)
      → r.0 ≡ err e
      → (e ≡ eio) × (r.1 ≡ boards) × ((i : ℕ) → bit ≤ i → i < limit → boards i ≡ true)
  pub found :
      (n : ℕ)
      → r.0 ≡ ok n
      → (n < limit)
        × (boards n ≡ false)
        × (r.1 ≡ update boards n true)
        × (release_board n r.1 ≡ boards)

free_board_from-IsNumbered :
    (n bit : ℕ) (boards : ℕ → Bool) → IsNumbered bit (bit + n) boards (free_board_from n bit boards)
unfolding free_board_from
free_board_from-IsNumbered zero bit boards = record {
  full = λ e h. (cc, refl, λ i p q. absurd (omega arith));
  found = λ n h. cc;
}
free_board_from-IsNumbered (suc n) bit boards = elim (Bool-cases (boards bit)) [
  | inl taken ↦
      rw (taken, free_board_from) (later taken (free_board_from-IsNumbered n (suc bit) boards))
  | inr free ↦
      rw (free, free_board_from)
        (record {
          full = λ e h. cc;
          found = λ m h.
              let same : bit ≡ m = cc in
              (omega arith, ground arith, ground arith, fun_ext (λ j. ground arith));
        })
]
  where
    later :
        {r : Result ℕ × (ℕ → Bool)}
        → boards bit ≡ true
        → IsNumbered (suc bit) (suc bit + n) boards r
        → IsNumbered bit (bit + suc n) boards r
    later taken ih = record {
      full = λ e h.
          let p = ih.full e h in
          (
            p.0,
            p.1,
            λ i low high. elim (ℕ_discrete bit i) [
              | yes same ↦ subst (λ k. boards k ≡ true) same taken
              | no other ↦ p.2 i (omega arith) (omega arith)
            ],
          );
      found = λ m h. let p = ih.found m h in (omega (arith, p.0), p.1, p.2, p.3);
    }

-- `get_free_board` fails, with -EIO and no change, only if all four numbers are taken. Otherwise it
-- returns a number below 4 that was free and takes it, and `release_board` of that number then
-- brings back the numbers as they were.
pub get_free_board-IsNumbered :
    (boards : ℕ → Bool) → IsNumbered 0 max_boards boards (get_free_board boards)
unfolding get_free_board
get_free_board-IsNumbered boards = free_board_from-IsNumbered max_boards 0 boards
