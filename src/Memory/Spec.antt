-- ===== src/Memory/Spec.antt =====
-- What the files of driver/memory.c promise, without controller, buffer and alignment: the areas
-- are parts of one store of bytes, and each open file has a position in its area.
use amc_pci_dev.Prelude.{
  ℕ, ◌+◌, ◌-◌, ◌≤◌, ◌<◌, ◌≡◌, ◌&&◌, ltb, leb, ◌==◌, if◌then◌else◌, List, [], ◌∷◌, update, ok, err,
  Errno,
}
use amc_pci_dev.Memory.Files.{Area, Request, write, read, llseek, Call, Reply}

pub record Store : Type 0 where
  pub bytes : ℕ → ℕ
  pub f_pos : ℕ → ℕ

-- `n` bytes from `at` on replaced by `new`.
abbrev pub overwrite : (ℕ → ℕ) → ℕ → ℕ → (ℕ → ℕ) → ℕ → ℕ
overwrite bytes at n new j = if leb at j && ltb j (at + n) then new (j - at) else bytes j

-- The position moves on by `n` bytes, and from the end of the area back to its beginning.
abbrev pub moved_on : Area → ℕ → ℕ → ℕ
moved_on area pos n = if n == 0 then pos else (if leb area.length (pos + n) then 0 else pos + n)

abbrev pub advanced : Area → ℕ → ℕ → Store → Store
advanced area file n s = record s { f_pos = update s.f_pos file (moved_on area (s.f_pos file) n) }

-- What a call may reply, and what it does to the store. A write that fails may leave
-- anything in its place, one that succeeds leaves zeros where the user's memory could not be read.
pub data Serves (area : Area) (file : ℕ) : Request → Reply → Store → Store → Type 0 where
  reads :
      (user out : ℕ → ℕ) (count n : ℕ) (s : Store)
      → n ≤ count
      → s.f_pos file + n ≤ area.length
      → ((i : ℕ) → i < n → out i ≡ s.bytes (area.base + s.f_pos file + i))
      → Serves area file
          (read user count)
          (record { result = ok n; user = out })
          s
          (advanced area file n s)
  read_fails :
      (user out : ℕ → ℕ) (count : ℕ) (e : Errno) (s : Store)
      → Serves area file (read user count) (record { result = err e; user = out }) s s
  writes :
      (user out : ℕ → ℕ) (count n copied : ℕ) (s : Store)
      → n ≤ count
      → s.f_pos file + n ≤ area.length
      → Serves area file
          (write user count)
          (record { result = ok n; user = out })
          s
          (advanced area file n (record s {
            bytes =
                overwrite s.bytes
                  (area.base + s.f_pos file)
                  n
                  (λ i. if ltb i copied then user i else 0);
          }))
  write_fails :
      (user out left : ℕ → ℕ) (count : ℕ) (e : Errno) (s : Store)
      → Serves area file
          (write user count)
          (record { result = err e; user = out })
          s
          (record s { bytes = overwrite s.bytes (area.base + s.f_pos file) count left })
  seeks :
      (offset whence pos : ℕ) (out : ℕ → ℕ) (s : Store)
      → pos ≤ area.length
      → Serves area file
          (llseek offset whence)
          (record { result = ok pos; user = out })
          s
          (record s { f_pos = update s.f_pos file pos })
  seek_fails :
      (offset whence : ℕ) (out : ℕ → ℕ) (e : Errno) (s : Store)
      → Serves area file (llseek offset whence) (record { result = err e; user = out }) s s

-- The replies to a list of calls, one after the other.
pub data ServesAll (areas : ℕ → Area) : List Call → List Reply → Store → Store → Type 0 where
  idle : (s : Store) → ServesAll areas [] [] s s
  served :
      (c : Call) (calls : List Call) (reply : Reply) (replies : List Reply) (s t u : Store)
      → Serves (areas c.file) c.file c.request reply s t
      → ServesAll areas calls replies t u
      → ServesAll areas (c ∷ calls) (reply ∷ replies) s u
