-- ===== src/Memory/Refines.antt =====
-- The files of driver/memory.c keep what Spec promises: each call, and so every sequence of
-- calls on the open files, is one of the store of bytes.
use amc_pci_dev.Prelude.{
  ℕ, ◌+◌, ◌-◌, ◌≤◌, ◌<◌, ◌≡◌, refl, sym, ap, ◌∙◌, arith, subst, false, ◌⊎◌, inl, inr, ltb,
  if◌then◌else◌, update, Result, ok, err, Result-cases, ℕ_discrete,
}
use amc_pci_dev.Dma.{DmaControl, Transfer, Answers}
use amc_pci_dev.Memory.{File, Copy, Seek, amc_pci_dma_read, amc_pci_dma_write, amc_pci_dma_llseek}
use amc_pci_dev.Memory.Plan.{IsArea, max_rw_count}
use amc_pci_dev.Memory.Lock.{Copies, CopiesTo, CopiesFrom}
use amc_pci_dev.Memory.Outcomes.{IsSafeRead, IsDelivered, IsSafeWrite, IsWritten}
use amc_pci_dev.Memory.Reads.{amc_pci_dma_read-IsSafeRead, amc_pci_dma_read-IsDelivered}
use amc_pci_dev.Memory.Writes.{amc_pci_dma_write-IsSafeWrite, amc_pci_dma_write-IsWritten}
use amc_pci_dev.Memory.Files.{
  Area, Request, write, read, llseek, Reply, Device, context_of, opened_file, replied, handle,
}
use amc_pci_dev.Memory.Spec.{
  Store, overwrite, Serves, reads, read_fails, writes, write_fails, seeks, seek_fails,
}
use amc_pci_dev.Memory.View.{Bounded, store_of, IsView, update_same, overwrite-eq}

module _ (engine : Transfer → (ℕ → ℕ) → ℕ → ℕ) (copy_from_user copy_to_user : Copy)
    (generic_file_llseek_size : Seek) (dma : DmaControl) (areas : ℕ → Area) (copies : Copies engine)
    (from : CopiesFrom copy_from_user) (to : CopiesTo copy_to_user)
    (bounded : Bounded generic_file_llseek_size)
    (valid : (file : ℕ) → IsArea (context_of dma areas file)) where
  abbrev Outside : ℕ → Type 0
  Outside j = (j < dma.buffer_dma) ⊎ (dma.buffer_dma + dma.buffer_size ≤ j)

  abbrev handled : ℕ → Request → Answers → Device → Reply × Device
  handled = handle engine copy_from_user copy_to_user generic_file_llseek_size dma areas

  abbrev Handled : ℕ → Request → Device → (ℕ → ℕ) → Reply × Device → Type 0
  Handled file request d bytes r =
      (b : ℕ → ℕ) × Serves (areas file) file request r.0 (store_of bytes d) (store_of b r.1)
      × IsView dma areas r.1 b

  abbrev read_result : ℕ → (ℕ → ℕ) → ℕ → Answers → Device → Result ℕ × File
  read_result file user count a d =
      amc_pci_dma_read engine copy_from_user copy_to_user (context_of dma areas file) a count
        (opened_file file user d)

  -- The reply and the positions behind a call that ended in this way.
  pos_eq :
      (file : ℕ) (d : Device) (bytes : ℕ → ℕ) (r : Result ℕ × File) (p : ℕ)
      → r.1.f_pos ≡ p
      → record { bytes = bytes; f_pos = update d.f_pos file p }
        ≡ store_of bytes (replied file d r).1
  pos_eq file d bytes r p e =
      ap (λ q. record { bytes = bytes; f_pos = update d.f_pos file q }) (sym e)

  stays_eq :
      (file : ℕ) (d : Device) (bytes : ℕ → ℕ) (r : Result ℕ × File)
      → r.1.f_pos ≡ d.f_pos file
      → store_of bytes d ≡ store_of bytes (replied file d r).1
  stays_eq file d bytes r e =
      ap (λ f. record { bytes = bytes; f_pos = f }) (sym (update_same d.f_pos file))
      ∙ pos_eq file d bytes r (d.f_pos file) e

  view :
      (file : ℕ) (d : Device) (bytes : ℕ → ℕ) (r : Result ℕ × File)
      → ((j : ℕ)
          → (j < dma.buffer_dma) ⊎ (dma.buffer_dma + dma.buffer_size ≤ j)
          → r.1.card.memory j ≡ bytes j)
      → r.1.f_pos ≤ (areas file).length
      → r.1.card.locked ≡ false
      → ((file : ℕ) → d.f_pos file ≤ (areas file).length)
      → IsView dma areas (replied file d r).1 bytes
  view file d bytes r same pos free inside = record {
    same = same;
    inside = λ i. elim (ℕ_discrete i file) [
      | yes here ↦
          subst (λ j. update d.f_pos file r.1.f_pos j ≤ (areas j).length) (sym here)
            (ground (arith, pos))
      | no other ↦ ground (arith, inside i)
    ];
    free = free;
  }

  -- A constructor of the specification, with the result and the store in the terms of the call.
  reply :
      (file : ℕ) (request : Request) (d : Device) (bytes : ℕ → ℕ) (r : Result ℕ × File)
      (q : Result ℕ)
      → r.0 ≡ q
      → {t u : Store} → t ≡ u
      → Serves
          (areas file)
          file
          request
          (record { result = q; user = r.1.user })
          (store_of bytes d)
          t
      → Serves (areas file) file request (replied file d r).0 (store_of bytes d) u
  reply file request d bytes r q e {t} {u} f h =
      subst (λ z. Serves (areas file) file request (replied file d r).0 (store_of bytes d) z) f
        (subst
          (λ z.
            Serves (areas file) file request (record { result = z; user = r.1.user })
              (store_of bytes d) t)
          (sym e) h)

  -- The areas are apart from the buffer.
  in_area : (file pos i : ℕ) → pos + i < (areas file).length → Outside ((areas file).base + pos + i)
  in_area file pos i lt = ground (arith, (valid file).apart)

  pub read-Handled :
      (file : ℕ) (user : ℕ → ℕ) (count : ℕ) (a : Answers) (d : Device) (bytes : ℕ → ℕ)
      → count ≤ max_rw_count
      → IsView dma areas d bytes
      → Handled file (read user count) d bytes (handled file (read user count) a d)
  read-Handled file user count a d bytes sane v = elim (Result-cases r.0) [
    | inr (x, bad) ↦
        let stays = delivered.unmoved (λ n e. absurd (ground (arith, bad, e))) in
        (
          bytes,
          reply file (read user count) d bytes r (err x) bad (stays_eq file d bytes r stays)
              (read_fails user r.1.user count x (store_of bytes d)),
          view file d bytes r (λ j out. safe.kept j out ∙ v.same j out)
              (omega (arith, stays, v.inside file)) safe.free v.inside,
        )
    | inl (n, good) ↦
        let (le, fits, out, pos) = delivered.bytes n good in
        (
          bytes,
          reply file (read user count) d bytes r (ok n) good (pos_eq file d bytes r _ pos) (
              reads user r.1.user count n (store_of bytes d) le fits
                (λ i lt. out i lt ∙ v.same _ (in_area file (d.f_pos file) i (omega arith)))),
          view file d bytes r (λ j out. safe.kept j out ∙ v.same j out)
              (ground (arith, pos, v.inside file)) safe.free v.inside,
        )
  ]
    where
      r : Result ℕ × File
      r = read_result file user count a d

      safe : IsSafeRead (context_of dma areas file) (opened_file file user d) r
      safe =
          amc_pci_dma_read-IsSafeRead engine copy_from_user copy_to_user (context_of dma areas file)
            a copies to (valid file) count sane (opened_file file user d) v.free

      delivered : IsDelivered (context_of dma areas file) count (opened_file file user d) r
      delivered =
          amc_pci_dma_read-IsDelivered engine copy_from_user copy_to_user
            (context_of dma areas file) a copies to (valid file) count sane
            (opened_file file user d) v.free

  abbrev write_result : ℕ → (ℕ → ℕ) → ℕ → Answers → Device → Result ℕ × File
  write_result file user count a d =
      amc_pci_dma_write engine copy_from_user copy_to_user (context_of dma areas file) a count
        (opened_file file user d)

  pub write-Handled :
      (file : ℕ) (user : ℕ → ℕ) (count : ℕ) (a : Answers) (d : Device) (bytes : ℕ → ℕ)
      → IsView dma areas d bytes
      → Handled file (write user count) d bytes (handled file (write user count) a d)
  write-Handled file user count a d bytes v = elim (Result-cases r.0) [
    | inr (x, bad) ↦
        let stays = written.unmoved (λ n e. absurd (ground (arith, bad, e))) in
        let left : ℕ → ℕ = λ i. r.1.card.memory (at + i) in
        (
          overwrite bytes at count left,
          reply file (write user count) d bytes r (err x) bad
              (stays_eq file d (overwrite bytes at count left) r stays)
              (write_fails user r.1.user left count x (store_of bytes d)),
          view file d (overwrite bytes at count left) r
              (λ j out.
                overwrite-eq r.1.card.memory bytes left at count (λ i lt. refl) j
                  (λ away. safe.kept j out away ∙ v.same j out))
              (omega (arith, stays, v.inside file)) safe.free v.inside,
        )
    | inl (n, good) ↦
        let (le, fits, out, pos) = written.bytes n good in
        let new : ℕ → ℕ = λ i. if ltb i copied then user i else 0 in
        (
          overwrite bytes at n new,
          reply file (write user count) d bytes r (ok n) good
              (pos_eq file d (overwrite bytes at n new) r _ pos)
              (writes user r.1.user count n copied (store_of bytes d) le fits),
          view file d (overwrite bytes at n new) r
              (λ j apart.
                overwrite-eq r.1.card.memory bytes new at n out j
                  (λ away. written.rest n j good apart away ∙ v.same j apart))
              (ground (arith, pos, v.inside file)) safe.free v.inside,
        )
  ]
    where
      r : Result ℕ × File
      r = write_result file user count a d

      at : ℕ
      at = (areas file).base + d.f_pos file

      copied : ℕ
      copied = count - (copy_from_user dma.buffer_dma count user d.card.memory).0

      safe : IsSafeWrite (context_of dma areas file) count (opened_file file user d) r
      safe =
          amc_pci_dma_write-IsSafeWrite engine copy_from_user copy_to_user
            (context_of dma areas file) a copies from (valid file) count (opened_file file user d)
            v.free

      written : IsWritten (context_of dma areas file) copied count (opened_file file user d) r
      written =
          amc_pci_dma_write-IsWritten engine copy_from_user copy_to_user (context_of dma areas file)
            a copies from (valid file) count (opened_file file user d) v.free

  pub llseek-Handled :
      (file : ℕ) (offset whence : ℕ) (a : Answers) (d : Device) (bytes : ℕ → ℕ)
      → IsView dma areas d bytes
      → Handled file (llseek offset whence) d bytes (handled file (llseek offset whence) a d)
  unfolding amc_pci_dma_llseek
  llseek-Handled file offset whence a d bytes v = elim (Result-cases sought) [
    | inr (x, bad) ↦ (
      bytes,
      reply file (llseek offset whence) d bytes r (err x) (ground (arith, bad))
          (stays_eq file d bytes r (ground (arith, bad)))
          (seek_fails offset whence r.1.user x (store_of bytes d)),
      view file d bytes r (λ j out. ground (arith, bad, v.same j out))
          (ground (arith, bad, v.inside file)) (ground (arith, bad, v.free)) v.inside,
    )
    | inl (pos, good) ↦
        let le =
          bounded (d.f_pos file) offset whence (areas file).length (areas file).length pos
            (v.inside file) good in
        (
          bytes,
          reply file (llseek offset whence) d bytes r (ok pos) (ground (arith, good))
              (pos_eq file d bytes r pos (ground (arith, good)))
              (seeks offset whence pos r.1.user (store_of bytes d) le),
          view file d bytes r (λ j out. ground (arith, good, v.same j out))
              (ground (arith, good, le)) (ground (arith, good, v.free)) v.inside,
        )
  ]
    where
      sought : Result ℕ
      sought =
          generic_file_llseek_size (d.f_pos file) offset whence (areas file).length
            (areas file).length

      r : Result ℕ × File
      r =
          amc_pci_dma_llseek generic_file_llseek_size (context_of dma areas file) offset whence
            (opened_file file (λ i. 0) d)
