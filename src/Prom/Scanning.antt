-- ===== src/Prom/Scanning.antt =====
-- The loop of `load_prom` over the entries: it ends by its test, and counts the chain.
use amc_pci_dev.Prelude.{
  ℕ, zero, suc, ◌+◌, ◌≤◌, ◌<◌, ◌≡◌, ◌*◌, refl, sym, ap, arith, List, [], ◌∷◌, length, Bool, true,
  false, ◌⊎◌, inl, inr, select, Bool-cases, dec_le, if◌then◌else◌, ◌∙◌,
}
use amc_pci_dev.Prom.{prom_entry_needs_minor}
use amc_pci_dev.Prom.Load.{Scan, scanning, scan_entry, scan, is_dma}
use amc_pci_dev.Prom.Chain.{Chain, Chain-length}

-- The loop's variables at the end marker `e` of the chain `xs`.
abbrev pub counted : (ℕ → ℕ) → Scan → List ℕ → ℕ → Scan
counted buff s xs e = record {
  ent_i = e;
  nentries = s.nentries + length xs;
  dma_nentries = s.dma_nentries + length (select (is_dma buff) xs);
  nentries_with_minor = s.nentries_with_minor + length (select (prom_entry_needs_minor buff) xs);
}

add_one_assoc : (a b : ℕ) → a + 1 + b ≡ a + suc b
add_one_assoc a b = omega arith

count-cons :
    (t : Bool) (a x : ℕ) (xs : List ℕ)
    → (if t then a + 1 else a) + length xs ≡ a + length (if t then x ∷ xs else xs)
count-cons true a x xs = omega arith
count-cons false a x xs = refl

module _ (buff : ℕ → ℕ) where
  scanning_on :
      (x : ℕ) (xs : List ℕ) (s : Scan) (e : ℕ)
      → Chain buff (x ∷ xs) s.ent_i e
      → e < 4096
      → scanning buff s ≡ true
  scanning_on x xs s e c short = ground (arith, Chain-length buff (x ∷ xs) s.ent_i e c)

  counted-cons :
      (x : ℕ) (xs : List ℕ) (s : Scan) (e : ℕ)
      → x ≡ s.ent_i
      → counted buff (scan_entry buff s) xs e ≡ counted buff s (x ∷ xs) e
  counted-cons x xs s e here = rw here (λ i. record {
    ent_i = e;
    nentries = add_one_assoc s.nentries (length xs) i;
    dma_nentries =
        count-cons (is_dma buff s.ent_i) s.dma_nentries s.ent_i (select (is_dma buff) xs) i;
    nentries_with_minor =
        count-cons (prom_entry_needs_minor buff s.ent_i) s.nentries_with_minor s.ent_i
          (select (prom_entry_needs_minor buff) xs) i;
  })

  -- A chain within the buffer is walked to its end.
  pub scan-Chain :
      (xs : List ℕ) (fuel : ℕ) (s : Scan) (e : ℕ)
      → Chain buff xs s.ent_i e
      → e < 4096
      → length xs ≤ fuel
      → scan fuel buff s ≡ counted buff s xs e
  unfolding scan
  scan-Chain [] zero s e c short enough = ground arith
  scan-Chain [] (suc fuel) s e c short enough = ground arith
  scan-Chain (x ∷ xs) zero s e c short enough = absurd (omega arith)
  scan-Chain (x ∷ xs) (suc fuel) s e c short enough =
      rw (scanning_on x xs s e c short, scan)
        (scan-Chain xs fuel (scan_entry buff s) e c.2 short (omega arith)
          ∙ counted-cons x xs s e c.0)

  -- The loop stops at the end of the buffer or at the marker of a chain.
  pub scan-ends :
      (fuel : ℕ) (s : Scan)
      → 4096 ≤ s.ent_i + fuel
      → (4096 ≤ (scan fuel buff s).ent_i)
        ⊎ ((xs : List ℕ) × Chain buff xs s.ent_i (scan fuel buff s).ent_i)
  unfolding scan
  scan-ends zero s enough = inl (omega arith)
  scan-ends (suc fuel) s enough = elim (Bool-cases (scanning buff s)) [
    | inl more ↦
        rw (more, scan)
          (extend (scan fuel buff (scan_entry buff s))
            (scan-ends fuel (scan_entry buff s) (omega arith)) more)
    | inr over ↦ rw (over, scan) (stopped over)
  ]
    where
      extend :
          (t : Scan)
          → (4096 ≤ t.ent_i) ⊎ ((xs : List ℕ) × Chain buff xs (scan_entry buff s).ent_i t.ent_i)
          → scanning buff s ≡ true
          → (4096 ≤ t.ent_i) ⊎ ((xs : List ℕ) × Chain buff xs s.ent_i t.ent_i)
      extend t (inl h) more = inl h
      extend t (inr (xs, c)) more = inr (s.ent_i ∷ xs, (refl, ground arith, c))

      stopped :
          scanning buff s ≡ false
          → (4096 ≤ s.ent_i) ⊎ ((xs : List ℕ) × Chain buff xs s.ent_i s.ent_i)
      stopped over = elim (dec_le 4096 s.ent_i) [
        | yes h ↦ inl h
        | no h ↦ inr ([], (ground arith, refl))
      ]

  scan-stopped : (fuel : ℕ) (s : Scan) → scanning buff s ≡ false → scan fuel buff s ≡ s
  unfolding scan
  scan-stopped zero s over = refl
  scan-stopped (suc fuel) s over = rw (over, scan) refl

  -- Whatever the bytes are, the loop of `load_prom` has ended by its own test once it has had a
  -- round for every two bytes from where it stands up to 4096, and more rounds would change
  -- nothing: 2046 rounds from the first entry, where the fuel is 4096.
  pub scan-halts :
      (fuel more : ℕ) (s : Scan)
      → 4096 ≤ s.ent_i + 2 * fuel
      → (scanning buff (scan fuel buff s) ≡ false) × (scan (fuel + more) buff s ≡ scan fuel buff s)
  unfolding scan
  scan-halts zero more s enough = (over, scan-stopped (0 + more) s over)
    where
      over : scanning buff s ≡ false
      over = ground arith
  scan-halts (suc fuel) more s enough = elim (Bool-cases (scanning buff s)) [
    | inl goes ↦
        let ih = scan-halts fuel more (scan_entry buff s) (omega arith) in
        (rw (goes, scan) ih.0, ap (λ n. scan n buff s) one ∙ rw (goes, scan) ih.1)
    | inr over ↦ (
      ap (scanning buff) (scan-stopped (suc fuel) s over) ∙ over,
      scan-stopped (suc fuel + more) s over ∙ sym (scan-stopped (suc fuel) s over),
    )
  ]
    where
      one : suc fuel + more ≡ suc (fuel + more)
      one = omega arith
