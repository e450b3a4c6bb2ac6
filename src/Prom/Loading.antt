-- ===== src/Prom/Loading.antt =====
-- `load_prom` accepts exactly the well-formed images, and describes them.
use amc_pci_dev.Prelude.{
  ℕ, ◌+◌, ◌%◌, ◌<◌, ◌≡◌, refl, arith, List, get_or, true, false, ◌⊎◌, ◌↔◌, if◌then◌else◌, ◌==◌,
  Result, ok, err, eio, enomem, Errno, ◌∙◌, ap, inl, inr, sym,
}
use native.Mathlib.Nat.{zero-add}
use amc_pci_dev.Utils.{calc_checksum16}
use amc_pci_dev.Utils.Total.{total, IsBytes}
use amc_pci_dev.Utils.Checksum.{calc_checksum16_lem}
use amc_pci_dev.Prom.{PromContext}
use amc_pci_dev.Prom.Load.{Scan, scan, start, blank, finish, load_prom}
use amc_pci_dev.Prom.Chain.{Chain, Chain-end, Chain-length}
use amc_pci_dev.Prom.Scanning.{counted, scan-Chain, scan-ends}
use amc_pci_dev.Prom.Image.{IsImage, described, image, image-IsBytes, load_image_lem}

abbrev Finishes : PromContext → Scan → ℕ → Type 0
Finishes x s n =
    (n ≡ s.ent_i + x.buff (s.ent_i + 1) + 2)
    × (n < 4096)
    × (x.buff s.ent_i ≡ 0)
    × ((x.buff (s.ent_i + 1) ≡ 2) ⊎ (x.buff (s.ent_i + 1) ≡ 3))
    × (calc_checksum16 x.buff n ≡ 0)

abbrev found : PromContext → Scan → ℕ → PromContext
found x s n = record x {
  data_len = n;
  nentries = s.nentries;
  dma_nentries = s.dma_nentries;
  nentries_with_minor = s.nentries_with_minor;
}

finish-ok :
    (x : PromContext) (s : Scan) (c : PromContext)
    → finish x s ≡ ok c
    → (n : ℕ) × Finishes x s n × (c ≡ found x s n)
unfolding finish
finish-ok x s c h = (s.ent_i + x.buff (s.ent_i + 1) + 2, ground arith, ground arith)

finish-Finishes :
    (x : PromContext) (s : Scan) (n : ℕ) → Finishes x s n → finish x s ≡ ok (found x s n)
unfolding finish
finish-Finishes x s n h = ground arith

module _ (default_prom : List ℕ) (beyond : ℕ → ℕ) (ioread32 : ℕ → ℕ) (base : ℕ) where
  abbrev im : ℕ → ℕ
  im = image default_prom beyond ioread32 base

  abbrev filled : PromContext
  filled = record (blank beyond base) { buff = im }

  abbrev loaded : Result PromContext
  loaded = load_prom default_prom beyond ioread32 true base

  -- The part of `load_prom` behind the image.
  load_prom-eq : loaded ≡ (if im 4 == 1 then finish filled (scan 4096 im start) else err eio)
  unfolding load_prom
  load_prom-eq = rw (load_image_lem default_prom beyond ioread32 base) (ground arith)

  module _ (bytes : IsBytes im) where
    checks :
        (n : ℕ)
        → n < 4096
        → (calc_checksum16 im n ≡ 0) ↔ ((0 < total im n) × (total im n % 65535 ≡ 0))
    checks n short = (calc_checksum16_lem im n bytes (omega arith)).2

    IsImage-loads : (xs : List ℕ) (n : ℕ) → IsImage im xs n → loaded ≡ ok (described base im xs n)
    IsImage-loads xs n v =
        load_prom-eq
        ∙ rw (v.version, walked)
            (finish-Finishes filled (counted im start xs v.end_at) n (
              v.ends,
              v.short,
              Chain-end im xs 5 v.end_at v.chain,
              v.marker,
              (checks n v.short).1 (v.some_bits, v.summed),
            )
              ∙ simp zero-add)
      where
        walked : scan 4096 im start ≡ counted im start xs v.end_at
        walked =
            scan-Chain im xs 4096 start v.end_at v.chain (ground (arith, v.short, v.ends))
              (omega (arith, Chain-length im xs 5 v.end_at v.chain, v.short, v.ends))

    IsImage-at :
        (s : Scan) (n : ℕ) (xs : List ℕ)
        → im 4 ≡ 1
        → Finishes filled s n
        → Chain im xs 5 s.ent_i
        → IsImage im xs n
    IsImage-at s n xs version ends chain = record {
      end_at = s.ent_i;
      version = version;
      chain = chain;
      marker = ends.3;
      ends = ends.0;
      short = ends.1;
      some_bits = ((checks n ends.1).0 ends.4).0;
      summed = ((checks n ends.1).0 ends.4).1;
    }

    -- The context agrees with the chain, since the loop counts it.
    found-described :
        (n : ℕ) (xs : List ℕ)
        → Finishes filled (scan 4096 im start) n
        → Chain im xs 5 (scan 4096 im start).ent_i
        → found filled (scan 4096 im start) n ≡ described base im xs n
    found-described n xs ends chain =
        ap (λ s. found filled s n)
          (scan-Chain im xs 4096 start (scan 4096 im start).ent_i chain
            (omega (arith, ends.0, ends.1))
            (omega (arith, Chain-length im xs 5 (scan 4096 im start).ent_i chain, ends.0, ends.1)))
        ∙ simp zero-add

    loads-IsImage :
        (c : PromContext)
        → loaded ≡ ok c
        → (xs : List ℕ) × (n : ℕ) × IsImage im xs n × (c ≡ described base im xs n)
    loads-IsImage c h =
        let v : im 4 ≡ 1 = ground (arith, load_prom-eq) in
        let f : finish filled (scan 4096 im start) ≡ ok c = ground (arith, load_prom-eq) in
        let (n, ends, e) = finish-ok filled (scan 4096 im start) c f in
        elim (scan-ends im 4096 start (omega arith)) [
          | inl past ↦ absurd (omega (arith, ends.0, ends.1))
          | inr (xs, chain) ↦ (
            xs,
            n,
            IsImage-at (scan 4096 im start) n xs v ends chain,
            e ∙ found-described n xs ends chain,
          )
        ]

  load_prom-err : (e : Errno) → loaded ≡ err e → e ≡ eio
  unfolding finish
  load_prom-err e h = ground (arith, load_prom-eq)

-- Where the default image and the memory behind the buffer hold bytes and memory is allocated,
-- `load_prom` accepts exactly the well-formed images: it returns a context if and only if the
-- image in the buffer is well formed with some entries `xs` and length `n`, and that context
-- holds the image, its length, the number of its entries, of its DMA entries and of those with a
-- minor number. Every other image is refused with -EIO, and without memory the result is -ENOMEM.
pub load_prom_lem :
    (default_prom : List ℕ) (beyond : ℕ → ℕ) (ioread32 : ℕ → ℕ) (base : ℕ)
    → IsBytes (λ j. get_or default_prom j 0)
    → IsBytes beyond
    → (load_prom default_prom beyond ioread32 false base ≡ err enomem)
      × ((e : Errno) → load_prom default_prom beyond ioread32 true base ≡ err e → e ≡ eio)
      × ((c : PromContext)
          → (load_prom default_prom beyond ioread32 true base ≡ ok c) ↔ (
              (xs : List ℕ) × (n : ℕ) × IsImage (image default_prom beyond ioread32 base) xs n
              × (c ≡ described base (image default_prom beyond ioread32 base) xs n)))
load_prom_lem default_prom beyond ioread32 base d b = (
  unfold load_prom in refl,
  load_prom-err default_prom beyond ioread32 base,
  λ c. (
    loads-IsImage default_prom beyond ioread32 base bytes c,
    λ p. IsImage-loads default_prom beyond ioread32 base bytes p.0 p.1 p.2 ∙ ap ok (sym p.3),
  ),
)
  where
    bytes : IsBytes (image default_prom beyond ioread32 base)
    bytes = image-IsBytes default_prom beyond ioread32 base d b
