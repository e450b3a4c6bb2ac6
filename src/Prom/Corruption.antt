-- ===== src/Prom/Corruption.antt =====
-- A damaged PROM: what the checksum of `load_prom` catches.
use amc_pci_dev.Prelude.{
  ℕ, ◌<◌, ◌≡◌, ◌≢◌, arith, List, get_or, update, true, ok, ap, sym, ◌∙◌, subst,
}
use amc_pci_dev.Utils.{calc_checksum16}
use amc_pci_dev.Utils.Total.{IsBytes}
use amc_pci_dev.Utils.Checksum.{calc_checksum16_lem, calc_checksum16-update}
use amc_pci_dev.Prom.{PromContext}
use amc_pci_dev.Prom.Load.{load_prom}
use amc_pci_dev.Prom.Image.{IsImage, image, image-IsBytes}
use amc_pci_dev.Prom.Loading.{load_prom_lem}

-- Two well-formed images of one length do not differ in just one byte.
IsImage-update :
    (buff : ℕ → ℕ) (xs ys : List ℕ) (n i b : ℕ)
    → IsBytes buff
    → IsImage buff xs n
    → i < n
    → b < 256
    → b ≢ buff i
    → ¬ (IsImage (update buff i b) ys n)
IsImage-update buff xs ys n i b bytes v inside byte changed w =
    calc_checksum16-update buff n bytes (omega (arith, v.short)) (zero_of buff xs bytes v) i b
      inside byte changed (zero_of (update buff i b) ys (λ j. ground (arith, bytes j)) w)
  where
    zero_of : (f : ℕ → ℕ) (zs : List ℕ) → IsBytes f → IsImage f zs n → calc_checksum16 f n ≡ 0
    zero_of f zs fb u =
        (calc_checksum16_lem f n fb (omega (arith, u.short))).2.1 (u.some_bits, u.summed)

-- Take an image that `load_prom` accepts, of the card or of the build, and another one that differs
-- from it in one byte within the length that `load_prom` found, with bytes behind the buffer and in
-- the default images. If the other is accepted too, the length found there is another one.
pub load_prom-update :
    (default_prom default_prom' : List ℕ) (beyond ioread32 ioread32' : ℕ → ℕ) (base i b : ℕ)
    (c d : PromContext)
    → IsBytes (λ j. get_or default_prom j 0)
    → IsBytes (λ j. get_or default_prom' j 0)
    → IsBytes beyond
    → load_prom default_prom beyond ioread32 true base ≡ ok c
    → image default_prom' beyond ioread32' base
      ≡ update (image default_prom beyond ioread32 base) i b
    → i < c.data_len
    → b < 256
    → b ≢ c.buff i
    → load_prom default_prom' beyond ioread32' true base ≡ ok d
    → d.data_len ≢ c.data_len
load_prom-update default_prom default_prom' beyond ioread32 ioread32' base i b c d db db' bb h same
      inside byte changed k e =
    let (xs, n, v, p) = ((load_prom_lem default_prom beyond ioread32 base db bb).2 c).0 h in
    let (ys, m, w, q) = ((load_prom_lem default_prom' beyond ioread32' base db' bb).2 d).0 k in
    let n_len : c.data_len ≡ n = ap (λ (x : PromContext). x.data_len) p in
    let m_len : d.data_len ≡ m = ap (λ (x : PromContext). x.data_len) q in
    let lengths : m ≡ n = sym m_len ∙ e ∙ n_len in
    let held = ap (λ (x : PromContext). x.buff i) p in
    IsImage-update (image default_prom beyond ioread32 base) xs ys n i b
      (image-IsBytes default_prom beyond ioread32 base db bb) v (omega arith) byte
      (λ z. changed (z ∙ sym held))
      (subst (λ f. IsImage f ys n) same
        (subst (λ l. IsImage (image default_prom' beyond ioread32' base) ys l) lengths w))
