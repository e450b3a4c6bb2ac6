-- ===== src/Prom/Chain.antt =====
-- The entries of an image, independently of the code: a chain of offsets that ends at a tag 0.
use amc_pci_dev.Prelude.{
  ℕ, zero, suc, ◌+◌, ◌*◌, ◌≤◌, ◌≡◌, ◌≢◌, arith, List, [], ◌∷◌, length, some, get_elem?,
}

-- From offset `p` the entries stand at the given offsets, each behind the tag, size and content
-- of the one before, and the end marker stands at `e`.
abbrev pub Chain : (ℕ → ℕ) → List ℕ → ℕ → ℕ → Type 0
Chain buff [] p e = (buff p ≡ 0) × (p ≡ e)
Chain buff (x ∷ xs) p e = (x ≡ p) × (buff p ≢ 0) × Chain buff xs (p + (buff (p + 1) + 2)) e

module _ (buff : ℕ → ℕ) where
  pub Chain-length : (xs : List ℕ) (p e : ℕ) → Chain buff xs p e → p + 2 * length xs ≤ e
  Chain-length [] p e c = omega arith
  Chain-length (x ∷ xs) p e c = omega (arith, Chain-length xs _ e c.2)

  pub Chain-end : (xs : List ℕ) (p e : ℕ) → Chain buff xs p e → buff e ≡ 0
  Chain-end [] p e c = ground arith
  Chain-end (x ∷ xs) p e c = Chain-end xs _ e c.2

  -- Every entry lies between the start and the end marker, whole.
  pub Chain-within :
      (xs : List ℕ) (p e : ℕ)
      → Chain buff xs p e
      → (i x : ℕ) → get_elem? xs i ≡ some x
      → (p ≤ x) × (x + buff (x + 1) + 2 ≤ e) × (buff x ≢ 0)
  Chain-within [] p e c i x h = cc
  Chain-within (y ∷ xs) p e c zero x h = ground (arith, Chain-length xs _ e c.2)
  Chain-within (y ∷ xs) p e c (suc i) x h = ground (arith, Chain-within xs _ e c.2 i x h)

  -- An image has one chain at most.
  pub Chain-unique :
      (xs ys : List ℕ) (p d e : ℕ) → Chain buff xs p d → Chain buff ys p e → (xs ≡ ys) × (d ≡ e)
  Chain-unique [] [] p d e c c' = ground arith
  Chain-unique [] (y ∷ ys) p d e c c' = absurd (c'.1 c.0)
  Chain-unique (x ∷ xs) [] p d e c c' = absurd (c.1 c'.0)
  Chain-unique (x ∷ xs) (y ∷ ys) p d e c c' = ground (arith, Chain-unique xs ys _ d e c.2 c'.2)
