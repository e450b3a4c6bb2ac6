-- ===== src/Tools/Blocks.antt =====
-- The fields that driver/tools/prom_data_creator.py writes are the entries that the driver walks.
use amc_pci_dev.Prelude.{
  ℕ, zero, suc, ◌+◌, ◌/◌, ◌%◌, ◌^◌, ◌≤◌, ◌<◌, ◌≡◌, ◌≢◌, refl, sym, ap, ◌∙◌, arith, subst, ◌||◌, ltb,
  List, [], ◌∷◌, ◌++◌, All, length, length-append, get_or, get_elem?, some, Bool-cases, inl, inr,
}
use mathlib.Core.List.{append_assoc}
use mathlib.Core.Option.{some-injective}
use amc_pci_dev.Prom.Chain.{Chain}
use amc_pci_dev.Tools.{
  Field, version, name, region, mask, align_shift, dump_field, dump_fields, pack, encode,
}

abbrev pub AreBytes : List ℕ → Type 0
AreBytes xs = All (λ x. x < 256) xs

abbrev pub IsAscii : List ℕ → Type 0
IsAscii text = All (λ x. x < 128) text

-- A field that `struct.pack` accepts, other than the header, with a name in ASCII that is short
-- enough for its length to fit a byte.
abbrev pub IsEntry : Field → Type 0
IsEntry (version n) = ⊥
IsEntry (name text) = IsAscii text × (length text < 237)
IsEntry (region text perm base size) =
    IsAscii text × (length text < 237) × (perm < 256) × (base < 2 ^ 64) × (size < 2 ^ 64)
IsEntry (mask n) = n < 256
IsEntry (align_shift n) = n < 256

-- Tag, size and that many bytes.
pub record IsBlock (bytes : List ℕ) : Type 0 where
  pub tag : ℕ
  pub size : ℕ
  pub content : List ℕ
  pub shape : bytes ≡ tag ∷ size ∷ content
  pub tagged : tag ≢ 0
  pub sized : length content ≡ size
  pub are_bytes : AreBytes bytes

pub AreBytes-append : (xs ys : List ℕ) → AreBytes xs → AreBytes ys → AreBytes (xs ++ ys)
AreBytes-append [] ys h k = k
AreBytes-append (x ∷ xs) ys h k = (h.0, AreBytes-append xs ys h.1 k)

AreBytes-pack : (n x : ℕ) → AreBytes (pack n x)
AreBytes-pack zero x = tt
AreBytes-pack (suc n) x = (omega arith, AreBytes-pack n (x / 256))

length-pack : (n x : ℕ) → length (pack n x) ≡ n
length-pack zero x = refl
length-pack (suc n) x = ap suc (length-pack n (x / 256))

-- A block of fixed fields and a name.
packed :
    (tag size : ℕ) (text front : List ℕ)
    → AreBytes text
    → AreBytes front
    → 0 < tag
    → tag < 256
    → (size < 256) × (size ≡ length front + length text + 1)
    → IsBlock (tag % 256 ∷ size % 256 ∷ front ++ text ++ 0 ∷ [])
packed tag size text front h k p t s = record {
  tag = tag % 256;
  size = size % 256;
  content = front ++ text ++ 0 ∷ [];
  shape = refl;
  tagged = omega arith;
  sized = omega (arith, length-append (front ++ text) (0 ∷ []), length-append front text, s);
  are_bytes = (
    omega arith,
    (
      omega arith,
      AreBytes-append (front ++ text) (0 ∷ []) (AreBytes-append front text k h) (omega arith, tt),
    ),
  );
}

pub encode-ascii : (text : List ℕ) → IsAscii text → encode text ≡ text
unfolding encode
encode-ascii [] h = refl
encode-ascii (c ∷ text) h = ground (arith, h.0, encode-ascii text h.1)

IsAscii-bytes : (text : List ℕ) → IsAscii text → AreBytes text
IsAscii-bytes [] h = tt
IsAscii-bytes (c ∷ text) h = (omega (arith, h.0), IsAscii-bytes text h.1)

pub dump_field-IsBlock : (f : Field) → IsEntry f → IsBlock (dump_field f)
dump_field-IsBlock (version n) h = absurd h
dump_field-IsBlock (name text) h = rw (encode-ascii text h.0) (record {
  tag = 1;
  size = (length text + 1) % 256;
  content = text ++ 0 ∷ [];
  shape = refl;
  tagged = omega arith;
  sized = omega (arith, length-append text (0 ∷ []), h.1);
  are_bytes = (
    omega arith,
    (omega arith, AreBytes-append text (0 ∷ []) (IsAscii-bytes text h.0) (omega arith, tt)),
  );
})
dump_field-IsBlock (region text perm base size) h =
    elim (Bool-cases (ltb 0xffffffffffff base || ltb 0xffffffff size)) [
      | inl wide ↦
          rw (wide, encode-ascii text h.0)
            (packed 3 (length text + 18) text (pack 8 base ++ pack 8 size ++ pack 1 perm)
              (IsAscii-bytes text h.0) (ground arith) (omega arith) (omega arith)
              (omega (arith, h.1)))
      | inr narrow ↦
          rw (narrow, encode-ascii text h.0)
            (packed 2 (length text + 12) text
              (pack 4 (base % 2 ^ 32) ++ pack 2 (base / 2 ^ 32) ++ pack 4 size ++ pack 1 perm)
              (IsAscii-bytes text h.0) (ground arith) (omega arith) (omega arith)
              (omega (arith, h.1)))
    ]
dump_field-IsBlock (mask n) h = record {
  tag = 4;
  size = 1;
  content = n % 256 ∷ [];
  shape = refl;
  tagged = omega arith;
  sized = refl;
  are_bytes = (omega arith, (omega arith, (omega arith, tt)));
}
dump_field-IsBlock (align_shift n) h = record {
  tag = 5;
  size = 1;
  content = n % 256 ∷ [];
  shape = refl;
  tagged = omega arith;
  sized = refl;
  are_bytes = (omega arith, (omega arith, (omega arith, tt)));
}

-- Where the fields begin, from `p` on.
abbrev pub offsets : ℕ → List Field → List ℕ
offsets p [] = []
offsets p (f ∷ fields) = p ∷ offsets (p + length (dump_field f)) fields

pub length-offsets : (p : ℕ) (fields : List Field) → length (offsets p fields) ≡ length fields
length-offsets p [] = refl
length-offsets p (f ∷ fields) = ap suc (length-offsets (p + length (dump_field f)) fields)

pub get_or-append_left :
    (xs ys : List ℕ) (i : ℕ) → i < length xs → get_or (xs ++ ys) i 0 ≡ get_or xs i 0
get_or-append_left [] ys i h = absurd (omega arith)
get_or-append_left (x ∷ xs) ys zero h = refl
get_or-append_left (x ∷ xs) ys (suc i) h = get_or-append_left xs ys i (omega arith)

pub get_or-append_right :
    (xs ys : List ℕ) (i : ℕ) → get_or (xs ++ ys) (length xs + i) 0 ≡ get_or ys i 0
get_or-append_right [] ys i = ap (λ k. get_or ys k 0) (omega arith)
get_or-append_right (x ∷ xs) ys i =
    let same : suc (length xs) + i ≡ suc (length xs + i) = omega arith in
    ap (λ k. get_or (x ∷ xs ++ ys) k 0) same ∙ get_or-append_right xs ys i

abbrev pub Reads : (ℕ → ℕ) → ℕ → List ℕ → Type 0
Reads buff p bytes = (i : ℕ) → buff (p + i) ≡ get_or bytes i 0

pub Reads-rest :
    (buff : ℕ → ℕ) (p : ℕ) (f : Field) (fields : List Field) (rest : List ℕ)
    → Reads buff p (dump_fields (f ∷ fields) ++ rest)
    → Reads buff (p + length (dump_field f)) (dump_fields fields ++ rest)
Reads-rest buff p f fields rest h i =
    let same : p + length (dump_field f) + i ≡ p + (length (dump_field f) + i) = omega arith in
    ap buff same
    ∙ h (length (dump_field f) + i)
    ∙ ap (λ bytes. get_or bytes (length (dump_field f) + i) 0)
        (append_assoc (dump_field f) (dump_fields fields) rest)
    ∙ get_or-append_right (dump_field f) (dump_fields fields ++ rest) i

-- A buffer that holds the fields and a 0 has their chain.
pub offsets-Chain :
    (buff : ℕ → ℕ) (p : ℕ) (fields : List Field) (rest : List ℕ)
    → All IsEntry fields
    → Reads buff p (dump_fields fields ++ 0 ∷ rest)
    → Chain buff (offsets p fields) p (p + length (dump_fields fields))
offsets-Chain buff p [] rest ok_ h =
    let here : p + 0 ≡ p = omega arith in (ap buff (sym here) ∙ h 0, sym here)
offsets-Chain buff p (f ∷ fields) rest ok_ h =
    let v = dump_field-IsBlock f ok_.0 in
    let tag_eq : buff p ≡ v.tag =
      ap buff (omega arith) ∙ h 0 ∙ first v.tag v.size v.content v.shape in
    let size_eq : buff (p + 1) ≡ v.size = h 1 ∙ second v.tag v.size v.content v.shape in
    let size_of : length (dump_field f) ≡ v.size + 2 = ap length v.shape ∙ omega (arith, v.sized) in
    let step : p + length (dump_field f) ≡ p + (buff (p + 1) + 2) =
      omega (arith, size_eq, size_of) in
    let stop : p + length (dump_field f) + length (dump_fields fields)
        ≡ p + length (dump_field f ++ dump_fields fields) =
      omega (arith, length-append (dump_field f) (dump_fields fields)) in
    (
      refl,
      (λ z. v.tagged (sym tag_eq ∙ z)),
      subst
          (λ q.
            Chain buff (offsets (p + length (dump_field f)) fields) q
              (p + length (dump_field f ++ dump_fields fields)))
          step
          (subst
            (λ e.
              Chain buff (offsets (p + length (dump_field f)) fields) (p + length (dump_field f)) e)
            stop
            (offsets-Chain buff (p + length (dump_field f)) fields rest ok_.1
              (Reads-rest buff p f fields (0 ∷ rest) h))),
    )
  where
    first :
        (tag size : ℕ) (content : List ℕ)
        → dump_field f ≡ tag ∷ size ∷ content
        → get_or (dump_field f ++ dump_fields fields ++ 0 ∷ rest) 0 0 ≡ tag
    first tag size content shape = ap (λ b. get_or (b ++ dump_fields fields ++ 0 ∷ rest) 0 0) shape

    second :
        (tag size : ℕ) (content : List ℕ)
        → dump_field f ≡ tag ∷ size ∷ content
        → get_or (dump_field f ++ dump_fields fields ++ 0 ∷ rest) 1 0 ≡ size
    second tag size content shape = ap (λ b. get_or (b ++ dump_fields fields ++ 0 ∷ rest) 1 0) shape

-- The bytes of field `i` stand from its offset on.
pub offsets-holds :
    (buff : ℕ → ℕ) (p : ℕ) (fields : List Field) (rest : List ℕ) (i : ℕ) (f : Field)
    → Reads buff p (dump_fields fields ++ rest)
    → get_elem? fields i ≡ some f
    → (x : ℕ) × (get_elem? (offsets p fields) i ≡ some x)
      × (x + length (dump_field f) ≤ p + length (dump_fields fields))
      × ((j : ℕ) → j < length (dump_field f) → buff (x + j) ≡ get_or (dump_field f) j 0)
offsets-holds buff p [] rest i f h e = cc
offsets-holds buff p (g ∷ fields) rest zero f h e =
    subst
      (λ k.
        (x : ℕ) × (get_elem? (offsets p (g ∷ fields)) 0 ≡ some x)
        × (x + length (dump_field k) ≤ p + length (dump_field g ++ dump_fields fields))
        × ((j : ℕ) → j < length (dump_field k) → buff (x + j) ≡ get_or (dump_field k) j 0))
      (some-injective g f e)
      (
        p,
        refl,
        omega (arith, length-append (dump_field g) (dump_fields fields)),
        λ j lt.
            h j
            ∙ get_or-append_left (dump_field g ++ dump_fields fields) rest j
                (omega (arith, length-append (dump_field g) (dump_fields fields)))
            ∙ get_or-append_left (dump_field g) (dump_fields fields) j lt,
      )
offsets-holds buff p (g ∷ fields) rest (suc i) f h e =
    let (x, at, within, bytes) =
      offsets-holds buff (p + length (dump_field g)) fields rest i f
        (Reads-rest buff p g fields rest h) e in
    (x, at, omega (arith, within, length-append (dump_field g) (dump_fields fields)), bytes)
