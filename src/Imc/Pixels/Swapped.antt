-- ===== src/Imc/Pixels/Swapped.antt =====
-- The words of a line of pixels and their bytes, in demo/spcam/sdfred20100528/mosaic/imc/imc_fits.c.
use mathlib.Core.Path.{ap₂}
use pwrake.Prelude.{
  ℕ, suc, ◌+◌, ◌*◌, ◌/◌, ◌%◌, ◌<◌, ◌≡◌, refl, sym, ap, ◌∙◌, true, false, inl, inr, Bool-cases, List,
  [], ◌∷◌, ◌++◌, some, arith, length, length-append, get_elem?, ◌==◌,
}
use pwrake.Imc.Header.{words, word}
use pwrake.Imc.Pixels.{
  nbyte, range_of, pixel_bytes, pairs, pixel_words, imc_fits_swap16, imc_fits_swap32, swapped,
}

swap16-swap16 : (b : List ℕ) → imc_fits_swap16 (imc_fits_swap16 b) ≡ b
unfolding imc_fits_swap16
swap16-swap16 [] = refl
swap16-swap16 (x ∷ []) = refl
swap16-swap16 (x ∷ y ∷ b) = ap (λ t. x ∷ y ∷ t) (swap16-swap16 b)

swap32-swap32 : (b : List ℕ) → imc_fits_swap32 (imc_fits_swap32 b) ≡ b
unfolding imc_fits_swap32
swap32-swap32 [] = refl
swap32-swap32 (x ∷ []) = refl
swap32-swap32 (x ∷ y ∷ []) = refl
swap32-swap32 (x ∷ y ∷ z ∷ []) = refl
swap32-swap32 (x ∷ y ∷ z ∷ w ∷ b) = ap (λ t. x ∷ y ∷ z ∷ w ∷ t) (swap32-swap32 b)

pub swapped-swapped : (dtype : ℕ) (b : List ℕ) → swapped dtype (swapped dtype b) ≡ b
unfolding swapped
swapped-swapped dtype b = elim (Bool-cases (dtype == 8)) [
  | inl e ↦ rw (swapped, e) refl
  | inr e ↦ elim (Bool-cases (dtype == 16)) [
    | inl e' ↦ rw (swapped, e, e') (swap16-swap16 b)
    | inr e' ↦ rw (swapped, e, e') (swap32-swap32 b)
  ]
]

length-swap16 : (b : List ℕ) → length (imc_fits_swap16 b) ≡ length b
unfolding imc_fits_swap16
length-swap16 [] = refl
length-swap16 (x ∷ []) = refl
length-swap16 (x ∷ y ∷ b) = ap (λ n. suc (suc n)) (length-swap16 b)

length-swap32 : (b : List ℕ) → length (imc_fits_swap32 b) ≡ length b
unfolding imc_fits_swap32
length-swap32 [] = refl
length-swap32 (x ∷ []) = refl
length-swap32 (x ∷ y ∷ []) = refl
length-swap32 (x ∷ y ∷ z ∷ []) = refl
length-swap32 (x ∷ y ∷ z ∷ w ∷ b) = ap (λ n. suc (suc (suc (suc n)))) (length-swap32 b)

pub length-swapped : (dtype : ℕ) (b : List ℕ) → length (swapped dtype b) ≡ length b
unfolding swapped
length-swapped dtype b = elim (Bool-cases (dtype == 8)) [
  | inl e ↦ rw (swapped, e) refl
  | inr e ↦ elim (Bool-cases (dtype == 16)) [
    | inl e' ↦ rw (swapped, e, e') (length-swap16 b)
    | inr e' ↦ rw (swapped, e, e') (length-swap32 b)
  ]
]

-- The bytes of the words of a line.
unfoldable pub all_bytes : ℕ → List ℕ → List ℕ
all_bytes dtype [] = []
all_bytes dtype (w ∷ ws) = pixel_bytes dtype w ++ all_bytes dtype ws

length-pixel_bytes : (dtype w : ℕ) → length (pixel_bytes dtype w) ≡ nbyte dtype
unfolding pixel_bytes
length-pixel_bytes dtype w = elim (Bool-cases (dtype == 8)) [
  | inl e ↦ rw (pixel_bytes, e) refl
  | inr e ↦ elim (Bool-cases (dtype == 16)) [
    | inl e' ↦ rw (pixel_bytes, e, e') refl
    | inr e' ↦ rw (pixel_bytes, e, e') refl
  ]
]

mul_suc : (m n : ℕ) → suc m * n ≡ n + m * n
mul_suc m n = omega arith

pub length-all_bytes :
    (dtype : ℕ) (ws : List ℕ) → length (all_bytes dtype ws) ≡ length ws * nbyte dtype
unfolding all_bytes
length-all_bytes dtype [] = omega arith
length-all_bytes dtype (w ∷ ws) =
    length-append (pixel_bytes dtype w) (all_bytes dtype ws)
    ∙ ap₂ (λ a b. a + b) (length-pixel_bytes dtype w) (length-all_bytes dtype ws)
    ∙ sym (mul_suc (length ws) (nbyte dtype))

-- All words lie in the range of the type.
abbrev pub AreWords : ℕ → List ℕ → Type 0
AreWords dtype ws = (i w : ℕ) → get_elem? ws i ≡ some w → w < range_of dtype

words-one : (dtype : ℕ) (ws : List ℕ) → (dtype == 8) ≡ true → all_bytes dtype ws ≡ ws
unfolding all_bytes pixel_bytes
words-one dtype [] e = refl
words-one dtype (w ∷ ws) e = rw (pixel_bytes, e) (ap (◌∷◌ w) (words-one dtype ws e))

words-two :
    (dtype : ℕ) (ws : List ℕ)
    → (dtype == 8) ≡ false
    → (dtype == 16) ≡ true
    → AreWords dtype ws
    → pairs (all_bytes dtype ws) ≡ ws
unfolding all_bytes pixel_bytes pairs
words-two dtype [] e e' small = refl
words-two dtype (w ∷ ws) e e' small =
    let below : w < 65536 = rw (e, e') at (small 0 w refl) in
    let whole : w % 256 + 256 * (w / 256 % 256) ≡ w = omega arith in
    rw (pixel_bytes, e, e')
      (ap₂ (λ a b. a ∷ b) whole (words-two dtype ws e e' (λ i v h. small (suc i) v h)))

words-four :
    (dtype : ℕ) (ws : List ℕ)
    → (dtype == 8) ≡ false
    → (dtype == 16) ≡ false
    → AreWords dtype ws
    → words (all_bytes dtype ws) ≡ ws
unfolding all_bytes pixel_bytes
words-four dtype [] e e' small = refl
words-four dtype (w ∷ ws) e e' small =
    let below : w < 4294967296 = rw (e, e') at (small 0 w refl) in
    let whole : word (w % 256) (w / 256 % 256) (w / 65536 % 256) (w / 16777216 % 256) ≡ w =
      omega arith in
    rw (pixel_bytes, e, e')
      (ap₂ (λ a b. a ∷ b) whole (words-four dtype ws e e' (λ i v h. small (suc i) v h)))

pub pixel_words-all_bytes :
    (dtype : ℕ) (ws : List ℕ) → AreWords dtype ws → pixel_words dtype (all_bytes dtype ws) ≡ ws
unfolding pixel_words
pixel_words-all_bytes dtype ws small = elim (Bool-cases (dtype == 8)) [
  | inl e ↦ rw (pixel_words, e) (words-one dtype ws e)
  | inr e ↦ elim (Bool-cases (dtype == 16)) [
    | inl e' ↦ rw (pixel_words, e, e') (words-two dtype ws e e' small)
    | inr e' ↦ rw (pixel_words, e, e') (words-four dtype ws e e' small)
  ]
]
