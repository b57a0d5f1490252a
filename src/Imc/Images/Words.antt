-- ===== src/Imc/Images/Words.antt =====
-- The words of a line of an IRAF image, in `imrl_tor` and `imwl_rto` of
-- demo/spcam/sdfred20100528/mosaic/imc/imc.c.
use pwrake.Prelude.{
  ℕ, zero, suc, Bool, ◌*◌, ◌^◌, ◌≤◌, ◌<◌, ◌≡◌, ◌⊎◌, refl, sym, ap, ◌∙◌, inl, inr, true, false,
  Bool-cases, ==→≡, List, [], ◌∷◌, some, map, length-map, arith, length, length-take, take, ◌==◌,
  some-inj,
}
use pwrake.Prelude.Int.{ℤ, pos}
use pwrake.Imc.Pixels.{Arith, nbyte, range_of, pixel_words}
use pwrake.Imc.Pixels.Swapped.{all_bytes, AreWords, length-all_bytes, pixel_words-all_bytes}
use pwrake.Imc.Pixels.Lines.{wrap-lt}
use pwrake.Imc.Images.{
  psiz_of, width, is_written, to_i4, to_u2, put_word, get_word, put_words, get_words,
}

is_written-cases : (d : ℕ) → is_written d ≡ true → (d ≡ 5) ⊎ ((d ≡ 6) ⊎ (d ≡ 11))
is_written-cases d h = elim (Bool-cases (d == 5)) [
  | inl e ↦ inl (==→≡ d 5 e)
  | inr e ↦ elim (Bool-cases (d == 6)) [
    | inl e' ↦ inr (inl (==→≡ d 6 e'))
    | inr e' ↦ inr (inr (==→≡ d 11 (rw (e, e') at h)))
  ]
]

-- The size in the table is the width in bytes.
pub psiz_of-width : (d : ℕ) → is_written d ≡ true → psiz_of d ≡ nbyte (width d)
psiz_of-width d h = elim (is_written-cases d h) [
  | inl e ↦ rw e refl
  | inr (inl e) ↦ rw e refl
  | inr (inr e) ↦ rw e refl
]

pub psiz_of-pos : (d : ℕ) → is_written d ≡ true → (psiz_of d == 0) ≡ false
psiz_of-pos d h = elim (is_written-cases d h) [
  | inl e ↦ rw e refl
  | inr (inl e) ↦ rw e refl
  | inr (inr e) ↦ rw e refl
]

module _ {F : Type 0} (o : Arith F) (trunc : F → ℤ) (lt : F → F → Bool) where
  to_i4-lt : (x : F) → to_i4 o trunc lt x < 4294967296
  unfolding to_i4
  to_i4-lt x = ground (arith, wrap-lt 4294967296 (trunc (o.plus x o.half)))

  to_u2-lt : (pixoff : ℕ) (x : F) → to_u2 o trunc lt pixoff x < 65536
  unfolding to_u2
  to_u2-lt pixoff x =
      ground (arith, wrap-lt 65536 (trunc (o.plus (o.plus x o.half) (o.of_int (pos pixoff)))))

  -- The words of a line.
  pub put_all : ℕ → ℕ → List F → List ℕ
  put_all d pixoff dp = map (λ x. put_word o trunc lt d pixoff x) dp

  pub put_words-ok :
      (d pixoff n : ℕ) (dp : List F)
      → n ≤ length dp
      → put_words o trunc lt d pixoff n dp
        ≡ some (all_bytes (width d) (put_all d pixoff (take n dp)))
  unfolding put_words all_bytes put_all
  put_words-ok d pixoff zero dp h = refl
  put_words-ok d pixoff (suc n) [] h = absurd (omega arith)
  put_words-ok d pixoff (suc n) (x ∷ dp) h = rw (put_words-ok d pixoff n dp (omega arith)) refl

  -- A pixel as it is stored in a file.
  abbrev pub stored : ℕ → ℕ → F → F
  stored d pixoff x = get_word o trunc lt d pixoff (put_word o trunc lt d pixoff x)

  get_words-put_all :
      (d pixoff : ℕ) (dp : List F)
      → get_words o trunc lt d pixoff (put_all d pixoff dp) ≡ map (stored d pixoff) dp
  unfolding get_words put_all
  get_words-put_all d pixoff [] = refl
  get_words-put_all d pixoff (x ∷ dp) = ap (◌∷◌ (stored d pixoff x)) (get_words-put_all d pixoff dp)

  pub length-line :
      (d pixoff n : ℕ) (dp : List F)
      → is_written d ≡ true
      → n ≤ length dp
      → length (all_bytes (width d) (put_all d pixoff (take n dp))) ≡ n * psiz_of d
  unfolding put_all
  length-line d pixoff n dp h le =
      length-all_bytes (width d) (put_all d pixoff (take n dp))
      ∙ ap (λ m. m * nbyte (width d))
          (length-map (λ x. put_word o trunc lt d pixoff x) (take n dp) ∙ length-take n dp le)
      ∙ ap (λ m. n * m) (sym (psiz_of-width d h))

  module _ (bits_fit : (x : F) → o.bits x < 2 ^ 32) where
    put_word-lt :
        (d pixoff : ℕ) (x : F)
        → is_written d ≡ true
        → put_word o trunc lt d pixoff x < range_of (width d)
    unfolding put_word
    put_word-lt d pixoff x h = elim (is_written-cases d h) [
      | inl e ↦ rw e (to_i4-lt x)
      | inr (inl e) ↦ rw e (bits_fit x)
      | inr (inr e) ↦ rw e (to_u2-lt pixoff x)
    ]

    pub put_all-AreWords :
        (d pixoff : ℕ) (dp : List F)
        → is_written d ≡ true
        → AreWords (width d) (put_all d pixoff dp)
    unfolding put_all
    put_all-AreWords d pixoff [] h i w at = ground arith
    put_all-AreWords d pixoff (x ∷ dp) h zero w at =
        let same : put_word o trunc lt d pixoff x ≡ w = some-inj at in
        rw same at (put_word-lt d pixoff x h)
    put_all-AreWords d pixoff (x ∷ dp) h (suc i) w at = put_all-AreWords d pixoff dp h i w at

    pub get_words-line :
        (d pixoff : ℕ) (dp : List F)
        → is_written d ≡ true
        → get_words o trunc lt d pixoff
            (pixel_words (width d) (all_bytes (width d) (put_all d pixoff dp)))
          ≡ map (stored d pixoff) dp
    get_words-line d pixoff dp h =
        ap (get_words o trunc lt d pixoff)
          (pixel_words-all_bytes (width d) (put_all d pixoff dp) (put_all-AreWords d pixoff dp h))
        ∙ get_words-put_all d pixoff dp
