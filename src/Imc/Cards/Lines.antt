-- ===== src/Imc/Cards/Lines.antt =====
-- The line of a key and a plain word in demo/spcam/sdfred20100528/mosaic/imc/imc.c.
use pwrake.Prelude.{
  ℕ, zero, suc, ◌+◌, ◌-◌, ◌≤◌, ◌≡◌, ◌≢◌, refl, ap, ◌∙◌, true, false, inl, inr, List, [], ◌∷◌, ◌++◌,
  none, some, arith, length, length-append, length-replicate, drop, replicate, append_assoc,
  replicate-append, Bool-cases, ◌==◌,
}
use pwrake.Imc.Text.{
  begins, behind, field, pad-append, take-short, field-append, length-field, word, scan_word,
  is_space, space, equals, quote,
}
use pwrake.Imc.Cards.{blanks, keyed, value_of, unquoted}

begins-append : (key t : List ℕ) → begins key (key ++ t) ≡ true
unfolding begins
begins-append [] t = refl
begins-append (k ∷ key) t =
    let same : (k == k) ≡ true = ground arith in rw same (begins-append key t)

behind-append : (c : ℕ) (s t : List ℕ) → behind c s ≡ none → behind c (s ++ (c ∷ t)) ≡ some t
unfolding behind
behind-append c [] t h = let same : (c == c) ≡ true = ground arith in rw same refl
behind-append c (d ∷ s) t h = elim (Bool-cases (d == c)) [
  | inl e ↦ absurd (ground (arith, rw e at h))
  | inr e ↦ rw e (behind-append c s t (rw e at h))
]

behind-spaces :
    (n : ℕ) (s : List ℕ) → behind equals s ≡ none → behind equals (s ++ replicate n space) ≡ none
unfolding behind
behind-spaces zero [] h = refl
behind-spaces (suc n) [] h = behind-spaces n [] h
behind-spaces n (d ∷ s) h = elim (Bool-cases (d == equals)) [
  | inl e ↦ absurd (ground (arith, rw e at h))
  | inr e ↦ rw e (behind-spaces n s (rw e at h))
]

-- The word before white space.
word-append : (v t : List ℕ) → word v ≡ v → word (v ++ (space ∷ t)) ≡ v
unfolding word
word-append [] t h = refl
word-append (c ∷ v) t h = elim (Bool-cases (is_space c)) [
  | inl e ↦ absurd (ground (arith, rw e at h))
  | inr e ↦ rw e (ap (◌∷◌ c) (word-append v t (ap (drop 1) (rw e at h))))
]

scan_word-start :
    (c : ℕ) (s : List ℕ) → is_space c ≡ false → scan_word (space ∷ (c ∷ s)) ≡ word (c ∷ s)
unfolding scan_word
scan_word-start c s h = rw h refl

unquoted-plain : (c : ℕ) (s : List ℕ) → c ≢ quote → unquoted (c ∷ s) ≡ c ∷ s
unfolding unquoted
unquoted-plain c s h = let e : (c == quote) ≡ false = ground (arith, h) in rw e refl

-- The line of a key and a plain word, with spaces behind it.
module _ (key v : List ℕ) (c : ℕ) (w : List ℕ) (shape : v ≡ c ∷ w) (plain : c ≢ quote)
    (one_word : word v ≡ v) (short_key : length key ≤ 8) (no_equals : behind equals key ≡ none)
    (short : length v ≤ 65) where
  abbrev line : ℕ → List ℕ
  line m = keyed key v ++ replicate (suc m) space

  key-field : field 8 key ≡ key ++ replicate (8 - length key) space
  key-field = rw (take-short 8 key short_key) (pad-append 8 key short_key)

  pub line-begins : (m : ℕ) → begins key (line m) ≡ true
  line-begins m =
      let rest = equals ∷ space ∷ v in
      let gap = replicate (8 - length key) space in
      let split : line m ≡ key ++ (gap ++ (rest ++ replicate (suc m) space)) = rw key-field (
        append_assoc (key ++ gap) rest (replicate (suc m) space)
        ∙ append_assoc key gap (rest ++ replicate (suc m) space)) in
      rw split (begins-append key _)

  pub line-behind : (m : ℕ) → behind equals (line m) ≡ some (space ∷ (v ++ replicate (suc m) space))
  line-behind m =
      let before : behind equals (field 8 key) ≡ none =
        rw key-field (behind-spaces (8 - length key) key no_equals) in
      rw (append_assoc (field 8 key) (equals ∷ space ∷ v) (replicate (suc m) space))
        (behind-append equals (field 8 key) (space ∷ (v ++ replicate (suc m) space)) before)

  starts_word : is_space c ≡ false
  unfolding word
  starts_word = elim (Bool-cases (is_space c)) [
    | inl e ↦ absurd (ground (arith, rw e at (rw shape at one_word)))
    | inr e ↦ e
  ]

  pub line-value : (m : ℕ) → value_of (space ∷ (v ++ replicate (suc m) space)) ≡ v
  unfolding value_of
  line-value m =
      let words : word ((c ∷ w) ++ (space ∷ replicate m space)) ≡ c ∷ w =
        rw shape at (word-append v (replicate m space) one_word) in
      rw shape (
        ap unquoted (scan_word-start c (w ++ (space ∷ replicate m space)) starts_word ∙ words)
        ∙ unquoted-plain c w plain)

  length-line : (m : ℕ) → length (line m) ≡ 8 + 2 + length v + suc m
  length-line m = omega (
    arith,
    length-append (keyed key v) (replicate (suc m) space),
    length-append (field 8 key) (equals ∷ space ∷ v),
    length-field 8 key,
    length-replicate (suc m) space,
  )

  pub replaced-line : field 75 (keyed key v) ++ blanks ≡ line (75 - length (keyed key v) + 13)
  replaced-line =
      let size : length (keyed key v) ≤ 75 =
        omega
          (arith, length-append (field 8 key) (equals ∷ space ∷ v), length-field 8 key, short) in
      let gap : ℕ = 75 - length (keyed key v) in
      let total : gap + 14 ≡ suc (gap + 13) = omega arith in
      rw (take-short 75 (keyed key v) size, pad-append 75 (keyed key v) size)
        (append_assoc (keyed key v) (replicate gap space) blanks
          ∙ ap (λ t. keyed key v ++ t) (rw total at (replicate-append gap 14 space)))

  pub added-line : field 80 (field 80 (keyed key v) ++ blanks) ≡ line (79 - length (keyed key v))
  added-line =
      let size : length (keyed key v) ≤ 75 =
        omega
          (arith, length-append (field 8 key) (equals ∷ space ∷ v), length-field 8 key, short) in
      let gap : 80 - length (keyed key v) ≡ suc (79 - length (keyed key v)) = omega arith in
      let spaces : field 80 (keyed key v) ≡ line (79 - length (keyed key v)) =
        rw (take-short 80 (keyed key v) (omega arith))
          (rw gap at (pad-append 80 (keyed key v) (omega arith))) in
      field-append 80 (field 80 (keyed key v)) blanks (length-field 80 (keyed key v)) ∙ spaces
