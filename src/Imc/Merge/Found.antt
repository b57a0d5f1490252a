-- ===== src/Imc/Merge/Found.antt =====
-- The values of a merged block, in `imc_merge_icom` and `imget_fits_value` of
-- demo/spcam/sdfred20100528/mosaic/imc/imc.c.
use pwrake.Prelude.{
  ℕ, zero, suc, ◌≤◌, ◌≡◌, inl, inr, refl, sym, ap, ◌∙◌, Bool-cases, ==→≡, true, List, [], ◌∷◌, ◌++◌,
  append_assoc, append-nil, Option, none, some, arith, length, length-append, length-take,
  take-append-drop, drop, get_elem?, get_elem?-append_left, get_elem?-append_right, take, ◌==◌,
  ◌>>=◌, if◌then◌else◌,
}
use pwrake.Imc.Text.{begins, behind, equals, strcpy, field, field-append, length-field}
use pwrake.Imc.Cards.{blanks, imadd_fits, imget_fits_value, find_value, value_of}
use pwrake.Imc.Merge.{same_start}

abbrev pub Value : Type 0
Value = Option (Option (List ℕ))

-- The search in one more line at the end.
abbrev pub one : List ℕ → List ℕ → Value → Value
one key l later = do
  s ← strcpy 128 l
  let found : Value = elim (behind equals s) [ none ↦ later | some cp ↦ some (some (value_of cp)) ]
  if begins key s then found else later

unfoldable pub scan : List ℕ → Value → List (List ℕ) → Value
scan key acc [] = acc
scan key acc (l ∷ cards) = scan key (one key l acc) cards

find_step :
    (key : List ℕ) (cards : List (List ℕ)) (i : ℕ)
    → find_value key cards (suc i) ≡ (get_elem? cards i >>= λ l. one key l (find_value key cards i))
unfolding find_value
find_step key cards i = refl

find_some :
    (key : List ℕ) (cards : List (List ℕ)) (i : ℕ) (l : List ℕ)
    → get_elem? cards i ≡ some l
    → find_value key cards (suc i) ≡ one key l (find_value key cards i)
find_some key cards i l h = rw (find_step key cards i, h, ◌>>=◌) refl

find_value-append :
    (key : List ℕ) (xs ys : List (List ℕ)) (i : ℕ)
    → i ≤ length xs
    → find_value key (xs ++ ys) i ≡ find_value key xs i
unfolding find_value
find_value-append key xs ys zero h = refl
find_value-append key xs ys (suc i) h =
    find_step key (xs ++ ys) i
    ∙ ap (λ g. g >>= λ l. one key l (find_value key (xs ++ ys) i)) (get_elem?-append_left xs ys i h)
    ∙ ap (λ v. get_elem? xs i >>= λ l. one key l v)
        (find_value-append key xs ys i (omega (arith, h)))
    ∙ sym (find_step key xs i)

pub imget-snoc :
    (key : List ℕ) (xs : List (List ℕ)) (l : List ℕ)
    → imget_fits_value key (xs ++ (l ∷ [])) ≡ one key l (imget_fits_value key xs)
unfolding imget_fits_value
imget-snoc key xs l =
    let size : length (xs ++ (l ∷ [])) ≡ suc (length xs) =
      omega (arith, length-append xs (l ∷ [])) in
    let last : get_elem? (xs ++ (l ∷ [])) (length xs) ≡ some l =
      get_elem?-append_right xs (l ∷ []) (length xs) 0 (omega arith) in
    ap (find_value key (xs ++ (l ∷ []))) size
    ∙ find_some key (xs ++ (l ∷ [])) (length xs) l last
    ∙ ap (one key l) (find_value-append key xs (l ∷ []) (length xs) (omega arith))

pub imget-scan :
    (key : List ℕ) (xs ys : List (List ℕ))
    → imget_fits_value key (xs ++ ys) ≡ scan key (imget_fits_value key xs) ys
unfolding scan
imget-scan key xs [] = ap (imget_fits_value key) (append-nil xs)
imget-scan key xs (l ∷ ys) =
    ap (imget_fits_value key) (sym (append_assoc xs (l ∷ []) ys))
    ∙ imget-scan key (xs ++ (l ∷ [])) ys
    ∙ ap (λ v. scan key v ys) (imget-snoc key xs l)

-- A line that is cut to 80 characters by `imadd_fits`.
unfoldable pub cut : List ℕ → List ℕ
cut l = field 80 (field 80 l ++ blanks)

pub imadd_fits-cut :
    (icom1 : List (List ℕ)) (l : List ℕ) → imadd_fits icom1 l ≡ icom1 ++ (cut l ∷ [])
unfolding imadd_fits cut
imadd_fits-cut icom1 l = refl

pub length-cut : (l : List ℕ) → length (cut l) ≡ 80
unfolding cut
length-cut l = length-field 80 (field 80 l ++ blanks)

pub cut-take : (l : List ℕ) → 80 ≤ length l → cut l ≡ take 80 l
unfolding cut
cut-take l h =
    let size : length (take 80 l) ≡ 80 = length-take 80 l h in
    let full : field 80 l ≡ take 80 l =
      ap (field 80) (sym (take-append-drop 80 l)) ∙ field-append 80 (take 80 l) (drop 80 l) size in
    ap (λ s. field 80 (s ++ blanks)) full ∙ field-append 80 (take 80 l) blanks size

pub begins-take : (n : ℕ) (key l : List ℕ) → length key ≤ n → begins key (take n l) ≡ begins key l
unfolding begins
begins-take n [] l h = refl
begins-take zero (k ∷ key) l h = absurd (omega arith)
begins-take (suc n) (k ∷ key) [] h = refl
begins-take (suc n) (k ∷ key) (c ∷ l) h = rw (begins-take n key l (omega arith)) refl

-- Two texts with the same key at their start have the same start.
pub begins-same_start :
    (n : ℕ) (key a b : List ℕ)
    → length key ≡ n
    → begins key a ≡ true
    → same_start n a b ≡ begins key b
unfolding begins same_start
begins-same_start zero [] a b e h = refl
begins-same_start (suc n) [] a b e h = absurd (omega arith)
begins-same_start zero (k ∷ key) a b e h = absurd (omega arith)
begins-same_start (suc n) (k ∷ key) [] b e h = ground (arith, h)
begins-same_start (suc n) (k ∷ key) (c ∷ a) [] e h = refl
begins-same_start (suc n) (k ∷ key) (c ∷ a) (d ∷ b) e h = elim (Bool-cases (c == k)) [
  | inl same ↦
      let rest = begins-same_start n key a b (omega (arith, e)) (rw same at h) in
      let there : c ≡ k = ==→≡ c k same in
      let test : (c == d) ≡ (d == k) = ground (arith, there) in rw (test, rest) refl
  | inr other ↦ absurd (ground (arith, rw other at h))
]
