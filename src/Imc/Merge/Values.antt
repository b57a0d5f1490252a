-- ===== src/Imc/Merge/Values.antt =====
-- Which block gives a value after `imc_merge_icom` of demo/spcam/sdfred20100528/mosaic/imc/imc.c.
use pwrake.Prelude.{
  ℕ, suc, ◌≤◌, ◌<◌, ◌≡◌, ◌⊎◌, inl, inr, refl, sym, ap, ◌∙◌, Bool, Bool-cases, true, false, not,
  ◌||◌, List, [], ◌∷◌, ◌++◌, none, some, some-inj, map, arith, length, length-append, get_elem?,
  get_elem?-append_left, get_elem?-Returns, take, ltb, ◌==◌, Returns, returns, Returns-if,
  Returns-bind, if◌then◌else◌,
}
use pwrake.Imc.Text.{begins, equals}
use pwrake.Imc.Cards.{imadd_fits, imget_fits_value, find_value}
use pwrake.Imc.Cards.Kept.{IsBlock}
use pwrake.Imc.Merge.{listed, merge_lines, imc_merge_icom}
use pwrake.Imc.Merge.Found.{
  Value, one, scan, imget-scan, imget-snoc, cut, imadd_fits-cut, cut-take, length-cut, begins-take,
  begins-same_start,
}

-- Some line begins with the key.
abbrev pub has_key : List ℕ → List (List ℕ) → Bool
has_key key [] = false
has_key key (l ∷ cards) = if begins key l then true else has_key key cards

-- A line that begins with the key has `=` behind 8 characters.
abbrev pub AreFields : List ℕ → List (List ℕ) → Type 0
AreFields key cards =
    (i : ℕ) (l : List ℕ)
    → get_elem? cards i ≡ some l
    → begins key l ≡ true
    → get_elem? l 8 ≡ some equals

one_other : (key l : List ℕ) (v : Value) → length l < 128 → begins key l ≡ false → one key l v ≡ v
one_other key l v h nb = let fits : ltb (length l) 128 ≡ true = ground arith in rw (fits, nb) refl

imget-empty : (key : List ℕ) → imget_fits_value key [] ≡ some none
unfolding imget_fits_value find_value
imget-empty key = refl

module _ (key : List ℕ) (eight : length key ≡ 8) where
  -- A line as it is added.
  begins-cut : (l : List ℕ) → 80 ≤ length l → begins key (cut l) ≡ begins key l
  begins-cut l h = ap (begins key) (cut-take l h) ∙ begins-take 80 key l (omega (arith, eight))

  one-cut : (l : List ℕ) (v : Value) → 80 ≤ length l → begins key l ≡ false → one key (cut l) v ≡ v
  one-cut l v h nb = one_other key (cut l) v (omega (arith, length-cut l)) (begins-cut l h ∙ nb)

  listed-has_key :
      (line : List ℕ) (keys : List (List ℕ))
      → begins key line ≡ true
      → listed (take 8 line) keys ≡ has_key key keys
  unfolding listed
  listed-has_key line [] b = refl
  listed-has_key line (k ∷ keys) b =
      rw
        (
          begins-same_start 8 key (take 8 line) k eight
              (begins-take 8 key line (omega (arith, eight)) ∙ b),
          listed-has_key line keys b,
        )
        refl

  has_key-take : (cards : List (List ℕ)) → has_key key (map (take 8) cards) ≡ has_key key cards
  has_key-take [] = refl
  has_key-take (l ∷ cards) =
      rw (begins-take 8 key l (omega (arith, eight)), has_key-take cards) refl

  scan-cut :
      (v : Value) (cards : List (List ℕ))
      → IsBlock cards
      → scan key v (map cut cards) ≡ scan key v (map (take 80) cards)
  unfolding scan
  scan-cut v [] all = refl
  scan-cut v (l ∷ cards) all =
      rw (cut-take l (all 0 l refl).0)
        (scan-cut (one key (take 80 l) v) cards (λ i k h. all (suc i) k h))

  scan-none :
      (v : Value) (cards : List (List ℕ))
      → IsBlock cards
      → has_key key cards ≡ false
      → scan key v cards ≡ v
  unfolding scan
  scan-none v [] all none_here = refl
  scan-none v (l ∷ cards) all none_here = elim (Bool-cases (begins key l)) [
    | inl b ↦ absurd (ground (arith, rw b at none_here))
    | inr nb ↦
        ap (λ a. scan key a cards) (one_other key l v (omega (arith, (all 0 l refl).1)) nb)
        ∙ scan-none v cards (λ i k h. all (suc i) k h) (rw nb at none_here)
  ]

  module _ (key0 key1 : List (List ℕ)) where
    -- The lines are merged without a fault, and the value is as the rule gives it.
    abbrev Merged : Value → List (List ℕ) → List (List ℕ) → Type 0
    Merged v lines icom1 =
        Returns (λ m. imget_fits_value key m ≡ v) (merge_lines key0 key1 lines icom1)

    imget-imadd :
        (icom1 : List (List ℕ)) (l : List ℕ)
        → imget_fits_value key (imadd_fits icom1 l) ≡ one key (cut l) (imget_fits_value key icom1)
    imget-imadd icom1 l =
        ap (imget_fits_value key) (imadd_fits-cut icom1 l) ∙ imget-snoc key icom1 (cut l)

    -- What the loop does with a line.
    merge_step :
        (v : Value) (line : List ℕ) (lines icom1 : List (List ℕ))
        → 80 ≤ length line
        → (begins key line ≡ true → get_elem? line 8 ≡ some equals)
        → (begins key line ≡ false ⊎ ((has_key key key0 ≡ false) × (has_key key key1 ≡ false))
            → Merged v lines (imadd_fits icom1 line))
        → (begins key line ≡ false ⊎ ((has_key key key0 || has_key key key1) ≡ true)
            → Merged v lines icom1)
        → Merged v (line ∷ lines) icom1
    unfolding merge_lines
    merge_step v line lines icom1 long field added left =
        Returns-bind
          (get_elem?-Returns (line ++ (0 ∷ [])) 8 (omega (arith, length-append line (0 ∷ []))))
          (λ c at.
            let here : get_elem? line 8 ≡ some c =
              sym (get_elem?-append_left line (0 ∷ []) 8 (omega arith)) ∙ at in
            elim (Bool-cases (begins key line)) [
              | inr nb ↦
                  Returns-if (not (c == equals)) (λ _. added (inl nb))
                    (λ _.
                      Returns-if (listed (take 8 line) key0) (λ _. left (inl nb))
                        (λ _.
                          Returns-if (listed (take 8 line) key1) (λ _. left (inl nb))
                            (λ _. added (inl nb))))
              | inl b ↦
                  let same : c ≡ equals = some-inj (sym here ∙ field b) in
                  let e0 = listed-has_key line key0 b in
                  let e1 = listed-has_key line key1 b in
                  Returns-if (not (c == equals)) (λ e. absurd (ground (arith, e, same)))
                    (λ _.
                      Returns-if (listed (take 8 line) key0)
                        (λ h. left (inr (ground (arith, sym e0 ∙ h))))
                        (λ h.
                          Returns-if (listed (take 8 line) key1)
                            (λ h'. left (inr (ground (arith, sym e1 ∙ h'))))
                            (λ h'. added (inr (sym e0 ∙ h, sym e1 ∙ h')))))
            ])

    merge-kept :
        (lines icom1 : List (List ℕ))
        → IsBlock lines
        → AreFields key lines
        → (has_key key key0 || has_key key key1) ≡ true
        → Merged (imget_fits_value key icom1) lines icom1
    unfolding merge_lines
    merge-kept [] icom1 all fields b = returns refl
    merge-kept (line ∷ lines) icom1 all fields b =
        let rest : (icom : List (List ℕ)) → Merged (imget_fits_value key icom) lines icom = λ icom.
          merge-kept lines icom (λ i l h. all (suc i) l h) (λ i l h. fields (suc i) l h) b in
        let long = (all 0 line refl).0 in
        merge_step (imget_fits_value key icom1) line lines icom1 long (fields 0 line refl)
          (λ why. elim why [
            | inl nb ↦
                let same : imget_fits_value key (imadd_fits icom1 line)
                    ≡ imget_fits_value key icom1 =
                  imget-imadd icom1 line ∙ one-cut line (imget_fits_value key icom1) long nb in
                rw same at (rest (imadd_fits icom1 line))
            | inr (z0, z1) ↦ absurd (ground (arith, rw (z0, z1) at b))
          ])
          (λ why. rest icom1)

    merge-taken :
        (lines icom1 : List (List ℕ))
        → IsBlock lines
        → AreFields key lines
        → (has_key key key0 || has_key key key1) ≡ false
        → Merged (scan key (imget_fits_value key icom1) (map cut lines)) lines icom1
    unfolding merge_lines scan
    merge-taken [] icom1 all fields z = returns refl
    merge-taken (line ∷ lines) icom1 all fields z =
        let rest : (icom : List (List ℕ))
            → Merged (scan key (imget_fits_value key icom) (map cut lines)) lines icom =
          λ icom.
            merge-taken lines icom (λ i l h. all (suc i) l h) (λ i l h. fields (suc i) l h) z in
        let long = (all 0 line refl).0 in
        merge_step (scan key (one key (cut line) (imget_fits_value key icom1)) (map cut lines)) line
          lines icom1 long (fields 0 line refl)
          (λ why. rw (imget-imadd icom1 line) at (rest (imadd_fits icom1 line)))
          (λ why. elim why [
            | inl nb ↦ rw (one-cut line (imget_fits_value key icom1) long nb) (rest icom1)
            | inr b ↦ absurd (ground (arith, sym z ∙ b))
          ])

  -- Of two blocks whose lines have 80 to 89 characters, of which those of the second that begin with a key
  -- of 8 characters have `=` behind it, the value of the key after the merge is the first block's if the
  -- key is one of `key0` or begins a line of the first, and otherwise that of the second with its lines cut
  -- to 80 characters; `imc_merge_icom` does not fault.
  pub imget_fits_value-imc_merge_icom :
      (key0 icom2 icom1 : List (List ℕ))
      → IsBlock icom1
      → IsBlock icom2
      → AreFields key icom2
      → Returns
          (λ m. imget_fits_value key m ≡ (
            if has_key key key0 || has_key key icom1
            then imget_fits_value key icom1
            else imget_fits_value key (map (take 80) icom2)))
          (imc_merge_icom key0 icom2 icom1)
  unfolding imc_merge_icom
  imget_fits_value-imc_merge_icom key0 icom2 icom1 first second fields =
      let keys = map (take 8) icom1 in
      elim (Bool-cases (has_key key key0 || has_key key icom1)) [
        | inl b ↦ rw b (merge-kept key0 keys icom2 icom1 second fields (rw (has_key-take icom1) b))
        | inr z ↦
            let absent : has_key key icom1 ≡ false = ground (arith, z) in
            let empty : imget_fits_value key [] ≡ some none = imget-empty key in
            let before : imget_fits_value key icom1 ≡ some none =
              imget-scan key [] icom1
              ∙ ap (λ v. scan key v icom1) empty
              ∙ scan-none (some none) icom1 first absent in
            let after : scan key (imget_fits_value key icom1) (map cut icom2)
                ≡ imget_fits_value key (map (take 80) icom2) =
              ap (λ v. scan key v (map cut icom2)) (before ∙ sym empty)
              ∙ scan-cut (imget_fits_value key []) icom2 second
              ∙ sym (imget-scan key [] (map (take 80) icom2)) in
            rw z (
              rw after at
                (merge-taken key0 keys icom2 icom1 second fields (rw (has_key-take icom1) z)))
      ]
