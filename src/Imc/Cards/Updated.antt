-- ===== src/Imc/Cards/Updated.antt =====
-- What `imget_fits_value` finds after `imupdate_fitsf`, in demo/spcam/sdfred20100528/mosaic/imc/imc.c.
use pwrake.Prelude.{
  ℕ, zero, suc, ◌+◌, ◌-◌, ◌≤◌, ◌<◌, ◌≡◌, ◌≢◌, refl, sym, ap, ◌∙◌, ◌⊎◌, Bool, true, false, inl, inr,
  List, [], ◌∷◌, ◌++◌, none, some, arith, length, length-append, get_elem?, get_elem?-set,
  get_elem?-ok, get_elem?-lt, set, replicate, Returns, returns, Returns-bind, Returns-if,
  Returns-both, get_elem?-append_right, some-inj, Bool-cases, ==→≡, ltb, ◌==◌, if◌then◌else◌,
}
use pwrake.Imc.Text.{begins, behind, field, length-field, word, space, equals, quote}
use pwrake.Imc.Cards.{
  imadd_fits, imrep_fits, imupdate_fitsf, imget_fits_value, find_value, blanks, keyed, value_of,
}
use pwrake.Imc.Cards.Kept.{IsBlock, strcpy-Returns, imrep_fits-IsBlock, imadd_fits-IsBlock}
use pwrake.Imc.Cards.Lines.{line-begins, line-behind, line-value, replaced-line, added-line}

-- What `imrep_fits` leaves: the block, if no line begins with the key, or one of its lines replaced.
abbrev IsReplaced : List ℕ → List ℕ → List (List ℕ) → Bool × List (List ℕ) → Type 0
IsReplaced key new cards (found, after) =
    ((found ≡ false)
      × (after ≡ cards)
      × ((i : ℕ) (l : List ℕ) → get_elem? cards i ≡ some l → begins key l ≡ false))
    ⊎ ((i : ℕ) × (l : List ℕ) × (get_elem? cards i ≡ some l)
        × (begins key l ≡ true)
        × (found ≡ true)
        × (after ≡ set cards i new))

no_first :
    (key l : List ℕ) (cards : List (List ℕ))
    → begins key l ≡ false
    → ((i : ℕ) (k : List ℕ) → get_elem? cards i ≡ some k → begins key k ≡ false)
    → (i : ℕ) (k : List ℕ) → get_elem? (l ∷ cards) i ≡ some k
    → begins key k ≡ false
no_first key l cards miss none_begins zero k h = let same : l ≡ k = some-inj h in rw same at miss
no_first key l cards miss none_begins (suc i) k h = none_begins i k h

imrep_fits-IsReplaced :
    (key s : List ℕ) (cards : List (List ℕ))
    → IsBlock cards
    → Returns (IsReplaced key (field 75 s ++ blanks) cards) (imrep_fits key s cards)
unfolding imrep_fits
imrep_fits-IsReplaced key s [] all = returns (inl (refl, refl, λ i l h. ground arith))
imrep_fits-IsReplaced key s (l ∷ cards) all =
    Returns-bind (strcpy-Returns 90 l (all 0 l refl).1) (λ ss same.
      Returns-if (begins key ss) (λ hit. returns (inr (0, l, refl, rw same at hit, refl, refl)))
        (λ miss.
          Returns-bind (imrep_fits-IsReplaced key s cards (λ i k h. all (suc i) k h))
            (λ (found, after) kept. returns (behind_first found after kept (rw same at miss)))))
  where
    behind_first :
        (found : Bool) (after : List (List ℕ))
        → IsReplaced key (field 75 s ++ blanks) cards (found, after)
        → begins key l ≡ false
        → IsReplaced key (field 75 s ++ blanks) (l ∷ cards) (found, l ∷ after)
    behind_first found after (inl (no_line, same, none_begins)) miss =
        inl (no_line, ap (◌∷◌ l) same, λ i k h. no_first key l cards miss none_begins i k h)
    behind_first found after (inr (i, k, at, hit, yes_line, same)) miss =
        inr (suc i, k, at, hit, yes_line, ap (◌∷◌ l) same)

-- The search from the end stops at the last line that begins with the key.
find_value-at :
    (key : List ℕ) (cards : List (List ℕ)) (n i : ℕ) (l cp : List ℕ)
    → i < n
    → n ≤ length cards
    → get_elem? cards i ≡ some l
    → begins key l ≡ true
    → behind equals l ≡ some cp
    → ((j : ℕ) (k : List ℕ) → get_elem? cards j ≡ some k → length k < 128)
    → ((j : ℕ) (k : List ℕ) → i < j → get_elem? cards j ≡ some k → begins key k ≡ false)
    → find_value key cards n ≡ some (some (value_of cp))
unfolding find_value
find_value-at key cards zero i l cp lt le at hit eq_at sizes later = absurd (omega arith)
find_value-at key cards (suc n) i l cp lt le at hit eq_at sizes later = elim (Bool-cases (i == n)) [
  | inl e ↦
      let same : get_elem? cards n ≡ some l = rw (==→≡ i n e) at at in
      let fits : ltb (length l) 128 ≡ true = ground (arith, sizes i l at) in
      rw (same, fits, hit, eq_at) refl
  | inr e ↦
      let before : i < n = ground (arith, e, lt) in
      let (k, hk) = get_elem?-ok cards n (omega arith) in
      let fits : ltb (length k) 128 ≡ true = ground (arith, sizes n k hk) in
      let rest = find_value-at key cards n i l cp before (omega arith) at hit eq_at sizes later in
      rw (hk, fits, later n k before hk) rest
]

module _ (key v : List ℕ) (c : ℕ) (w : List ℕ) (shape : v ≡ c ∷ w) (plain : c ≢ quote)
    (one_word : word v ≡ v) (short_key : length key ≤ 8) (no_equals : behind equals key ≡ none)
    (short : length v ≤ 65) where
  -- A block in which the last line that begins with the key is that of the value.
  found_line :
      (cards : List (List ℕ)) (i m : ℕ)
      → IsBlock cards
      → get_elem? cards i ≡ some (keyed key v ++ replicate (suc m) space)
      → ((j : ℕ) (k : List ℕ) → i < j → get_elem? cards j ≡ some k → begins key k ≡ false)
      → imget_fits_value key cards ≡ some (some v)
  unfolding imget_fits_value
  found_line cards i m all at later =
      let cp = space ∷ (v ++ replicate (suc m) space) in
      find_value-at key cards (length cards) i (keyed key v ++ replicate (suc m) space) cp
        (get_elem?-lt cards i at) (omega arith) at
        (line-begins key v c w shape plain one_word short_key no_equals short m)
        (line-behind key v c w shape plain one_word short_key no_equals short m)
        (λ j k h. omega (arith, (all j k h).1)) later
      ∙ ap (λ t. some (some t))
          (line-value key v c w shape plain one_word short_key no_equals short m)

  abbrev new_line : List ℕ
  new_line = field 75 (keyed key v) ++ blanks

  abbrev IsUnique : List (List ℕ) → Type 0
  IsUnique cards =
      (i j : ℕ) (l k : List ℕ)
      → get_elem? cards i ≡ some l
      → get_elem? cards j ≡ some k
      → begins key l ≡ true
      → begins key k ≡ true
      → i ≡ j

  after_update :
      (cards : List (List ℕ))
      → IsBlock cards
      → IsUnique cards
      → (found : Bool) (after : List (List ℕ)) → IsReplaced key new_line cards (found, after)
      → IsBlock after
      → imget_fits_value key (if found then after else imadd_fits after (keyed key v))
        ≡ some (some v)
  unfolding imadd_fits
  after_update cards all only found after (inl (missing, same, none_begins)) block =
      let new = field 80 (field 80 (keyed key v) ++ blanks) in
      let is_line = added-line key v c w shape plain one_word short_key no_equals short in
      let longer = length-append cards (new ∷ []) in
      let at : get_elem? (cards ++ (new ∷ [])) (length cards) ≡ some _ =
        get_elem?-append_right cards (new ∷ []) (length cards) 0 (omega arith) ∙ ap some is_line in
      let found_there =
        found_line (cards ++ (new ∷ [])) (length cards) (79 - length (keyed key v))
          (imadd_fits-IsBlock cards (keyed key v) all) at
          (λ j k lt h. absurd (omega (arith, longer, get_elem?-lt (cards ++ (new ∷ [])) j h))) in
      rw (missing, same) found_there
  after_update cards all only found after (inr (i, l, at, hit, there, same)) block =
      let is_line = replaced-line key v c w shape plain one_word short_key no_equals short in
      let inside = get_elem?-lt cards i at in
      let here : (i == i) ≡ true = ground arith in
      let at' : get_elem? (set cards i new_line) i ≡ some new_line =
        get_elem?-set cards i i new_line inside ∙ rw here refl in
      let found_there =
        found_line (set cards i new_line) i (75 - length (keyed key v) + 13) (rw same at block)
          (at' ∙ ap some is_line)
          (λ j k lt h.
            let apart : (i == j) ≡ false = ground (arith, lt) in
            let old : get_elem? cards j ≡ some k =
              rw apart at (sym (get_elem?-set cards i j new_line inside) ∙ h) in
            elim (Bool-cases (begins key k)) [
              | inl e ↦ absurd (omega (arith, lt, only i j l k at old hit e))
              | inr e ↦ e
            ]) in
      rw (there, same) found_there

  -- If no two lines of a block begin with the key, then after an update with a plain word the
  -- search for the key finds the word. The key has at most 8 characters and no `=`, the word at most
  -- 65, no white space, and no quote at its start.
  pub imget_fits_value-imupdate_fitsf :
      (cards : List (List ℕ))
      → IsBlock cards
      → IsUnique cards
      → Returns (λ after. imget_fits_value key after ≡ some (some v)) (imupdate_fitsf key v cards)
  unfolding imupdate_fitsf
  imget_fits_value-imupdate_fitsf cards all only =
      let size : length (keyed key v) < 8192 =
        omega
          (arith, length-append (field 8 key) (equals ∷ space ∷ v), length-field 8 key, short) in
      let kept = imrep_fits-IsBlock key (keyed key v) cards all in
      Returns-bind (strcpy-Returns 8192 (keyed key v) size) (λ line same. rw same (
        Returns-bind (Returns-both (imrep_fits-IsReplaced key (keyed key v) cards all) kept)
          (λ (found, after) (how, block).
            returns (after_update cards all only found after how block))))
