-- ===== src/Match/Scan/Words.antt =====
-- The words of a line, and the steps of the scan.
use pwrake.Prelude.{
  ℕ, zero, suc, ◌+◌, ◌<◌, ◌≡◌, ap, ◌⊎◌, inl, inr, true, false, List, [], ◌∷◌, ◌++◌, some, arith,
  length, take, drop, get_elem?, ◌==◌, ◌>>=◌, if◌then◌else◌,
}
use pwrake.Match.Scan.{
  Scanner, Status, update, max_columns, ends_line, is_blank, close_column, scan_line,
}

abbrev close : List ℕ → List (List ℕ)
close [] = []
close (c ∷ w) = (c ∷ w) ∷ []

-- The words of a line up to its NUL or `#`, after the bytes `w` of a word that has begun.
unfoldable pub words : List ℕ → List ℕ → List (List ℕ)
words w [] = close w
words w (ch ∷ rest) =
    let blank = close w ++ words [] rest in
    let letter = words (w ++ ch ∷ []) rest in
    if ends_line ch then close w else if is_blank ch then blank else letter

-- The first column is given a length too great by the `len` that an earlier line left.
abbrev pub carry : ℕ → ℕ → ℕ
carry len0 k = if k == 0 then len0 else 0

-- The `k`-th column is recorded as the place of `w` in the line `s`.
abbrev pub IsRecorded : List ℕ → ℕ → Scanner → ℕ → List ℕ → Type 0
IsRecorded s len0 st k w =
    (st.alen k ≡ length w + carry len0 k) × (take (length w) (drop (st.apos k) s) ≡ w)

abbrev pub AllRecorded : List ℕ → ℕ → Scanner → List (List ℕ) → Type 0
AllRecorded s len0 st ws =
    (st.count ≡ length ws)
    × ((k : ℕ) (w : List ℕ) → get_elem? ws k ≡ some w → IsRecorded s len0 st k w)

-- The line has its NUL, or a `#`.
abbrev pub Ended : List ℕ → Type 0
Ended [] = ⊥
Ended (ch ∷ rest) = (ends_line ch ≡ true) ⊎ Ended rest

pub still-Ended : (ch : ℕ) (rest : List ℕ) → Ended (ch ∷ rest) → ends_line ch ≡ false → Ended rest
still-Ended ch rest (inl h) e = cc
still-Ended ch rest (inr h) e = h

pub drop-suc :
    {A : Type 0} (i : ℕ) (s : List A) {x : A} {xs : List A}
    → drop i s ≡ x ∷ xs
    → drop (suc i) s ≡ xs
drop-suc zero [] h = ground arith
drop-suc zero (y ∷ s) h = ground arith
drop-suc (suc i) [] h = ground arith
drop-suc (suc i) (y ∷ s) h = drop-suc i s h

pub take-snoc :
    {A : Type 0} (p n i : ℕ) (s : List A) {x : A} {xs : List A}
    → p + n ≡ i
    → drop i s ≡ x ∷ xs
    → take (suc n) (drop p s) ≡ take n (drop p s) ++ x ∷ []
take-snoc p n zero [] e h = ground arith
take-snoc p n (suc i) [] e h = ground arith
take-snoc zero zero zero (y ∷ s) e h = ground arith
take-snoc zero zero (suc i) (y ∷ s) e h = absurd (omega arith)
take-snoc zero (suc n) zero (y ∷ s) e h = absurd (omega arith)
take-snoc zero (suc n) (suc i) (y ∷ s) e h = ap (◌∷◌ y) (take-snoc zero n i s (omega arith) h)
take-snoc (suc p) n zero (y ∷ s) e h = absurd (omega arith)
take-snoc (suc p) n (suc i) (y ∷ s) e h = take-snoc p n i s (omega arith) h

pub update_self : (f : ℕ → ℕ) (k v : ℕ) → update f k v k ≡ v
update_self f k v = ground arith

pub words-end :
    (w : List ℕ) (ch : ℕ) (rest : List ℕ) → ends_line ch ≡ true → words w (ch ∷ rest) ≡ close w
unfolding words
words-end w ch rest e = rw e

pub words-blank :
    (w : List ℕ) (ch : ℕ) (rest : List ℕ)
    → ends_line ch ≡ false
    → is_blank ch ≡ true
    → words w (ch ∷ rest) ≡ close w ++ words [] rest
unfolding words
words-blank w ch rest e b = rw (e, b)

pub words-letter :
    (w : List ℕ) (ch : ℕ) (rest : List ℕ)
    → ends_line ch ≡ false
    → is_blank ch ≡ false
    → words w (ch ∷ rest) ≡ words (w ++ ch ∷ []) rest
unfolding words
words-letter w ch rest e b = rw (e, b)

module _ (i ch : ℕ) (rest : List ℕ) (st : Scanner) where
  pub end_outside :
      ends_line ch ≡ true → st.status ≡ Status.space → scan_line i (ch ∷ rest) st ≡ some st
  unfolding scan_line
  end_outside e m = ground arith

  pub end_within :
      ends_line ch ≡ true → st.status ≡ Status.word → scan_line i (ch ∷ rest) st ≡ close_column st
  unfolding scan_line
  end_within e m = ground arith

  module _ (more : ends_line ch ≡ false) where
    pub blank_outside :
        is_blank ch ≡ true
        → st.status ≡ Status.space
        → scan_line i (ch ∷ rest) st ≡ scan_line (suc i) rest st
    unfolding scan_line
    blank_outside b m = ground arith

    pub letter_outside :
        is_blank ch ≡ false
        → st.status ≡ Status.space
        → st.count < max_columns
        → scan_line i (ch ∷ rest) st
          ≡ scan_line (suc i) rest (record st {
            apos = update st.apos st.count i;
            status = Status.word;
            len = suc st.len;
          })
    unfolding scan_line
    letter_outside b m lt = ground arith

    pub blank_within :
        is_blank ch ≡ true
        → st.status ≡ Status.word
        → scan_line i (ch ∷ rest) st ≡ (
            close_column st >>= λ t.
            scan_line (suc i) rest (record t { len = 0; status = Status.space }))
    unfolding scan_line
    blank_within b m = ground arith

    pub letter_within :
        is_blank ch ≡ false
        → st.status ≡ Status.word
        → scan_line i (ch ∷ rest) st ≡ scan_line (suc i) rest (record st { len = suc st.len })
    unfolding scan_line
    letter_within b m = ground arith
