-- ===== src/Imc/Cards/Folded.antt =====
-- `imaddcom` and `imaddhist` of demo/spcam/sdfred20100528/mosaic/imc/imc.c fold a text into lines.
use pwrake.Prelude.{
  ℕ, zero, suc, ◌+◌, ◌-◌, ◌*◌, ◌/◌, ◌≤◌, ◌<◌, ◌≡◌, refl, sym, ap, ◌∙◌, List, [], ◌∷◌, ◌++◌, arith,
  length, length-append, length-drop, drop-drop, append-nil, append_assoc, take, drop, replicate,
  Returns, returns, Returns-bind, Returns-map,
}
use mathlib.Core.Path.{ap₂}
use pwrake.Imc.Text.{
  field, pad, pad-append, take-short, take-append, field-append, length-field, space,
}
use pwrake.Imc.Cards.{imadd_fits, fold_lines, imaddcom, imaddhist, blanks, comment, history}
use pwrake.Imc.Cards.Kept.{strcpy-Returns}

-- The text of a line behind the indented head of ten characters, of the lines after the first.
unfoldable pub joined : List (List ℕ) → List ℕ
joined [] = []
joined (l ∷ lines) = take 70 (drop 10 l) ++ joined lines

-- The text of all lines: the head of the first has nine characters.
unfoldable pub unfolded : List (List ℕ) → List ℕ
unfolding joined
unfolded [] = []
unfolded (l ∷ lines) = take 70 (drop 9 l) ++ joined lines

drop-append : (n : ℕ) (a b : List ℕ) → length a ≡ n → drop n (a ++ b) ≡ b
drop-append zero [] b h = refl
drop-append zero (x ∷ a) b h = absurd (omega arith)
drop-append (suc n) [] b h = absurd (omega arith)
drop-append (suc n) (x ∷ a) b h = drop-append n a b (omega arith)

-- A padded text in two pieces.
pad-split : (m n k : ℕ) (t : List ℕ) → m + n ≡ k → pad k t ≡ field m t ++ pad n (drop m t)
unfolding pad
pad-split zero n k t h = let e : k ≡ n = omega arith in ap (λ j. pad j t) e
pad-split (suc m) n zero t h = absurd (omega arith)
pad-split (suc m) n (suc k) [] h = ap (◌∷◌ space) (pad-split m n k [] (omega arith) ∙ nil_drop m n)
  where
    nil_drop : (m n : ℕ) → field m [] ++ pad n (drop m []) ≡ pad m [] ++ pad n []
    nil_drop zero n = refl
    nil_drop (suc m) n = refl
pad-split (suc m) n (suc k) (c ∷ t) h = ap (◌∷◌ c) (pad-split m n k t (omega arith))

-- The line that `imadd_fits` adds for a piece of 70 characters behind a head of `n`.
added-body :
    (n : ℕ) (head piece : List ℕ) (cards : List (List ℕ))
    → length head ≡ n
    → n ≤ 8
    → length piece ≡ 70
    → (l : List ℕ) × (imadd_fits cards (head ++ (space ∷ space ∷ piece)) ≡ cards ++ (l ∷ []))
      × (take 70 (drop (n + 2) l) ≡ piece)
unfolding imadd_fits
added-body n head piece cards hh short hp =
    let line = head ++ (space ∷ space ∷ piece) in
    let size = length-append head (space ∷ space ∷ piece) in
    let line_is : field 80 line
        ≡ (head ++ (space ∷ space ∷ [])) ++ (piece ++ replicate (80 - length line) space) =
      ap (pad 80) (take-short 80 line (omega arith))
      ∙ pad-append 80 line (omega arith)
      ∙ append_assoc head (space ∷ space ∷ piece) (replicate (80 - length line) space)
      ∙ sym
          (append_assoc head (space ∷ space ∷ []) (piece ++ replicate (80 - length line) space)) in
    (
      field 80 (field 80 line ++ blanks),
      refl,
      ap (λ l. take 70 (drop (n + 2) l))
            (field-append 80 (field 80 line) blanks (length-field 80 line) ∙ line_is)
          ∙ ap (take 70) (
              drop-append (n + 2) (head ++ (space ∷ space ∷ []))
                (piece ++ replicate (80 - length line) space)
                (omega (arith, length-append head (space ∷ space ∷ []))))
          ∙ take-append 70 piece (replicate (80 - length line) space) hp,
    )

-- The lines that the rounds of the loop add behind an indented head.
fold_lines-joined :
    (indent : List ℕ) (left i : ℕ) (s : List ℕ) (cards : List (List ℕ))
    → length indent ≡ 8
    → length s ≤ 70 * i + 70 * left
    → Returns
        (λ r.
          (lines : List (List ℕ)) × (r ≡ cards ++ lines)
          × (length lines ≡ left)
          × (joined lines ≡ pad (70 * left) (drop (70 * i) s)))
        (fold_lines indent indent left i s cards)
unfolding fold_lines joined pad
fold_lines-joined indent zero i s cards hi le =
    let none_left : drop (70 * i) s ≡ [] =
      short_nil (drop (70 * i) s) (omega (arith, length-drop (70 * i) s, le)) in
    returns ([], sym (append-nil cards), refl, sym none_left)
  where
    short_nil : (t : List ℕ) → length t ≤ 0 → t ≡ []
    short_nil [] h = refl
    short_nil (c ∷ t) h = absurd (omega arith)
fold_lines-joined indent (suc left) i s cards hi le =
    let piece = field 70 (drop (70 * i) s) in
    let size = length-field 70 (drop (70 * i) s) in
    let (l, added, body) = added-body 8 indent piece cards hi (omega arith) size in
    Returns-bind
      (strcpy-Returns 81 (indent ++ (space ∷ space ∷ piece))
        (omega (arith, length-append indent (space ∷ space ∷ piece), size, hi)))
      (λ line same.
        rw (same, added)
          (Returns-map
            (fold_lines-joined indent left (suc i) s (cards ++ (l ∷ [])) hi (omega (arith, le)))
            (λ r (lines, r_is, count, text). (
              l ∷ lines,
              r_is ∙ append_assoc cards (l ∷ []) lines,
              ap suc count,
              ap₂ (λ a b. a ++ b) body (text ∙ ap (pad (70 * left)) (next i s))
                  ∙ sym (pad-split 70 (70 * left) (70 * suc left) (drop (70 * i) s) (omega arith)),
            ))))
  where
    next : (i : ℕ) (s : List ℕ) → drop (70 * suc i) s ≡ drop 70 (drop (70 * i) s)
    next i s =
        let e : 70 * suc i ≡ 70 * i + 70 = omega arith in
        ap (λ n. drop n s) e ∙ sym (drop-drop (70 * i) 70 s)

-- The block has the old lines and behind them `count` lines, and these hold the text and spaces.
abbrev pub IsFolded : ℕ → List ℕ → List (List ℕ) → List (List ℕ) → Type 0
IsFolded count s cards r =
    (lines : List (List ℕ)) × (r ≡ cards ++ lines)
    × (length lines ≡ count)
    × (unfolded lines ≡ pad (70 * count) s)

fold_lines-IsFolded :
    (head : List ℕ) (count : ℕ) (s : List ℕ) (cards : List (List ℕ))
    → length head ≡ 7
    → 0 < count
    → length s ≤ 70 * count
    → Returns (IsFolded count s cards) (fold_lines head (head ++ (space ∷ [])) count 0 s cards)
unfolding fold_lines unfolded
fold_lines-IsFolded head zero s cards hh some_line le = absurd (omega arith)
fold_lines-IsFolded head (suc left) s cards hh some_line le =
    let piece = field 70 s in
    let size = length-field 70 s in
    let indent = head ++ (space ∷ []) in
    let (l, added, body) = added-body 7 head piece cards hh (omega arith) size in
    Returns-bind
      (strcpy-Returns 81 (head ++ (space ∷ space ∷ piece))
        (omega (arith, length-append head (space ∷ space ∷ piece), size, hh)))
      (λ line same.
        rw (same, added)
          (Returns-map
            (fold_lines-joined indent left 1 s (cards ++ (l ∷ []))
              (omega (arith, length-append head (space ∷ []), hh)) (omega (arith, le)))
            (λ r (lines, r_is, count, text). (
              l ∷ lines,
              r_is ∙ append_assoc cards (l ∷ []) lines,
              ap suc count,
              ap₂ (λ a b. a ++ b) body text
                  ∙ sym (pad-split 70 (70 * left) (70 * suc left) s (omega arith)),
            ))))

-- `imaddcom` and `imaddhist` add a line for each 70 characters that are begun, and one more where the
-- length is a multiple of 70; the texts of these lines, joined, are the comment and spaces behind it.
pub imaddcom-imaddhist-fold :
    (s : List ℕ) (cards : List (List ℕ))
    → Returns (IsFolded (length s / 70 + 1) s cards) (imaddcom s cards)
      × Returns (IsFolded (length s / 70 + 1) s cards) (imaddhist s cards)
unfolding imaddcom imaddhist
imaddcom-imaddhist-fold s cards =
    let count : ℕ = length s / 70 + 1 in
    let enough : length s ≤ 70 * count = omega arith in
    (
      fold_lines-IsFolded comment count s cards refl (omega arith) enough,
      fold_lines-IsFolded history count s cards refl (omega arith) enough,
    )
