-- ===== src/Imc/Quotes/Extracted.antt =====
-- `imc_fits_extract_string` undoes `imc_fits_mkstrg_val` of
-- demo/spcam/sdfred20100528/mosaic/imc/imc_fits.c.
use pwrake.Prelude.{
  ℕ, zero, suc, ◌-◌, ◌≤◌, ◌<◌, ◌≡◌, refl, sym, ap, ◌∙◌, true, false, ◌||◌, inl, inr, Bool-cases,
  ==→≡, List, [], ◌∷◌, ◌++◌, some, arith, length, append_assoc, append-nil, replicate, Returns,
  returns, ltb, leb, ◌==◌, if◌then◌else◌,
}
use pwrake.Imc.Text.{space, quote, pad, behind}
use pwrake.Imc.Quotes.{
  double_quotes, imc_fits_mkstrg_val, has_quote, unquote, from_quote, extract_string,
}

-- A text with its quotes doubled.
unfoldable pub doubled : List ℕ → List ℕ
doubled [] = []
doubled (c ∷ s) = if c == quote then quote ∷ quote ∷ doubled s else c ∷ doubled s

-- Characters that are printed as they are.
unfoldable pub IsPrintable : List ℕ → Type 0
IsPrintable [] = Unit
IsPrintable (c ∷ s) = (32 ≤ c) × (c < 128) × IsPrintable s

double_quotes-doubled :
    (left : ℕ) (s : List ℕ)
    → length s < left
    → IsPrintable s
    → double_quotes left s ≡ some (doubled s)
unfolding double_quotes doubled IsPrintable
double_quotes-doubled zero s lt all = absurd (omega arith)
double_quotes-doubled (suc left) [] lt all = refl
double_quotes-doubled (suc left) (c ∷ s) lt (low, high, all) =
    let printed : (ltb c 32 || leb 128 c) ≡ false = ground (arith, low, high) in
    rw (double_quotes-doubled left s (omega arith) all, printed) refl

-- What stands behind the first quote: the text with doubled quotes, `n` spaces, a quote and a space.
abbrev tail_text : List ℕ → ℕ → List ℕ
tail_text w n = doubled w ++ (replicate n space ++ (quote ∷ space ∷ []))

has_quote-end : (t : List ℕ) → has_quote (t ++ (quote ∷ space ∷ [])) ≡ true
unfolding behind
has_quote-end [] = refl
has_quote-end (c ∷ t) = elim (Bool-cases (c == quote)) [
  | inl e ↦ rw (has_quote, e) refl
  | inr e ↦ rw (has_quote, e) (has_quote-end t)
]

has_quote-tail : (w : List ℕ) (n : ℕ) → has_quote (tail_text w n) ≡ true
has_quote-tail w n =
    ap (λ t. has_quote t) (sym (append_assoc (doubled w) (replicate n space) (quote ∷ space ∷ [])))
    ∙ has_quote-end (doubled w ++ replicate n space)

doubled-quote : (d : ℕ) (w : List ℕ) → d ≡ quote → doubled (d ∷ w) ≡ quote ∷ quote ∷ doubled w
unfolding doubled
doubled-quote d w h = let e : (d == quote) ≡ true = ground (arith, h) in rw e refl

doubled-other : (d : ℕ) (w : List ℕ) → (d == quote) ≡ false → doubled (d ∷ w) ≡ d ∷ doubled w
unfolding doubled
doubled-other d w e = rw e refl

-- A step of the loop over a character, and over one before a quote.
unquote-next :
    (c d : ℕ) (t : List ℕ)
    → has_quote (d ∷ t) ≡ true
    → (d == quote) ≡ false
    → unquote (c ∷ d ∷ t) ≡ c ∷ unquote (d ∷ t)
unfolding unquote
unquote-next c d t more e = rw (more, e) refl

unquote-skip : (c : ℕ) (t : List ℕ) → unquote (c ∷ quote ∷ t) ≡ c ∷ unquote t
unfolding unquote behind
unquote-skip c t = refl

unquote-end : (c : ℕ) → unquote (c ∷ quote ∷ space ∷ []) ≡ c ∷ []
unfolding unquote behind
unquote-end c = refl

tail-nil : (n : ℕ) → tail_text [] n ≡ replicate n space ++ (quote ∷ space ∷ [])
unfolding doubled
tail-nil n = refl

-- A character that is kept, and the text behind it.
unquote-kept :
    (c : ℕ) (w : List ℕ) (n : ℕ) → unquote (c ∷ tail_text w n) ≡ c ∷ (w ++ replicate n space)
unquote-kept c [] zero = ap (λ t. unquote (c ∷ t)) (tail-nil 0) ∙ unquote-end c
unquote-kept c [] (suc n) =
    let tail : tail_text [] (suc n) ≡ space ∷ tail_text [] n =
      tail-nil (suc n) ∙ ap (◌∷◌ space) (sym (tail-nil n)) in
    let more : has_quote (space ∷ tail_text [] n) ≡ true = rw tail at (has_quote-tail [] (suc n)) in
    ap (λ t. unquote (c ∷ t)) tail
    ∙ unquote-next c space (tail_text [] n) more refl
    ∙ ap (◌∷◌ c) (unquote-kept space [] n)
unquote-kept c (d ∷ w) n = elim (Bool-cases (d == quote)) [
  | inl e ↦
      let same : d ≡ quote = ==→≡ d quote e in
      rw (doubled-quote d w same, same)
        (unquote-skip c (quote ∷ tail_text w n) ∙ ap (◌∷◌ c) (unquote-kept quote w n))
  | inr e ↦
      let more : has_quote (d ∷ tail_text w n) ≡ true =
        rw (doubled-other d w e) at (has_quote-tail (d ∷ w) n) in
      rw (doubled-other d w e)
        (unquote-next c d (tail_text w n) more e ∙ ap (◌∷◌ c) (unquote-kept d w n))
]

unquote-closing : unquote (quote ∷ space ∷ []) ≡ []
unfolding unquote behind
unquote-closing = refl

from_quote-quote : (t : List ℕ) → from_quote (quote ∷ t) ≡ unquote (quote ∷ t)
unfolding from_quote
from_quote-quote t = refl

from_quote-other :
    (c : ℕ) (t : List ℕ) → (c == quote) ≡ false → from_quote (c ∷ t) ≡ c ∷ from_quote t
unfolding from_quote
from_quote-other c t e = rw e refl

from_quote-spaces :
    (n : ℕ) → from_quote (replicate n space ++ (quote ∷ space ∷ [])) ≡ replicate n space
from_quote-spaces zero = from_quote-quote (space ∷ []) ∙ unquote-closing
from_quote-spaces (suc n) =
    from_quote-other space (replicate n space ++ (quote ∷ space ∷ [])) refl
    ∙ ap (◌∷◌ space) (from_quote-spaces n)

-- The text behind a doubled quote.
unquote-tail : (w : List ℕ) (n : ℕ) → unquote (tail_text w n) ≡ w ++ replicate n space
unquote-tail [] zero = ap (λ t. unquote t) (tail-nil 0) ∙ unquote-closing
unquote-tail [] (suc n) =
    ap (λ t. unquote t) (tail-nil (suc n) ∙ ap (◌∷◌ space) (sym (tail-nil n)))
    ∙ unquote-kept space [] n
unquote-tail (d ∷ w) n = elim (Bool-cases (d == quote)) [
  | inl e ↦
      let same : d ≡ quote = ==→≡ d quote e in
      rw (doubled-quote d w same, same)
        (unquote-skip quote (tail_text w n) ∙ ap (◌∷◌ quote) (unquote-tail w n))
  | inr e ↦ rw (doubled-other d w e) (unquote-kept d w n)
]

-- The text from behind the first quote on.
from_quote-tail : (w : List ℕ) (n : ℕ) → from_quote (tail_text w n) ≡ w ++ replicate n space
from_quote-tail [] n = ap (λ t. from_quote t) (tail-nil n) ∙ from_quote-spaces n
from_quote-tail (d ∷ w) n = elim (Bool-cases (d == quote)) [
  | inl e ↦
      let same : d ≡ quote = ==→≡ d quote e in
      rw (doubled-quote d w same, same)
        (from_quote-quote (quote ∷ tail_text w n)
          ∙ unquote-skip quote (tail_text w n)
          ∙ ap (◌∷◌ quote) (unquote-tail w n))
  | inr e ↦
      rw (doubled-other d w e)
        (from_quote-other d (tail_text w n) e ∙ ap (◌∷◌ d) (from_quote-tail w n))
]

pad-spaces : (n : ℕ) (t : List ℕ) → pad n t ≡ t ++ replicate (n - length t) space
unfolding pad
pad-spaces zero t =
    let none_left : 0 - length t ≡ 0 = omega arith in rw none_left (sym (append-nil t))
pad-spaces (suc n) [] =
    let next : suc n - 0 ≡ suc (n - 0) = omega arith in rw next (ap (◌∷◌ space) (pad-spaces n []))
pad-spaces (suc n) (c ∷ t) =
    let next : suc n - suc (length t) ≡ n - length t = omega arith in
    rw next (ap (◌∷◌ c) (pad-spaces n t))

-- A printable text of fewer than 80 characters is quoted without a fault, and taking the quotes off
-- gives the text, with spaces behind it where with its quotes doubled it has fewer than 8 characters.
pub extract_string-imc_fits_mkstrg_val :
    (s : List ℕ)
    → IsPrintable s
    → length s < 80
    → Returns
        (λ line. extract_string line ≡ s ++ replicate (8 - length (doubled s)) space)
        (imc_fits_mkstrg_val s)
unfolding imc_fits_mkstrg_val extract_string behind
extract_string-imc_fits_mkstrg_val s all short =
    let n : ℕ = 8 - length (doubled s) in
    let end = quote ∷ space ∷ [] in
    let padded : pad 8 (doubled s) ++ end ≡ tail_text s n =
      ap (λ t. t ++ end) (pad-spaces 8 (doubled s))
      ∙ append_assoc (doubled s) (replicate n space) end in
    rw (imc_fits_mkstrg_val, double_quotes-doubled 80 s short all)
      (returns (ap (λ t. from_quote t) padded ∙ from_quote-tail s n))
