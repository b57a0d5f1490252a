-- ===== src/Imc/Quotes.antt =====
-- The quotes round a string value in demo/spcam/sdfred20100528/mosaic/imc/imc_fits.c.
use pwrake.Prelude.{
  ℕ, zero, suc, ◌+◌, Bool, true, false, ◌||◌, ◌≡◌, refl, List, [], ◌∷◌, ◌++◌, Option, none, some,
  ltb, leb, ◌==◌, if◌then◌else◌, replicate,
}
use pwrake.Imc.Text.{space, quote, pad, behind}
pub mod Extracted

-- The loop of `imc_fits_mkstrg_val` over at most 80 characters: a control character becomes a space
-- (a `char` of 128 or more is negative), and a quote is doubled. Eighty characters leave `tmp` without
-- its NUL: a fault.
unfoldable pub double_quotes : ℕ → List ℕ → Option (List ℕ)
double_quotes zero strg = none
double_quotes (suc left) [] = some []
double_quotes (suc left) (c ∷ strg) =
    let later = double_quotes left strg in
    let put : List ℕ → List ℕ = λ t.
      if ltb c 32 || leb 128 c
      then space ∷ t
      else if c == quote
      then quote ∷ quote ∷ t
      else c ∷ t in
    elim later [ none ↦ none | some t ↦ some (put t) ]

-- `sprintf(line,"%c%-8s%c ",'\'',tmp,'\'')`
unfoldable pub imc_fits_mkstrg_val : List ℕ → Option (List ℕ)
unfolding double_quotes
imc_fits_mkstrg_val strg = elim (double_quotes 80 strg) [
  | none ↦ none
  | some tmp ↦ some (quote ∷ (pad 8 tmp ++ (quote ∷ space ∷ [])))
]

abbrev pub has_quote : List ℕ → Bool
has_quote s = elim (behind quote s) [ none ↦ false | some t ↦ true ]

-- The loop `while(cp2!=NULL)` on the text from `cp2` on: without a quote behind `cp2` the text ends
-- there; a quote right behind it is taken out, and `cp2` stands on what followed. At the end of the text,
-- after a quote was taken out, the old NUL behind ends the search.
unfoldable pub unquote : List ℕ → List ℕ
unfolding behind
unquote [] = []
unquote (c ∷ []) = []
unquote (c ∷ d ∷ t) =
    let next = unquote (d ∷ t) in
    let skip = unquote t in
    if has_quote (d ∷ t) then (if d == quote then c ∷ skip else c ∷ next) else []

-- From behind the first quote on, up to the next: `cp2` is the text from that on.
unfoldable pub from_quote : List ℕ → List ℕ
unfolding unquote
from_quote [] = []
from_quote (c ∷ t) = let next = from_quote t in if c == quote then unquote (c ∷ t) else c ∷ next

unfoldable pub extract_string : List ℕ → List ℕ
unfolding behind from_quote
extract_string fl = elim (behind quote fl) [ none ↦ fl | some t ↦ from_quote t ]
