-- ===== src/Imc/Cards.antt =====
-- The header lines of demo/spcam/sdfred20100528/mosaic/imc/imc.c: `struct icom` as the list of its lines.
use pwrake.Prelude.{
  ℕ, zero, suc, ◌+◌, ◌*◌, ◌/◌, Bool, true, false, List, [], ◌∷◌, ◌++◌, Option, none, some, length,
  get_elem?, replicate, take, drop, ◌==◌, if◌then◌else◌, ◌>>=◌,
}
use pwrake.Imc.Text.{space, quote, equals, field, begins, behind, scan_word, strcpy}
use pwrake.Imc.Quotes.{extract_string}
pub mod Kept
pub mod Lines
pub mod Updated
pub mod Folded

abbrev pub blanks : List ℕ
blanks = replicate 14 space

-- `sprintf(line,"%-80.80s%s",s,blanks)`, and `"%-80.80s"` of it into the new line.
unfoldable pub imadd_fits : List (List ℕ) → List ℕ → List (List ℕ)
imadd_fits cards s = cards ++ (field 80 (field 80 s ++ blanks) ∷ [])

-- The first line that begins with `key` is replaced; the return value is whether there is one. `ss` has
-- 90 bytes.
unfoldable pub imrep_fits : List ℕ → List ℕ → List (List ℕ) → Option (Bool × List (List ℕ))
unfolding begins
imrep_fits key s [] = some (false, [])
imrep_fits key s (l ∷ cards) =
    let later = (do r ← imrep_fits key s cards; some (r.0, l ∷ r.1)) in
    do
      ss ← strcpy 90 l
      if begins key ss then some (true, (field 75 s ++ blanks) ∷ cards) else later

-- `sprintf` of `"%-8.8s= %s"` with the key, and with the format and its arguments as the text `v` that
-- they print. The key holds no `%`, which would begin a conversion of its own.
abbrev pub keyed : List ℕ → List ℕ → List ℕ
keyed key v = field 8 key ++ (equals ∷ space ∷ v)

-- `line` has 81 bytes.
unfoldable pub imrep_fitsf : List ℕ → List ℕ → List (List ℕ) → Option (Bool × List (List ℕ))
unfolding imrep_fits
imrep_fitsf key v cards = do line ← strcpy 81 (keyed key v); imrep_fits key line cards

-- `line` has BUFSIZ bytes, 8192 of them.
unfoldable pub imupdate_fitsf : List ℕ → List ℕ → List (List ℕ) → Option (List (List ℕ))
unfolding imrep_fits imadd_fits
imupdate_fitsf key v cards = do
  line ← strcpy 8192 (keyed key v)
  r ← imrep_fits key line cards
  some (if r.0 then r.1 else imadd_fits r.1 line)

-- A value without its quotes.
unfoldable pub unquoted : List ℕ → List ℕ
unfolding extract_string
unquoted [] = []
unquoted (c ∷ ss) = if c == quote then extract_string (c ∷ ss) else c ∷ ss

-- The value behind `=`: its first word, without the quotes.
unfoldable pub value_of : List ℕ → List ℕ
unfolding scan_word unquoted
value_of cp = unquoted (scan_word cp)

-- `for( i=(comp->ncom - 1); i >= 0;  i-- )`, with `i + 1`: `sout`, if a line is found. `s` has 128 bytes.
unfoldable pub find_value : List ℕ → List (List ℕ) → ℕ → Option (Option (List ℕ))
unfolding begins behind value_of
find_value key cards zero = some none
find_value key cards (suc i) =
    let later = find_value key cards i in
    do
      l ← get_elem? cards i
      s ← strcpy 128 l
      let found : Option (Option (List ℕ)) = elim (behind equals s) [
        | none ↦ later
        | some cp ↦ some (some (value_of cp))
      ]
      if begins key s then found else later

unfoldable pub imget_fits_value : List ℕ → List (List ℕ) → Option (Option (List ℕ))
unfolding find_value
imget_fits_value key cards = find_value key cards (length cards)

-- `for(i=0;i<=l/70;i++)`, with the rounds left. `line` has 81 bytes, and `indent` is the head of the
-- later lines.
unfoldable pub fold_lines :
    List ℕ → List ℕ → ℕ → ℕ → List ℕ → List (List ℕ) → Option (List (List ℕ))
unfolding imadd_fits
fold_lines head indent zero i s cards = some cards
fold_lines head indent (suc left) i s cards = do
  line ← strcpy 81 (head ++ (space ∷ space ∷ field 70 (drop (70 * i) s)))
  fold_lines indent indent left (suc i) s (imadd_fits cards line)

-- `COMMENT` and `HISTORY`
abbrev pub comment : List ℕ
comment = 67 ∷ 79 ∷ 77 ∷ 77 ∷ 69 ∷ 78 ∷ 84 ∷ []

abbrev pub history : List ℕ
history = 72 ∷ 73 ∷ 83 ∷ 84 ∷ 79 ∷ 82 ∷ 89 ∷ []

unfoldable pub imaddcom : List ℕ → List (List ℕ) → Option (List (List ℕ))
unfolding fold_lines
imaddcom s cards = fold_lines comment (comment ++ (space ∷ [])) (length s / 70 + 1) 0 s cards

unfoldable pub imaddhist : List ℕ → List (List ℕ) → Option (List (List ℕ))
unfolding fold_lines
imaddhist s cards = fold_lines history (history ++ (space ∷ [])) (length s / 70 + 1) 0 s cards
