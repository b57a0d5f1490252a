-- ===== src/Imc/Text.antt =====
-- C strings as lists of bytes without the NUL: what `printf`, `strncmp`, `strchr` and `sscanf` do with
-- them in demo/spcam/sdfred20100528/mosaic/imc, and `sscanf` in getarg/getargs.c.
use pwrake.Prelude.{
  ℕ, zero, suc, ◌+◌, ◌-◌, ◌/◌, ◌%◌, ◌≤◌, ◌≡◌, refl, sym, ap, ◌∙◌, Bool, true, false, ◌&&◌, ◌||◌,
  List, [], ◌∷◌, ◌++◌, Option, none, some, arith, length, replicate, take, ltb, leb, ◌==◌,
  if◌then◌else◌,
}
use pwrake.Prelude.Int.{ℤ, pos, negsuc}

abbrev pub space : ℕ
space = 32

abbrev pub quote : ℕ
quote = 39

abbrev pub equals : ℕ
equals = 61

-- `%-ns`
unfoldable pub pad : ℕ → List ℕ → List ℕ
pad zero s = s
pad (suc n) [] = space ∷ pad n []
pad (suc n) (c ∷ s) = c ∷ pad n s

-- `%-n.ns`
abbrev pub field : ℕ → List ℕ → List ℕ
field n s = pad n (take n s)

-- `%ns`
abbrev pub pad_left : ℕ → List ℕ → List ℕ
pad_left n s = replicate (n - length s) space ++ s

-- The digits of `n` before those of `rest`, for `fuel` above `n`.
unfoldable pub digits : ℕ → ℕ → List ℕ → List ℕ
digits zero n rest = rest
digits (suc fuel) n rest =
    let more = digits fuel (n / 10) ((48 + n % 10) ∷ rest) in
    if ltb n 10 then (48 + n) ∷ rest else more

-- `%d`
unfoldable pub show_int : ℤ → List ℕ
unfolding digits
show_int (pos n) = digits (suc n) n []
show_int (negsuc n) = 45 ∷ digits (suc (suc n)) (suc n) []

-- `strncmp(s,key,strlen(key))==0`
unfoldable pub begins : List ℕ → List ℕ → Bool
begins [] s = true
begins (k ∷ key) [] = false
begins (k ∷ key) (c ∷ s) = let rest = begins key s in if c == k then rest else false

-- `strchr(s,c)`, with what stands behind the place.
unfoldable pub behind : ℕ → List ℕ → Option (List ℕ)
behind c [] = none
behind c (d ∷ s) = let rest = behind c s in if d == c then some s else rest

-- A white-space character of `scanf`.
abbrev pub is_space : ℕ → Bool
is_space c = c == 32 || (leb 9 c && leb c 13)

-- The characters before the next white space.
unfoldable pub word : List ℕ → List ℕ
word [] = []
word (c ∷ s) = let rest = word s in if is_space c then [] else c ∷ rest

-- `sscanf(s,"%s",ss)`, with an empty `ss` before.
unfoldable pub scan_word : List ℕ → List ℕ
unfolding word
scan_word [] = []
scan_word (c ∷ s) = let later = scan_word s in if is_space c then later else word (c ∷ s)

-- A copy into a buffer of `room` bytes with the NUL.
abbrev pub strcpy : ℕ → List ℕ → Option (List ℕ)
strcpy room s = if ltb (length s) room then some s else none

pub length-pad : (n : ℕ) (s : List ℕ) → length s ≤ n → length (pad n s) ≡ n
unfolding pad
length-pad zero [] h = refl
length-pad zero (c ∷ s) h = absurd (omega arith)
length-pad (suc n) [] h = ap suc (length-pad n [] (omega arith))
length-pad (suc n) (c ∷ s) h = ap suc (length-pad n s (omega arith))

length-take_le : (n : ℕ) (s : List ℕ) → length (take n s) ≤ n
length-take_le zero s = omega arith
length-take_le (suc n) [] = omega arith
length-take_le (suc n) (c ∷ s) = omega (arith, length-take_le n s)

pub length-field : (n : ℕ) (s : List ℕ) → length (field n s) ≡ n
length-field n s = length-pad n (take n s) (length-take_le n s)

pub take-short : (n : ℕ) (s : List ℕ) → length s ≤ n → take n s ≡ s
take-short zero [] h = refl
take-short zero (c ∷ s) h = absurd (omega arith)
take-short (suc n) [] h = refl
take-short (suc n) (c ∷ s) h = ap (◌∷◌ c) (take-short n s (omega arith))

pub pad-append : (n : ℕ) (s : List ℕ) → length s ≤ n → pad n s ≡ s ++ replicate (n - length s) space
unfolding pad
pad-append zero [] h = refl
pad-append zero (c ∷ s) h = absurd (omega arith)
pad-append (suc n) [] h =
    let same : suc n - 0 ≡ suc (n - 0) = omega arith in
    rw same (ap (◌∷◌ space) (pad-append n [] (omega arith)))
pad-append (suc n) (c ∷ s) h =
    let same : suc n - suc (length s) ≡ n - length s = omega arith in
    rw same (ap (◌∷◌ c) (pad-append n s (omega arith)))

-- A text of full width is not changed.
pub field-full : (n : ℕ) (s : List ℕ) → length s ≡ n → field n s ≡ s
unfolding pad
field-full zero [] h = refl
field-full zero (c ∷ s) h = absurd (omega arith)
field-full (suc n) [] h = absurd (omega arith)
field-full (suc n) (c ∷ s) h = ap (◌∷◌ c) (field-full n s (omega arith))

-- The first `n` characters of `%-n.ns` and anything behind it.
pub take-append : (n : ℕ) (s t : List ℕ) → length s ≡ n → take n (s ++ t) ≡ s
take-append zero [] t h = refl
take-append zero (c ∷ s) t h = absurd (omega arith)
take-append (suc n) [] t h = absurd (omega arith)
take-append (suc n) (c ∷ s) t h = ap (◌∷◌ c) (take-append n s t (omega arith))

-- The first `n` characters of a longer text, with `n` characters before.
pub field-append : (n : ℕ) (s t : List ℕ) → length s ≡ n → field n (s ++ t) ≡ s
field-append n s t h =
    ap (pad n) (take-append n s t h ∙ sym (take-short n s (omega (arith, h)))) ∙ field-full n s h
