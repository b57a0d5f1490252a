-- ===== src/Options.antt =====
-- demo/spcam/sdfred20100528/mosaic/getarg/getargs.c: how an argument finds its option; Options/Parse is
-- what it then stores. Strings are
-- lists of bytes without the NUL.
use pwrake.Prelude.{
  ℕ, zero, suc, Bool, true, false, ◌&&◌, List, [], ◌∷◌, Option, none, some, length, ◌==◌,
  if◌then◌else◌,
}
pub mod First
pub mod Parse
pub mod Tests

-- `strncmp(argv,key,strlen(key))==0`, with what follows the key.
unfoldable pub getarg : List ℕ → List ℕ → Option (List ℕ)
getarg argv [] = some argv
getarg [] (k ∷ key) = none
getarg (c ∷ argv) (k ∷ key) = let rest = getarg argv key in if c == k then rest else none

pub getarg_exact : List ℕ → List ℕ → Option (List ℕ)
unfolding getarg
getarg_exact argv key =
    let rest = getarg argv key in if length key == length argv then rest else none

-- The loop of `parsearg` over the options, up to an empty name: the option's number, from `n` on, and
-- the text behind its name.
unfoldable pub find_option : ℕ → List ℕ → List (List ℕ) → Option (ℕ × List ℕ)
unfolding getarg
find_option n argp [] = none
find_option n argp ([] ∷ opts) = none
find_option n argp ((k ∷ name) ∷ opts) =
    let later = find_option (suc n) argp opts in
    elim (getarg argp (k ∷ name)) [ none ↦ later | some pt ↦ some (n, pt) ]

-- `argp[0]=='-' && isalpha(argp[1])`
pub is_option : (ℕ → Bool) → List ℕ → Bool
is_option isalpha [] = false
is_option isalpha (c ∷ []) = false
is_option isalpha (c ∷ d ∷ rest) = c == b'-' && isalpha d
