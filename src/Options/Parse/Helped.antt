-- ===== src/Options/Parse/Helped.antt =====
-- When `parsearg` of demo/spcam/sdfred20100528/mosaic/getarg/getargs.c asks for help.
use pwrake.Prelude.{
  ℕ, ◌≡◌, Bool, true, false, ◌&&◌, ◌||◌, List, [], ◌∷◌, none, some, map, length, get_elem?, ◌==◌,
  ◌>>=◌,
}
use pwrake.Prelude.Int.{pos_part}
use pwrake.Options.{find_option, is_option}
use pwrake.Options.Parse.{
  opt_char, opt_int, opt_float, opt_double, opt_string, opt_flag, opt_intarray, opt_fltarray,
  opt_dblarray, other, GetArgOpt, in_number, in_real, span, Ended, exited, parsed, asks_version,
  long_name,
}

-- An array is given no number: it has no room, or the text begins with none.
abbrev pub is_empty : (ℕ → Bool) → GetArgOpt → List ℕ → Bool
is_empty p opt pt = pos_part opt.flag == 0 || length (span p pt) == 0

-- The text is no value for the option.
abbrev pub is_bad : GetArgOpt → List ℕ → Bool
is_bad opt pt = elim opt.typ [
  | opt_char ↦ false
  | opt_int ↦ false
  | opt_float ↦ false
  | opt_double ↦ false
  | opt_string ↦ false
  | opt_flag ↦ false
  | opt_intarray ↦ is_empty in_number opt pt
  | opt_fltarray ↦ is_empty in_real opt pt
  | opt_dblarray ↦ is_empty in_real opt pt
  | other ↦ true
]

module _ (isalpha : ℕ → Bool) (opts : List GetArgOpt) where
  -- The argument finds no option, or is no value for the one that it finds.
  unfoldable pub is_rejected : List ℕ → Bool
  is_rejected argp = elim (find_option 0 argp (map (λ o. o.name) opts)) [
    | none ↦ true
    | some (n, pt) ↦ elim (get_elem? opts n) [ none ↦ false | some opt ↦ is_bad opt pt ]
  ]

  unfoldable pub any_rejected : List (List ℕ) → Bool
  unfolding is_rejected
  any_rejected [] = false
  any_rejected (arg ∷ argv) =
      (is_option isalpha arg && is_rejected (long_name arg)) || any_rejected argv

  unfoldable pub any_version : List (List ℕ) → Bool
  any_version [] = false
  any_version (arg ∷ argv) =
      (is_option isalpha arg && asks_version (long_name arg)) || any_version argv

module _ {F : Type 0} (atof : List ℕ → F) (narrow : F → F) where
  module _ (isalpha : ℕ → Bool) (opts : List GetArgOpt) (filename : List ℕ) where
    abbrev names : List (List ℕ)
    names = map (λ o. o.name) opts

    -- `exit` if `asked`; otherwise the flag is `help`.
    abbrev pub IsEnded : Bool → Bool → Ended F → Type 0
    IsEnded asked help exited = asked ≡ true
    IsEnded asked help (parsed s) = (asked ≡ false) × (s.helpflag ≡ help)
