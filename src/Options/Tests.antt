-- ===== src/Options/Tests.antt =====
-- Options with names that begin alike.
use pwrake.Prelude.{ℕ, ◌≡◌, refl, List, [], ◌∷◌, some, none, Option, Bool, leb, length}
use pwrake.Options.{find_option}
use pwrake.Prelude.Int.{pos, negsuc}
use pwrake.Options.Parse.{
  GetArgOpt, opt_intarray, opt_flag, Value, int_value, unset, in_number, span, read_array, atoi,
}

-- `-xm=` and `-x=`, for the argument `-x=7`.
abbrev names : List (List ℕ)
names = (45 ∷ 120 ∷ 109 ∷ 61 ∷ []) ∷ (45 ∷ 120 ∷ 61 ∷ []) ∷ [] ∷ []

abbrev argument : List ℕ
argument = 45 ∷ 120 ∷ 61 ∷ 55 ∷ []

find_option-argument : find_option 0 argument names ≡ some (1, 55 ∷ [])
unfolding find_option
find_option-argument = refl

-- The array option `-a=` with room for three numbers from 10 on, whose count goes to 20, and the flag
-- `-q`.
abbrev array_option : GetArgOpt
array_option = record {
  name = 45 ∷ 97 ∷ 61 ∷ [];
  typ = opt_intarray;
  retval = 10;
  flag = pos 3;
  nread = 20;
}

abbrev flag_option : GetArgOpt
flag_option = record { name = 45 ∷ 113 ∷ []; typ = opt_flag; retval = 30; flag = pos 1; nread = 0 }

abbrev no_memory : ℕ → Value ℕ
no_memory a = unset

-- `-7,12`
abbrev numbers : List ℕ
numbers = 45 ∷ 55 ∷ 44 ∷ 49 ∷ 50 ∷ []

abbrev cells : Option ((ℕ → Value ℕ) × ℕ × ℕ) → List (Value ℕ)
cells none = []
cells (some r) = r.0 10 ∷ r.0 11 ∷ r.0 12 ∷ int_value (pos r.1) ∷ []

read_array-numbers :
    cells (
      read_array {F = ℕ}
        (λ s. length s)
        (λ x. x)
        in_number
        (λ b. int_value (atoi b))
        10
        3
        0
        numbers
        0
        no_memory)
    ≡ int_value (negsuc 6) ∷ int_value (pos 12) ∷ unset ∷ int_value (pos 2) ∷ []
unfolding read_array atoi span
read_array-numbers = refl

abbrev letter : ℕ → Bool
letter c = leb 65 c

abbrev command_line : List (List ℕ)
command_line = (45 ∷ 97 ∷ 61 ∷ numbers) ∷ (45 ∷ 113 ∷ []) ∷ (45 ∷ 122 ∷ []) ∷ []
