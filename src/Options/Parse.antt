-- ===== src/Options/Parse.antt =====
-- `parsearg` and `setopts` of demo/spcam/sdfred20100528/mosaic/getarg/getargs.c: what an argument stores.
use pwrake.Prelude.{
  ℕ, zero, suc, ◌+◌, ◌-◌, ◌*◌, Bool, true, false, ◌&&◌, ◌||◌, List, [], ◌∷◌, ◌++◌, Option, none,
  some, map, length, get_elem?, take, drop, ltb, leb, ◌==◌, if◌then◌else◌, ◌>>=◌,
}
use pwrake.Prelude.Int.{ℤ, pos, negsuc, pos_part}
use pwrake.Imc.Text.{is_space, scan_word}
use pwrake.Options.{getarg, getarg_exact, find_option, is_option}
pub mod Helped

-- `enum opttyps`; `other` is any value beside its names.
pub data OptTyp : Type 0 where
  opt_char : OptTyp
  opt_int : OptTyp
  opt_float : OptTyp
  opt_double : OptTyp
  opt_string : OptTyp
  opt_flag : OptTyp
  opt_intarray : OptTyp
  opt_fltarray : OptTyp
  opt_dblarray : OptTyp
  other : OptTyp

-- `retval` and `nread` are addresses.
pub record GetArgOpt : Type 0 where
  pub name : List ℕ
  pub typ : OptTyp
  pub retval : ℕ
  pub flag : ℤ
  pub nread : ℕ

abbrev pub is_digit : ℕ → Bool
is_digit c = leb 48 c && leb c 57

-- `[-0-9]`
abbrev pub in_number : ℕ → Bool
in_number c = c == 45 || is_digit c

-- `[-+.0-9eE]`
abbrev pub in_real : ℕ → Bool
in_real c = c == 45 || c == 43 || c == 46 || is_digit c || c == 101 || c == 69

-- The characters of a class at the start.
unfoldable pub span : (ℕ → Bool) → List ℕ → List ℕ
span p [] = []
span p (c ∷ s) = let rest = span p s in if p c then c ∷ rest else []

unfoldable pub digits_value : ℕ → List ℕ → ℕ
digits_value n [] = n
digits_value n (c ∷ s) =
    let rest = digits_value (10 * n + (c - 48)) s in if is_digit c then rest else n

unfoldable pub opposite : ℕ → ℤ
opposite zero = pos 0
opposite (suc n) = negsuc n

-- `atoi`, without a bound: white space, a sign, digits.
unfoldable pub atoi : List ℕ → ℤ
unfolding digits_value opposite
atoi [] = pos 0
atoi (c ∷ s) =
    let later = atoi s in
    if is_space c
    then later
    else if c == 45
    then opposite (digits_value 0 s)
    else if c == 43
    then pos (digits_value 0 s)
    else pos (digits_value 0 (c ∷ s))

-- What a cell holds; a `float` is the `double` of `atof`, narrowed.
pub data Value (F : Type 0) : Type 0 where
  char_value : ℕ → Value F
  int_value : ℤ → Value F
  real_value : F → Value F
  text_value : List ℕ → Value F
  unset : Value F

-- `memory`, and the variables of `parsearg`.
pub record State (F : Type 0) : Type 0 where
  pub memory : ℕ → Value F
  pub helpflag : Bool
  pub nf : ℕ
  pub endptr : ℕ
  pub j : ℕ

-- `exit` behind the version, or the state at the end.
pub data Ended (F : Type 0) : Type 0 where
  exited : Ended F
  parsed : State F → Ended F

abbrev pub put : {F : Type 0} → ℕ → Value F → (ℕ → Value F) → ℕ → Value F
put a v memory b = if a == b then v else memory b

-- `sscanf(pt,"%s",a)` stores nothing where there is no word.
unfoldable pub put_word : {F : Type 0} → ℕ → List ℕ → (ℕ → Value F) → ℕ → Value F
put_word a pt memory = elim (scan_word pt) [
  | [] ↦ memory
  | ◌∷◌ c s ↦ put a (text_value (c ∷ s)) memory
]

-- `-version` and `-V`
abbrev pub asks_version : List ℕ → Bool
asks_version argp =
    let long = 45 ∷ 118 ∷ 101 ∷ 114 ∷ 115 ∷ 105 ∷ 111 ∷ 110 ∷ [] in
    let found : Option (List ℕ) → Bool = λ o. elim o [ none ↦ false | some pt ↦ true ] in
    found (getarg argp long) || found (getarg_exact argp (45 ∷ 86 ∷ []))

-- `if (argp[1]=='-') argp++;`
abbrev pub long_name : List ℕ → List ℕ
long_name [] = []
long_name (c ∷ []) = c ∷ []
long_name (c ∷ d ∷ rest) = if d == 45 then d ∷ rest else c ∷ d ∷ rest

module _ {F : Type 0} (atof : List ℕ → F) (narrow : F → F) where
  -- The loop of an array type over `i`, with the rounds left: `memory`, `nread` and `j` at its end. A number is
  -- read into `buf`, then what is between it and the next; `%n` sets `j` only if that is not empty. A `j`
  -- that leads behind the end of the argument is a fault.
  unfoldable pub read_array :
      (ℕ → Bool)
      → (List ℕ → Value F)
      → ℕ
      → ℕ
      → ℕ
      → List ℕ
      → ℕ
      → (ℕ → Value F)
      → Option ((ℕ → Value F) × ℕ × ℕ)
  read_array p convert base zero i pt j memory = some (memory, i, j)
  read_array p convert base (suc left) i pt j memory =
      let buf = span p pt in
      let gap = span (λ c. if p c then false else true) (drop (length buf) pt) in
      let step = if length gap == 0 then j else length buf + length gap in
      let stored = put (base + i) (convert buf) memory in
      let next = read_array p convert base left (suc i) (drop step pt) 0 stored in
      let moved =
        if ltb 0 step
        then (if leb step (length pt) then next else none)
        else some (stored, suc i, step) in
      if length buf == 0 then some (memory, i, j) else moved

  -- `switch (opts[n].type)`
  unfoldable pub assign : GetArgOpt → List ℕ → State F → Option (State F)
  unfolding put_word read_array
  assign opt pt s =
      let set : Value F → Option (State F) =
        λ v. some (record s { memory = put opt.retval v s.memory }) in
      let array : (ℕ → Bool) → (List ℕ → Value F) → Option (State F) = λ p convert. do
        r ← read_array p convert opt.retval (pos_part opt.flag) 0 pt s.j s.memory
        some (record s {
          memory = put opt.nread (int_value (pos r.1)) r.0;
          helpflag = s.helpflag || r.1 == 0;
          j = r.2;
        })
      in elim opt.typ [
        | opt_char ↦ set (char_value (elim pt [ [] ↦ 0 | ◌∷◌ c rest ↦ c ]))
        | opt_int ↦ set (int_value (atoi pt))
        | opt_float ↦ set (real_value (narrow (atof pt)))
        | opt_double ↦ set (real_value (atof pt))
        | opt_string ↦ some (record s { memory = put_word opt.retval pt s.memory })
        | opt_flag ↦ set (int_value opt.flag)
        | opt_intarray ↦ array in_number (λ buf. int_value (atoi buf))
        | opt_fltarray ↦ array in_real (λ buf. real_value (narrow (atof buf)))
        | opt_dblarray ↦ array in_real (λ buf. real_value (atof buf))
        | other ↦ some (record s { helpflag = true })
      ]

  module _ (isalpha : ℕ → Bool) (opts : List GetArgOpt) (filename : List ℕ) where
    -- An argument that begins with a hyphen and a letter.
    unfoldable pub parse_option : List ℕ → State F → Option (State F)
    unfolding find_option assign
    parse_option argp s = elim (find_option 0 argp (map (λ o. o.name) opts)) [
      | none ↦ some (record s { helpflag = true })
      | some (n, pt) ↦ do opt ← get_elem? opts n; assign opt pt s
    ]

    -- Any other argument is the next file name, up to the NULL behind the last place in `filename`;
    -- `endptr` is not NULL.
    unfoldable pub parse_file : ℕ → List ℕ → State F → State F
    unfolding put_word
    parse_file ia argp s = elim (get_elem? filename s.nf) [
      | none ↦ s
      | some a ↦ record s { memory = put_word a argp s.memory; nf = suc s.nf; endptr = suc ia }
    ]

    -- `for(ia=1; ia<argc; ia++)`, with the arguments that are left.
    unfoldable pub parse_args : ℕ → List (List ℕ) → State F → Option (Ended F)
    unfolding parse_option parse_file
    parse_args ia [] s = some (parsed s)
    parse_args ia (arg ∷ argv) s =
        let argp = long_name arg in
        let as_option = parse_option argp s >>= parse_args (suc ia) argv in
        let as_file = parse_args (suc ia) argv (parse_file ia arg s) in
        if is_option isalpha arg
        then (if asks_version argp then some exited else as_option)
        else as_file

    -- `j` is what is in the variable that is not initialised.
    unfoldable pub parsearg : ℕ → (ℕ → Value F) → List (List ℕ) → Option (Ended F)
    unfolding parse_args
    parsearg j memory argv =
        parse_args 1 argv (record { memory = memory; helpflag = false; nf = 0; endptr = 0; j = j })
