-- ===== src/Fit.antt =====
-- The straight line through points of demo/spcam/sdfred20100528/mosaic/libsrc/lsf.c. The arrays `ax` and
-- `ay`, which the code always changes at the same index, are one list of points.
use pwrake.Prelude.{
  ℕ, zero, suc, ◌+◌, ◌-◌, Bool, true, false, not, ◌&&◌, ◌||◌, List, [], ◌∷◌, Option, none, some,
  get_elem?, write, ltb, ◌==◌, if◌then◌else◌, ◌>>=◌,
}
use pwrake.Prelude.Int.{ℤ, pos, negsuc}
pub mod Pass
pub mod Turns
pub mod Rejected
pub mod Tests

-- C's arithmetic on doubles, with `fabs` and `sqrt`.
pub record Doubles (F : Type 0) : Type 0 where
  pub minus : F → F → F
  pub plus : F → F → F
  pub times : F → F → F
  pub over : F → F → F
  pub fabs : F → F
  pub sqrt : F → F
  pub of_nat : ℕ → F
  pub flt_max : F
  pub lt : F → F → Bool
  pub is_zero : F → Bool

-- `n`, the means and the moments.
pub record Sums (F : Type 0) : Type 0 where
  pub n : ℕ
  pub sx : F
  pub sy : F
  pub sx2 : F
  pub sxy : F
  pub sy2 : F

-- What a turn of `do` starts from.
pub record State (F : Type 0) : Type 0 where
  pub a : F
  pub b : F
  pub sd : F
  pub size : ℕ
  pub points : List (F × F)
  pub flag : Bool

-- A return with its value and the line, or the next test of `rej`.
pub data Outcome (F : Type 0) : Type 0 where
  ended : ℤ → F → F → Outcome F
  goes_on : ℕ → State F → Outcome F

-- What the loop over the points leaves.
pub record Passed (F : Type 0) : Type 0 where
  pub sums : Sums F
  pub size : ℕ
  pub rej : ℕ
  pub points : List (F × F)

module _ {F : Type 0} (o : Doubles F) where
  abbrev pub no_sums : Sums F
  no_sums = record {
    n = 0;
    sx = o.of_nat 0;
    sy = o.of_nat 0;
    sx2 = o.of_nat 0;
    sxy = o.of_nat 0;
    sy2 = o.of_nat 0;
  }

  -- `(double)(n-1)*u*v/(double)n`, of the count before the point.
  abbrev pub moment : ℕ → F → F → F
  moment n u v = o.over (o.times (o.times (o.of_nat n) u) v) (o.of_nat (suc n))

  unfoldable pub add : Sums F → F × F → Sums F
  add s (px, py) =
      let x = o.minus px s.sx in
      let y = o.minus py s.sy in
      record {
        n = suc s.n;
        sx = o.plus s.sx (o.over x (o.of_nat (suc s.n)));
        sy = o.plus s.sy (o.over y (o.of_nat (suc s.n)));
        sx2 = o.plus s.sx2 (moment s.n x x);
        sxy = o.plus s.sxy (moment s.n x y);
        sy2 = o.plus s.sy2 (moment s.n y y);
      }

  unfoldable pub within : State F → ℕ → F × F → Bool
  within st i (x, y) =
      not st.flag
      || o.lt (o.fabs (o.minus (o.plus (o.times st.a x) st.b) y)) (o.times (o.of_nat i) st.sd)

  -- `for(j=0;j<N;j++)`; each turn brings `j` and `N` nearer by one.
  unfoldable pub pass : ℕ → State F → ℕ → ℕ → Passed F → Option (Passed F)
  unfolding within add
  pass zero st i j p = if ltb j p.size then none else some p
  pass (suc rounds) st i j p = elim (ltb j p.size) [
    | false ↦ some p
    | true ↦ do
      point ← get_elem? p.points j
      elim (within st i point) [
        | true ↦ pass rounds st i (suc j) (record p { sums = add p.sums point })
        | false ↦ do
          last ← get_elem? p.points (p.size - 1)
          points ← write p.points j last
          pass rounds st i j (record p { size = p.size - 1; rej = suc p.rej; points = points })
      ]
  ]

  abbrev pub slope : Sums F → F
  slope s = o.over s.sxy s.sx2

  abbrev pub offset : Sums F → F
  offset s = o.minus s.sy (o.times (slope s) s.sx)

  -- `sqrt((a*a*sx2-2*a*sxy+sy2)/(double)(n-1))`
  abbrev pub deviation : Sums F → F
  deviation s =
      let a = slope s in
      let square = o.times (o.times a a) s.sx2 in
      let cross = o.times (o.times (o.of_nat 2) a) s.sxy in
      o.sqrt (o.over (o.plus (o.minus square cross) s.sy2) (o.of_nat (s.n - 1)))

  -- `n<2 || sx2==0`
  abbrev pub no_line : Sums F → Bool
  no_line s = ltb s.n 2 || o.is_zero s.sx2

  -- A turn of `do`, after the loop over the points.
  unfoldable pub fitted : ℕ → State F → Passed F → Outcome F
  fitted start st p =
      let rej : ℕ = if st.flag then p.rej else if ltb 0 start then 1 else p.rej in
      let flag : Bool = st.flag || ltb 0 start in
      let a = slope p.sums in
      let b = offset p.sums in
      let sd = deviation p.sums in
      if no_line p.sums
      then ended (negsuc 0) st.a st.b
      else if o.is_zero sd
      then ended (pos 0) a b
      else goes_on rej
          (record { a = a; b = b; sd = sd; size = p.size; points = p.points; flag = flag })

  unfoldable pub round : ℕ → ℕ → State F → Option (Outcome F)
  unfolding pass fitted
  round start i st = do
    p ← pass st.size st i 0 (record { sums = no_sums; size = st.size; rej = 0; points = st.points })
    some (fitted start st p)

  -- `do ... while( rej != 0 )`
  unfoldable pub do_while : ℕ → ℕ → ℕ → State F → Option (Outcome F)
  unfolding round
  do_while zero start i st = none
  do_while (suc fuel) start i st = do
    out ← round start i st
    elim out [
      | ended code a b ↦ some (ended code a b)
      | goes_on zero st' ↦ some (goes_on 0 st')
      | goes_on (suc rej) st' ↦ do_while fuel start i st'
    ]

  -- The turns with `i` from the given one downwards, as many as the first argument says.
  unfoldable pub levels : ℕ → ℕ → ℕ → State F → Option (Outcome F)
  unfolding do_while
  levels zero start i st = some (goes_on 0 st)
  levels (suc turns) start i st = do
    out ← do_while (st.size + 2) start i st
    elim out [
      | ended code a b ↦ some (ended code a b)
      | goes_on rej st' ↦ levels turns start (i - 1) st'
    ]

  abbrev pub value : Outcome F → ℤ × F × F
  value (ended code a b) = (code, a, b)
  value (goes_on rej st) = (pos 0, st.a, st.b)

  -- The return value and the line.
  unfoldable pub lsf : List (F × F) → ℕ → ℕ → ℕ → Option (ℤ × F × F)
  unfolding levels
  lsf points ndata start end =
      let st : State F = record {
        a = o.of_nat 1;
        b = o.of_nat 0;
        sd = o.flt_max;
        size = ndata;
        points = points;
        flag = false;
      } in
      if ltb ndata 2
      then some (negsuc 0, o.of_nat 1, o.of_nat 0)
      else (do out ← levels (suc start - end) start start st; some (value out))
