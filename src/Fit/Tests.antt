-- ===== src/Fit/Tests.antt =====
-- The straight line on small inputs.
use pwrake.Prelude.{
  ◌⊎◌, ℕ, ◌+◌, ◌-◌, ◌*◌, ◌/◌, ◌≡◌, ◌≤◌, ◌<◌, false, refl, List, [], ◌∷◌, some, arith, take, ltb,
  ◌==◌, Returns,
}
use pwrake.Prelude.Int.{pos, negsuc}
use pwrake.Fit.{Doubles, lsf}
use pwrake.Fit.Rejected.{lsf-Run}
use pwrake.Fit.Turns.{Line, Run}

-- Natural numbers in place of doubles; differences stop at 0.
abbrev naturals : Doubles ℕ
naturals = record {
  minus = λ x y. x - y;
  plus = λ x y. x + y;
  times = λ x y. x * y;
  over = λ x y. x / y;
  fabs = λ x. x;
  sqrt = λ x. x;
  of_nat = λ n. n;
  flt_max = 4294967295;
  lt = ltb;
  is_zero = λ x. x == 0;
}

abbrev line : List (ℕ × ℕ)
line = (0, 1) ∷ (8, 17) ∷ (16, 33) ∷ (24, 49) ∷ []

lsf-line : lsf naturals line 4 3 2 ≡ some (pos 0, 2, 1)
unfolding lsf
lsf-line = refl

lsf_column : lsf naturals ((5, 1) ∷ (5, 9) ∷ []) 2 3 2 ≡ some (negsuc 0, 1, 0)
unfolding lsf
lsf_column = refl

-- The line before the first turn.
abbrev level_line : Line ℕ
level_line = record { a = 1; b = 0; sd = 4294967295; flag = false }

lsf-Run_example :
    Returns
      (λ r.
        ((4 < 2) × (r ≡ (negsuc 0, 1, 0)))
        ⊎ ((2 ≤ 4) × Run naturals 3 2 3 level_line (take 4 line) r))
      (lsf naturals line 4 3 2)
lsf-Run_example = lsf-Run naturals 3 2 line 4 (omega arith) (omega arith)
