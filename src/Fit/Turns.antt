-- ===== src/Fit/Turns.antt =====
-- The turns of `lsf` in demo/spcam/sdfred20100528/mosaic/libsrc/lsf.c: which points each puts aside, and
-- the line of those it keeps.
use pwrake.Prelude.{
  ℕ, suc, ◌+◌, ◌-◌, ◌≤◌, ◌<◌, ◌≡◌, inl, inr, Bool, true, false, not, ◌&&◌, ◌||◌, Bool-cases, List,
  ◌++◌, Perm, arith, length, ltb, if◌then◌else◌,
}
use pwrake.Prelude.Int.{ℤ, pos, negsuc}
use pwrake.Fit.{
  Doubles, Sums, State, Outcome, ended, goes_on, no_sums, slope, offset, deviation, no_line,
}
use pwrake.Fit.Pass.{Each, gather}

-- The line so far, its deviation, and whether there is one that rejects points.
pub record Line (F : Type 0) : Type 0 where
  pub a : F
  pub b : F
  pub sd : F
  pub flag : Bool

module _ {F : Type 0} (o : Doubles F) where
  -- The sums of a list of points.
  abbrev pub of_points : List (F × F) → Sums F
  of_points kept = gather o (no_sums o) kept

  -- Before the first line every point is near; then one is whose distance is below `i` deviations.
  abbrev pub is_near : Line F → ℕ → F × F → Bool
  is_near line i p =
      not line.flag
      || o.lt (o.fabs (o.minus (o.plus (o.times line.a p.0) line.b) p.1))
          (o.times (o.of_nat i) line.sd)

  -- The points are those near the line, in some order, and the others.
  abbrev pub Splits : Line F → ℕ → List (F × F) → List (F × F) → List (F × F) → Type 0
  Splits line i act kept gone =
      Perm (kept ++ gone) act × Each (is_near line i) true kept × Each (is_near line i) false gone

  -- The line of the kept points.
  abbrev pub next_line : ℕ → Line F → List (F × F) → Line F
  next_line start line kept = record {
    a = slope o (of_points kept);
    b = offset o (of_points kept);
    sd = deviation o (of_points kept);
    flag = line.flag || ltb 0 start;
  }

  -- A point was put aside, or this was the first line and there is a rejection to come.
  abbrev pub turns_again : ℕ → Line F → List (F × F) → Bool
  turns_again start line gone = ltb 0 (length gone) || (not line.flag && ltb 0 start)

  -- The fit at `i` deviations from a line and the points that are left, and its result. Each turn
  -- splits the points; too few near ones, or ones on one abscissa, leave the old line and -1; a line
  -- with no deviation is the result; otherwise the new line is used again at `i`, then at `i - 1`
  -- while this is not below `end`.
  pub data Run (start end : ℕ) : ℕ → Line F → List (F × F) → ℤ × F × F → Type 0 where
    stuck :
        {i : ℕ} {line : Line F} {act : List (F × F)} (kept gone : List (F × F))
        → Splits line i act kept gone
        → no_line o (of_points kept) ≡ true
        → Run start end i line act (negsuc 0, line.a, line.b)
    exact :
        {i : ℕ} {line : Line F} {act : List (F × F)} (kept gone : List (F × F))
        → Splits line i act kept gone
        → no_line o (of_points kept) ≡ false
        → o.is_zero (deviation o (of_points kept)) ≡ true
        → Run start end i line act (pos 0, slope o (of_points kept), offset o (of_points kept))
    again :
        {i : ℕ} {line : Line F} {act : List (F × F)} {r : ℤ × F × F} (kept gone : List (F × F))
        → Splits line i act kept gone
        → no_line o (of_points kept) ≡ false
        → o.is_zero (deviation o (of_points kept)) ≡ false
        → turns_again start line gone ≡ true
        → Run start end i (next_line start line kept) kept r
        → Run start end i line act r
    lower :
        {i : ℕ} {line : Line F} {act : List (F × F)} {r : ℤ × F × F} (kept gone : List (F × F))
        → Splits line i act kept gone
        → no_line o (of_points kept) ≡ false
        → o.is_zero (deviation o (of_points kept)) ≡ false
        → turns_again start line gone ≡ false
        → end < i
        → Run start end (i - 1) (next_line start line kept) kept r
        → Run start end i line act r
    last :
        {i : ℕ} {line : Line F} {act : List (F × F)} (kept gone : List (F × F))
        → Splits line i act kept gone
        → no_line o (of_points kept) ≡ false
        → o.is_zero (deviation o (of_points kept)) ≡ false
        → turns_again start line gone ≡ false
        → i ≤ end
        → Run start end i line act (pos 0, slope o (of_points kept), offset o (of_points kept))

  abbrev pub line_of : State F → Line F
  line_of st = record { a = st.a; b = st.b; sd = st.sd; flag = st.flag }

  -- The points in the arrays.
  abbrev pub Holds : State F → List (F × F) → Type 0
  Holds st act = (junk : List (F × F)) × (st.points ≡ act ++ junk) × (st.size ≡ length act)

  -- What becomes less with each turn of `do`.
  abbrev pub left_turns : State F → ℕ
  left_turns st = if st.flag then st.size else suc st.size

  module _ (start end : ℕ) where
    -- What a turn at `i` makes of a state with the points `act`.
    abbrev pub IsTurn : ℕ → State F → List (F × F) → Outcome F → Type 0
    IsTurn i st act (ended code a b) = Run start end i (line_of st) act (code, a, b)
    IsTurn i st act (goes_on rej st') =
        (kept : List (F × F)) × (gone : List (F × F)) × Splits (line_of st) i act kept gone
        × (no_line o (of_points kept) ≡ false)
        × (o.is_zero (deviation o (of_points kept)) ≡ false)
        × (turns_again start (line_of st) gone ≡ ltb 0 rej)
        × Holds st' kept
        × (line_of st' ≡ next_line start (line_of st) kept)
        × (0 < rej → left_turns st' < left_turns st)

    -- What the turns at `i` make of it.
    abbrev pub IsLevel : ℕ → Line F → List (F × F) → Outcome F → Type 0
    IsLevel i line act (ended code a b) = Run start end i line act (code, a, b)
    IsLevel i line act (goes_on rej st') =
        (kept : List (F × F)) × Holds st' kept
        × ((r : ℤ × F × F)
            → end < i
            → Run start end (i - 1) (line_of st') kept r
            → Run start end i line act r)
        × (i ≤ end → Run start end i line act (pos 0, st'.a, st'.b))

  -- The cases of `rej`.
  pub less_turns :
      (start size size' gone rej : ℕ) (flag : Bool)
      → rej ≡ gone
      → size' + gone ≡ size
      → 0 < (if flag then rej else if ltb 0 start then 1 else rej)
      → (if flag || ltb 0 start then size' else suc size') < (if flag then size else suc size)
  less_turns start size size' gone rej true same count more = omega arith
  less_turns start size size' gone rej false same count more = elim (Bool-cases (ltb 0 start)) [
    | inl e ↦ rw e (omega arith)
    | inr e ↦ let more' : 0 < rej = rw e at more in rw e (omega (arith, more'))
  ]

  pub again_rej :
      (start gone rej : ℕ) (flag : Bool)
      → rej ≡ gone
      → (ltb 0 gone || (not flag && ltb 0 start))
        ≡ ltb 0 (if flag then rej else if ltb 0 start then 1 else rej)
  again_rej start gone rej flag same = ground (arith, same)
