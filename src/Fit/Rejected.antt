-- ===== src/Fit/Rejected.antt =====
-- `lsf` of demo/spcam/sdfred20100528/mosaic/libsrc/lsf.c as a run of turns that put far points aside.
use pwrake.Prelude.{
  ℕ, zero, suc, ◌+◌, ◌-◌, ◌≤◌, ◌<◌, ◌≡◌, refl, sym, ap, ◌∙◌, ◌⊎◌, inl, inr, true, false, Bool-cases,
  lt→ltb, List, [], Option, some, arith, length, length-append, take, drop, take-append-drop,
  length-take, ltb, Returns, returns, Returns-bind, Returns-map, Returns-if,
}
use pwrake.Prelude.Int.{negsuc}
use pwrake.Prelude.Perms.{length-perm}
use pwrake.Fit.{
  Doubles, State, Outcome, ended, goes_on, Passed, no_sums, deviation, no_line, within, fitted,
  round, do_while, levels, value, lsf,
}
use pwrake.Fit.Pass.{gather, IsPassed, pass-IsPassed}
use pwrake.Fit.Turns.{
  Line, Splits, turns_again, Run, stuck, exact, again, lower, last, line_of, Holds, left_turns,
  IsTurn, IsLevel, less_turns, again_rej,
}

module _ {F : Type 0} (o : Doubles F) (start end : ℕ) where
  fitted-IsTurn :
      (i : ℕ) (act : List (F × F)) (st : State F) (p : Passed F)
      → st.size ≡ length act
      → IsPassed o st i act 0 p
      → IsTurn o start end i st act (fitted o start st p)
  unfolding fitted within
  fitted-IsTurn i act st p size (kept, gone, junk, part, held, count, rej, sums, near, far) =
      let splits : Splits o (line_of o st) i act kept gone = (part, near, far) in
      elim (Bool-cases (no_line o p.sums)) [
        | inl e ↦ rw (fitted, e) (stuck kept gone splits (rw sums at e))
        | inr e ↦ elim (Bool-cases (o.is_zero (deviation o p.sums))) [
          | inl e' ↦
              rw (fitted, e, e') (rw sums (exact kept gone splits (rw sums at e) (rw sums at e')))
          | inr e' ↦
              let all : p.size + length gone ≡ st.size =
                omega (arith, length-append kept gone, length-perm part, count, size) in
              rw (fitted, e, e')
                (
                  kept,
                  gone,
                  splits,
                  (rw sums at e),
                  (rw sums at e'),
                  again_rej o start (length gone) p.rej st.flag (omega (arith, rej)),
                  (junk, held, count),
                  rw sums refl,
                  less_turns o start st.size p.size (length gone) p.rej st.flag (omega (arith, rej))
                      all,
                )
        ]
      ]

  round-IsTurn :
      (i : ℕ) (st : State F) (act : List (F × F))
      → Holds o st act
      → Returns (IsTurn o start end i st act) (round o start i st)
  unfolding round gather
  round-IsTurn i st act (junk, held, size) =
      Returns-bind
        (pass-IsPassed o st.size st i [] act junk (no_sums o) st.size 0 st.points
          (omega (arith, size)) held (omega (arith, size)) refl (λ n q h. ground arith))
        (λ p part. returns (fitted-IsTurn i act st p size part))

  -- What follows a turn of `do`.
  after_turn :
      (i : ℕ) (st : State F) (act : List (F × F)) (next : State F → Option (Outcome F))
      → ((st' : State F) (kept : List (F × F))
          → left_turns o st' < left_turns o st
          → Holds o st' kept
          → Returns (IsLevel o start end i (line_of o st') kept) (next st'))
      → (out : Outcome F) → IsTurn o start end i st act out
      → Returns (IsLevel o start end i (line_of o st) act) (elim out [
        | ended code a b ↦ some (ended code a b)
        | goes_on zero st' ↦ some (goes_on 0 st')
        | goes_on (suc rej) st' ↦ next st'
      ])
  after_turn i st act next each (ended code a b) run = returns run
  after_turn i st act next each (goes_on zero st')
        (kept, gone, splits, e, e', stops, held, same, less) =
      returns (
        kept,
        held,
        (λ r above run. lower kept gone splits e e' stops above (rw same at run)),
        λ below.
            rw (ap (λ (z : Line F). z.a) same, ap (λ (z : Line F). z.b) same)
              (last kept gone splits e e' stops below),
      )
  after_turn i st act next each (goes_on (suc rej) st')
        (kept, gone, splits, e, e', goes, held, same, less) =
      Returns-map (each st' kept (less (omega arith)) held) λ out v. by_out out v
    where
      more : turns_again o start (line_of o st) gone ≡ true
      more = goes ∙ lt→ltb 0 (suc rej) (omega arith)

      by_out :
          (out : Outcome F)
          → IsLevel o start end i (line_of o st') kept out
          → IsLevel o start end i (line_of o st) act out
      by_out (ended code a b) run = again kept gone splits e e' more (rw same at run)
      by_out (goes_on rej' st'') (left, held', run_lower, run_last) = (
        left,
        held',
        (λ r above run. again kept gone splits e e' more (rw same at (run_lower r above run))),
        λ below. again kept gone splits e e' more (rw same at (run_last below)),
      )

  do_while-IsLevel :
      (fuel i : ℕ) (st : State F) (act : List (F × F))
      → left_turns o st < fuel
      → Holds o st act
      → Returns (IsLevel o start end i (line_of o st) act) (do_while o fuel start i st)
  unfolding do_while
  do_while-IsLevel zero i st act enough held = absurd (omega arith)
  do_while-IsLevel (suc fuel) i st act enough held = Returns-bind (round-IsTurn i st act held) (
      after_turn i st act (λ st'. do_while o fuel start i st')
        (λ st' kept less held'.
          do_while-IsLevel fuel i st' kept (omega (arith, enough, less)) held'))

  below : (s : State F) → left_turns o s < s.size + 2
  below s = elim (Bool-cases s.flag) [ inl e ↦ rw e (omega arith) | inr e ↦ rw e (omega arith) ]

  after_level :
      (i : ℕ) (line : Line F) (act : List (F × F)) (next : State F → Option (Outcome F))
      → ((st' : State F)
          → IsLevel o start end i line act (goes_on 0 st')
          → Returns (λ r. Run o start end i line act (value o r)) (next st'))
      → (out : Outcome F) → IsLevel o start end i line act out
      → Returns
          (λ r. Run o start end i line act (value o r))
          (elim out [ ended code a b ↦ some (ended code a b) | goes_on rej st' ↦ next st' ])
  after_level i line act next each (ended code a b) run = returns run
  after_level i line act next each (goes_on rej st') v = each st' v

  levels-Run :
      (turns i : ℕ) (st : State F) (act : List (F × F))
      → i ≡ turns + end
      → Holds o st act
      → Returns
          (λ out. Run o start end i (line_of o st) act (value o out))
          (levels o (suc turns) start i st)
  unfolding levels
  levels-Run zero i st act down held =
      Returns-bind (do_while-IsLevel (st.size + 2) i st act (below st) held) (
        after_level i (line_of o st) act (λ st'. levels o zero start (i - 1) st')
          (λ st' (kept, held', run_lower, run_last). returns (run_last (omega (arith, down)))))
  levels-Run (suc turns) i st act down held =
      Returns-bind (do_while-IsLevel (st.size + 2) i st act (below st) held) (
        after_level i (line_of o st) act (λ st'. levels o (suc turns) start (i - 1) st')
          (λ st' (kept, held', run_lower, run_last).
            Returns-map (levels-Run turns (i - 1) st' kept (omega (arith, down)) held')
              (λ out run. run_lower (value o out) (omega (arith, down)) run)))

  -- On at least `ndata` points and with `rej_sigma` not above `rej_sigma_start`, `lsf` ends with no access
  -- outside the arrays. For fewer than two points it returns -1 with the line of slope 1 through the
  -- origin; otherwise its result is that of a run on the first `ndata` points, from this line and
  -- `rej_sigma_start` deviations.
  pub lsf-Run :
      (points : List (F × F)) (ndata : ℕ)
      → ndata ≤ length points
      → end ≤ start
      → let first : Line F = record {
        a = o.of_nat 1;
        b = o.of_nat 0;
        sd = o.flt_max;
        flag = false;
      } in
        Returns
          (λ r.
            ((ndata < 2) × (r ≡ (negsuc 0, o.of_nat 1, o.of_nat 0)))
            ⊎ ((2 ≤ ndata) × Run o start end start first (take ndata points) r))
          (lsf o points ndata start end)
  unfolding lsf
  lsf-Run points ndata inside down =
      let whole : List (F × F) = take ndata points in
      let count : length whole ≡ ndata = length-take ndata points inside in
      let turns : suc start - end ≡ suc (start - end) = omega (arith, down) in
      Returns-if (ltb ndata 2) (λ few. returns (inl (ground (arith, few), refl)))
        (λ many. rw turns (
          Returns-bind
            (levels-Run (start - end) start _ whole (omega (arith, down))
              (drop ndata points, sym (take-append-drop ndata points), sym count))
            (λ out run. returns (inr (ground (arith, many), run)))))
