-- ===== src/Paint/Fill/Alike.antt =====
-- Two floods that differ in how they touch a pixel look at the same pixels.
use mathlib.Core.Path.{subst}
use pwrake.Prelude.{
  ℕ, zero, suc, ◌≡◌, refl, ap, Bool, Bool-cases, inl, inr, true, false, List, [], ◌∷◌,
  if◌then◌else◌,
}
use pwrake.Prelude.Int.{ℤ, pos, ◌+ℤ◌, ◌-ℤ◌, eqb_ℤ, leb_ℤ, pos_part}
use pwrake.Paint.Shadows.{Shadow, Shadows, make_shadows}
use pwrake.Paint.Fill.{
  Canvas, passes, touch_at, walk_left, walk_right, paint_run, visit_from, visit_shadow, turn,
  is_done, turns, flood,
}

module _ {F : Type 0} (tmp : ℕ → F) (npx npy : ℕ) (check : F → Bool)
    (touch1 touch2 : ℕ → ℤ → ℤ → F → Canvas F → Canvas F) (R : Canvas F → Canvas F → Type 0)
    (keeps : (col row : ℤ) (c1 c2 : Canvas F)
      → passes tmp npx npy check col row ≡ true
      → R c1 c2
      → R
          (touch_at tmp npx npy check touch1 col row c1)
          (touch_at tmp npx npy check touch2 col row c2)) where
  abbrev Alike : {X : Type 0} → X × Canvas F → X × Canvas F → Type 0
  Alike a b = (a.0 ≡ b.0) × R a.1 b.1

  walk_left-Alike :
      (fuel : ℕ) (row col : ℤ) (c1 c2 : Canvas F)
      → R c1 c2
      → Alike
          (walk_left tmp npx npy check touch1 fuel row col c1)
          (walk_left tmp npx npy check touch2 fuel row col c2)
  unfolding walk_left
  walk_left-Alike zero row col c1 c2 r = (refl, r)
  walk_left-Alike (suc fuel) row col c1 c2 r =
      elim (Bool-cases (passes tmp npx npy check col row)) [
        | inl e ↦
            rw (e, walk_left)
              (walk_left-Alike fuel row (col -ℤ pos 1) _ _ (keeps col row c1 c2 e r))
        | inr e ↦ rw (e, walk_left) (refl, r)
      ]

  walk_right-Alike :
      (fuel : ℕ) (row col : ℤ) (c1 c2 : Canvas F)
      → R c1 c2
      → Alike
          (walk_right tmp npx npy check touch1 fuel row col c1)
          (walk_right tmp npx npy check touch2 fuel row col c2)
  unfolding walk_right
  walk_right-Alike zero row col c1 c2 r = (refl, r)
  walk_right-Alike (suc fuel) row col c1 c2 r =
      elim (Bool-cases (passes tmp npx npy check col row)) [
        | inl e ↦
            rw (e, walk_right)
              (walk_right-Alike fuel row (col +ℤ pos 1) _ _ (keeps col row c1 c2 e r))
        | inr e ↦ rw (e, walk_right) (refl, r)
      ]

  abbrev AlikeRun : ℤ × ℤ × Canvas F → ℤ × ℤ × Canvas F → Type 0
  AlikeRun a b = (a.0 ≡ b.0) × (a.1 ≡ b.1) × R a.2 b.2

  paint_run-AlikeRun :
      (seed : Shadow) (row col : ℤ) (c1 c2 : Canvas F)
      → passes tmp npx npy check col row ≡ true
      → R c1 c2
      → AlikeRun
          (paint_run tmp npx npy check touch1 seed row col c1)
          (paint_run tmp npx npy check touch2 seed row col c2)
  unfolding paint_run
  paint_run-AlikeRun seed row col c1 c2 e r =
      let r1 = keeps col row c1 c2 e r in
      let (same, r2) = walk_left-Alike (suc npx) row (col -ℤ pos 1) _ _ r1 in
      elim (Bool-cases (eqb_ℤ col seed.lft)) [
        | inl b ↦ rw b (
            let (end, r3) = walk_right-Alike (suc npx) row (col +ℤ pos 1) _ _ r2 in
            (ap (λ z. z +ℤ pos 1) same, end, r3))
        | inr b ↦ rw b (
            let (end, r3) = walk_right-Alike (suc npx) row (col +ℤ pos 1) _ _ r1 in (refl, end, r3))
      ]

  visit_from-Alike :
      (fuel : ℕ) (seed : Shadow) (col : ℤ) (w : Shadows) (c1 c2 : Canvas F)
      → R c1 c2
      → Alike
          (visit_from tmp npx npy check touch1 fuel seed col w c1)
          (visit_from tmp npx npy check touch2 fuel seed col w c2)
  unfolding visit_from
  visit_from-Alike zero seed col w c1 c2 r = (refl, r)
  visit_from-Alike (suc fuel) seed col w c1 c2 r = elim (Bool-cases (leb_ℤ col seed.rgt)) [
    | inl within ↦ rw within (elim (Bool-cases (passes tmp npx npy check col w.curr_row)) [
      | inl e ↦ rw e (
          let p1 = paint_run tmp npx npy check touch1 seed w.curr_row col c1 in
          let p2 = paint_run tmp npx npy check touch2 seed w.curr_row col c2 in
          let (el, er, r') = paint_run-AlikeRun seed w.curr_row col c1 c2 e r in
          let from : ℤ → ℤ → Type 0 = λ l z.
            Alike
              (visit_from tmp npx npy check touch1 fuel seed (p1.1 +ℤ pos 1)
                (make_shadows seed p1.0 (p1.1 -ℤ pos 1) w) p1.2)
              (visit_from tmp npx npy check touch2 fuel seed (z +ℤ pos 1)
                (make_shadows seed l (z -ℤ pos 1) w) p2.2) in
          subst (λ z. from p2.0 z) er
            (subst (λ l. from l p1.1) el
              (visit_from-Alike fuel seed (p1.1 +ℤ pos 1) (make_shadows seed p1.0 (p1.1 -ℤ pos 1) w)
                p1.2 p2.2 r')))
      | inr e ↦ rw e (visit_from-Alike fuel seed (col +ℤ pos 1) w c1 c2 r)
    ])
    | inr beyond ↦ rw beyond (refl, r)
  ]

  choice-Alike :
      (b : Bool) (p1 p2 q1 q2 : Shadows × Canvas F)
      → Alike p1 p2
      → Alike q1 q2
      → Alike (if b then p1 else q1) (if b then p2 else q2)
  choice-Alike true p1 p2 q1 q2 p q = p
  choice-Alike false p1 p2 q1 q2 p q = q

  turn-Alike :
      (w : Shadows) (c1 c2 : Canvas F)
      → R c1 c2
      → Alike (turn tmp npx npy check touch1 w c1) (turn tmp npx npy check touch2 w c2)
  unfolding turn visit_shadow
  turn-Alike w c1 c2 r = by_rows w.rows
    where
      by_rows :
          (l : List Shadow)
          → Alike
              (turn tmp npx npy check touch1 (record w { rows = l }) c1)
              (turn tmp npx npy check touch2 (record w { rows = l }) c2)
      by_rows [] = (refl, r)
      by_rows (seed ∷ rest) =
          let popped : Shadows = record w { rows = rest } in
          let fuel = suc (pos_part (seed.rgt -ℤ seed.lft +ℤ pos 1)) in
          let (same, r') =
            choice-Alike seed.is_ok
              (visit_from tmp npx npy check touch1 fuel seed seed.lft popped c1)
              (visit_from tmp npx npy check touch2 fuel seed seed.lft popped c2) (popped, c1)
              (popped, c2) (visit_from-Alike fuel seed seed.lft popped c1 c2 r) (refl, r) in
          (ap (λ (v : Shadows). record v { free = seed ∷ v.free }) same, r')

  turns-Alike :
      (fuel : ℕ) (w : Shadows) (c1 c2 : Canvas F)
      → R c1 c2
      → Alike (turns tmp npx npy check touch1 fuel w c1) (turns tmp npx npy check touch2 fuel w c2)
  unfolding turns
  turns-Alike zero w c1 c2 r = (refl, r)
  turns-Alike (suc fuel) w c1 c2 r =
      let t1 = turn tmp npx npy check touch1 w c1 in
      let t2 = turn tmp npx npy check touch2 w c2 in
      let (same, r') = turn-Alike w c1 c2 r in
      let more =
        subst
          (λ v.
            Alike (turns tmp npx npy check touch1 fuel t1.0 t1.1)
              (turns tmp npx npy check touch2 fuel v t2.1))
          same (turns-Alike fuel t1.0 t1.1 t2.1 r') in
      choice-Alike (is_done w) (w, c1) (w, c2) (turns tmp npx npy check touch1 fuel t1.0 t1.1)
        (turns tmp npx npy check touch2 fuel t2.0 t2.1) (refl, r) more

  pub flood-Alike :
      (fuel : ℕ) (x y : ℤ) (map : ℕ → ℕ)
      → R (record { map = map; npix = 0; calls = [] }) (record { map = map; npix = 0; calls = [] })
      → Alike
          (flood tmp npx npy check touch1 fuel x y map)
          (flood tmp npx npy check touch2 fuel x y map)
  unfolding flood
  flood-Alike fuel x y map r = turns-Alike fuel _ _ _ r
