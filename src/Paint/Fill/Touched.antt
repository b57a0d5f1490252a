-- ===== src/Paint/Fill/Touched.antt =====
-- What every touched pixel keeps, a whole flood keeps, however many turns it is given.
use pwrake.Prelude.{
  ℕ, zero, suc, ◌≡◌, Bool, Bool-cases, inl, inr, true, false, List, [], ◌∷◌, if◌then◌else◌,
}
use pwrake.Prelude.Int.{ℤ, pos, ◌+ℤ◌, ◌-ℤ◌, eqb_ℤ, leb_ℤ, pos_part}
use pwrake.Paint.Shadows.{Shadow, Shadows}
use pwrake.Paint.Fill.{
  Canvas, passes, touch_at, walk_left, walk_right, paint_run, visit_from, visit_shadow, turn,
  is_done, turns, flood,
}

module _ {F : Type 0} (tmp : ℕ → F) (npx npy : ℕ) (check : F → Bool)
    (touch : ℕ → ℤ → ℤ → F → Canvas F → Canvas F) (P : Canvas F → Type 0)
    (keeps : (col row : ℤ) (c : Canvas F)
      → passes tmp npx npy check col row ≡ true
      → P c
      → P (touch_at tmp npx npy check touch col row c)) where
  pub walk_left-keeps :
      (fuel : ℕ) (row col : ℤ) (c : Canvas F)
      → P c
      → P (walk_left tmp npx npy check touch fuel row col c).1
  unfolding walk_left
  walk_left-keeps zero row col c p = p
  walk_left-keeps (suc fuel) row col c p = elim (Bool-cases (passes tmp npx npy check col row)) [
    | inl e ↦ rw (e, walk_left) (walk_left-keeps fuel row (col -ℤ pos 1) _ (keeps col row c e p))
    | inr e ↦ rw (e, walk_left) p
  ]

  pub walk_right-keeps :
      (fuel : ℕ) (row col : ℤ) (c : Canvas F)
      → P c
      → P (walk_right tmp npx npy check touch fuel row col c).1
  unfolding walk_right
  walk_right-keeps zero row col c p = p
  walk_right-keeps (suc fuel) row col c p = elim (Bool-cases (passes tmp npx npy check col row)) [
    | inl e ↦ rw (e, walk_right) (walk_right-keeps fuel row (col +ℤ pos 1) _ (keeps col row c e p))
    | inr e ↦ rw (e, walk_right) p
  ]

  paint_run-keeps :
      (seed : Shadow) (row col : ℤ) (c : Canvas F)
      → passes tmp npx npy check col row ≡ true
      → P c
      → P (paint_run tmp npx npy check touch seed row col c).2
  unfolding paint_run
  paint_run-keeps seed row col c e p =
      let p1 = keeps col row c e p in
      let p2 = walk_left-keeps (suc npx) row (col -ℤ pos 1) _ p1 in
      elim (Bool-cases (eqb_ℤ col seed.lft)) [
        | inl b ↦ rw b (walk_right-keeps (suc npx) row (col +ℤ pos 1) _ p2)
        | inr b ↦ rw b (walk_right-keeps (suc npx) row (col +ℤ pos 1) _ p1)
      ]

  pub visit_from-keeps :
      (fuel : ℕ) (seed : Shadow) (col : ℤ) (w : Shadows) (c : Canvas F)
      → P c
      → P (visit_from tmp npx npy check touch fuel seed col w c).1
  unfolding visit_from
  visit_from-keeps zero seed col w c p = p
  visit_from-keeps (suc fuel) seed col w c p = elim (Bool-cases (leb_ℤ col seed.rgt)) [
    | inl within ↦ rw within (elim (Bool-cases (passes tmp npx npy check col w.curr_row)) [
      | inl e ↦ rw e (visit_from-keeps fuel seed _ _ _ (paint_run-keeps seed w.curr_row col c e p))
      | inr e ↦ rw e (visit_from-keeps fuel seed (col +ℤ pos 1) w c p)
    ])
    | inr beyond ↦ rw beyond p
  ]

  visit_shadow-keeps :
      (seed : Shadow) (w : Shadows) (c : Canvas F)
      → P c
      → P (visit_shadow tmp npx npy check touch seed w c).1
  unfolding visit_shadow
  visit_shadow-keeps seed w c p =
      visit_from-keeps (suc (pos_part (seed.rgt -ℤ seed.lft +ℤ pos 1))) seed seed.lft w c p

  choice-keeps : (b : Bool) (r q : Shadows × Canvas F) → P r.1 → P q.1 → P (if b then r else q).1
  choice-keeps true r q p p' = p
  choice-keeps false r q p p' = p'

  turn-keeps : (w : Shadows) (c : Canvas F) → P c → P (turn tmp npx npy check touch w c).1
  unfolding turn
  turn-keeps w c p = by_rows w.rows
    where
      by_rows : (l : List Shadow) → P (turn tmp npx npy check touch (record w { rows = l }) c).1
      by_rows [] = p
      by_rows (seed ∷ rest) =
          choice-keeps seed.is_ok _ (record w { rows = rest }, c)
            (visit_shadow-keeps seed (record w { rows = rest }) c p) p

  pub turns-keeps :
      (fuel : ℕ) (w : Shadows) (c : Canvas F) → P c → P (turns tmp npx npy check touch fuel w c).1
  unfolding turns
  turns-keeps zero w c p = p
  turns-keeps (suc fuel) w c p = elim (Bool-cases (is_done w)) [
    | inl e ↦ rw e p
    | inr e ↦ rw e (turns-keeps fuel _ _ (turn-keeps w c p))
  ]

  pub flood-keeps :
      (fuel : ℕ) (x y : ℤ) (map : ℕ → ℕ)
      → P (record { map = map; npix = 0; calls = [] })
      → P (flood tmp npx npy check touch fuel x y map).1
  unfolding flood
  flood-keeps fuel x y map p = turns-keeps fuel _ _ p
