-- ===== src/Paint/Fill/Seed.antt =====
-- Two turns paint the pixel that a flood starts from.
use pwrake.Prelude.{
  ℕ, zero, suc, ◌≤◌, ◌≡◌, refl, arith, Bool, Bool-cases, inl, inr, true, false, [],
}
use pwrake.Prelude.Int.{ℤ, pos, ◌+ℤ◌, ◌-ℤ◌, eqb_ℤ, leb_ℤ, pos_part}
use pwrake.Paint.Shadows.{Shadow, Shadows, make_row, new_shadow}
use pwrake.Paint.Fill.{
  Canvas, passes, touch_at, paint_run, visit_from, visit_shadow, turn, turns, flood,
}
use pwrake.Paint.Fill.Touched.{walk_left-keeps, walk_right-keeps, visit_from-keeps, turns-keeps}

module _ {F : Type 0} (tmp : ℕ → F) (npx npy : ℕ) (check : F → Bool)
    (touch : ℕ → ℤ → ℤ → F → Canvas F → Canvas F) (P : Canvas F → Type 0)
    (keeps : (col row : ℤ) (c : Canvas F)
      → passes tmp npx npy check col row ≡ true
      → P c
      → P (touch_at tmp npx npy check touch col row c))
    (x y : ℤ) (hit : passes tmp npx npy check x y ≡ true)
    (starts : (c : Canvas F) → P (touch_at tmp npx npy check touch x y c)) where
  paint_run-starts :
      (seed : Shadow) (c : Canvas F) → P (paint_run tmp npx npy check touch seed y x c).2
  unfolding paint_run
  paint_run-starts seed c =
      let p1 = starts c in
      let p2 = walk_left-keeps tmp npx npy check touch P keeps (suc npx) y (x -ℤ pos 1) _ p1 in
      elim (Bool-cases (eqb_ℤ x seed.lft)) [
        | inl b ↦
            rw b (walk_right-keeps tmp npx npy check touch P keeps (suc npx) y (x +ℤ pos 1) _ p2)
        | inr b ↦
            rw b (walk_right-keeps tmp npx npy check touch P keeps (suc npx) y (x +ℤ pos 1) _ p1)
      ]

  visit_from-starts :
      (fuel : ℕ) (seed : Shadow) (w : Shadows) (c : Canvas F)
      → leb_ℤ x seed.rgt ≡ true
      → w.curr_row ≡ y
      → P (visit_from tmp npx npy check touch (suc fuel) seed x w c).1
  unfolding visit_from
  visit_from-starts fuel seed w c within same =
      rw (within, same, hit)
        (visit_from-keeps tmp npx npy check touch P keeps fuel seed _ _ _ (paint_run-starts seed c))

  -- Whatever every touched pixel keeps, and the pixel `(x, y)` establishes, holds in the end.
  pub flood-starts :
      (fuel : ℕ) (map : ℕ → ℕ) → 2 ≤ fuel → P (flood tmp npx npy check touch fuel x y map).1
  unfolding flood turns turn visit_shadow make_row new_shadow
  flood-starts zero map h = absurd (omega arith)
  flood-starts (suc zero) map h = absurd (omega arith)
  flood-starts (suc (suc fuel)) map h = turns-keeps tmp npx npy check touch P keeps fuel _ _ (
      visit_from-starts (pos_part (x -ℤ x +ℤ pos 1))
        (record { lft = x; rgt = x; row = y; par = y; is_ok = true })
        (record { curr_row = y; rows = []; pend = []; free = []; crashed = false }) _ (ground arith)
        refl)
