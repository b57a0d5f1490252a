-- ===== src/Paint/Flood.antt =====
-- The entry points of paint_sub.c. A threshold, which the source passes as a double, is of the
-- pixels' type here: a float is converted to a double exactly. `fuel` bounds the turns of the loops.
pub mod Marks
pub mod Alike
use pwrake.Prelude.{ℕ, ◌*◌, Bool, ◌&&◌, ◌==◌, ltb, if◌then◌else◌}
use pwrake.Prelude.Int.{ℤ}
use pwrake.Sort.Order.{Ranked, gt, ge, lt}
use pwrake.Paint.Fill.{Canvas, mark, mark2, flood}
use pwrake.Paint.Shadows.{Shadows}

unfoldable pub doflood3r :
    {F : Type 0} → (ℕ → F) → ℕ → ℕ → ℤ → ℤ → (F → Bool) → (ℕ → ℕ) → ℕ → ℕ → Shadows × Canvas F
unfolding flood mark
doflood3r tmp npx npy x y checkfunc map mapval fuel =
    flood tmp npx npy checkfunc (mark mapval) fuel x y map

unfoldable pub doflood2 :
    {F : Type 0} → (ℕ → F) → ℕ → ℕ → ℤ → ℤ → (F → Bool) → (ℕ → ℕ) → ℕ → Shadows × Canvas F
unfolding flood mark2
doflood2 tmp npx npy x y func map fuel = flood tmp npx npy func mark2 fuel x y map

module _ {F : Type 0} ⦃o : Ranked F⦄ where
  pub flood_lessthan : F → F → Bool
  flood_lessthan thres a = lt a thres

  unfoldable pub flood_greaterthan : F → F → Bool
  flood_greaterthan thres a = gt a thres

  pub flood_greaterequal : F → F → Bool
  flood_greaterequal thres a = ge a thres

  pub flood_between : F → F → F → Bool
  flood_between thres0 thres1 a = gt a thres0 && lt a thres1

  pub doflood3a : (ℕ → F) → ℕ → ℕ → ℤ → ℤ → F → (ℕ → ℕ) → ℕ → ℕ → Shadows × Canvas F
  unfolding flood mark
  doflood3a tmp npx npy x y thres map mapval fuel =
      flood tmp npx npy (λ a. gt a thres) (mark mapval) fuel x y map

  pub doflood : (ℕ → F) → ℕ → ℕ → ℤ → ℤ → F → (ℕ → ℕ) → ℕ → Shadows × Canvas F
  unfolding doflood3r flood_greaterthan
  doflood tmp npx npy x y thres map fuel =
      doflood3r tmp npx npy x y (flood_greaterthan thres) map 1 fuel

  -- `trunc` is the conversion of a float to an int, `of_int` that of an int to a float.
  pub clean : (F → F → F) → (ℕ → F) → (F → ℤ) → (ℕ → F) → ℕ → ℕ → F → F → F → ℕ → (ℕ → F) × ℕ
  unfolding doflood
  clean times of_int trunc g npx npy xcen ycen thres fuel =
      let (w, c) = doflood g npx npy (trunc xcen) (trunc ycen) thres (λ i. 0) fuel in
      (λ i. if ltb i (npx * npy) then times (g i) (of_int (c.map i)) else g i, c.npix)
