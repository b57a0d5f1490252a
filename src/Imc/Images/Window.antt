-- ===== src/Imc/Images/Window.antt =====
-- A rectangle of an image file: `imc_read` of demo/spcam/sdfred20100528/mosaic/imc/imc.c. `imc_mos_read` is a
-- parameter, and a rectangle without a column or a row is left aside, as a fault.
use pwrake.Prelude.{
  ℕ, zero, suc, ◌-◌, Bool, ◌||◌, List, [], ◌++◌, ◌∷◌, Option, none, some, get_elem?, replicate, ltb,
  leb, ◌==◌, if◌then◌else◌, ◌>>=◌,
}
use pwrake.Prelude.Int.{ℤ, pos, negsuc, pos_part, ◌+ℤ◌, ◌-ℤ◌, ltb_ℤ, leb_ℤ}
use pwrake.Imc.Header.{imget_pixignr}
use pwrake.Imc.Pixels.{Arith, signed}
use pwrake.Imc.Images.{Imh, mosaic, fits, iraf, imrl_tor}
pub mod Row
pub mod Seen

-- `memcpy` of `n` entries from `from` on.
unfoldable pub slice : {F : Type 0} → ℕ → ℕ → List F → Option (List F)
slice from zero line = some []
slice from (suc n) line = do x ← get_elem? line from; xs ← slice (suc from) n line; some (x ∷ xs)

-- A row of the buffer, of `npx2` columns from `vx1` on, out of `line`, which is followed by `lignr`. A
-- rectangle that ends two columns or more before the image copies a negative number of entries.
unfoldable pub cut_row : {F : Type 0} → F → ℕ → ℤ → ℕ → List F → Option (List F)
unfolding slice
cut_row pixignr npx (negsuc v) npx2 line =
    let wide = line ++ replicate npx2 pixignr in
    let row = (do
      before ← slice npx (suc v) wide
      behind ← slice 0 (npx2 - suc v) wide
      some (before ++ behind)) in
    if ltb npx2 (suc v) then none else row
cut_row pixignr npx (pos v) npx2 line = slice v npx2 (line ++ replicate npx2 pixignr)

module _ {F : Type 0} (o : Arith F) (trunc : F → ℤ) (lt : F → F → Bool)
    (imrl_tor_mos imrall_tor_mos : ℕ → Option (ℕ × List F)) (imhp : Imh) (file : List ℕ) where
  -- A row, and what `line` then holds: a line that cannot be read leaves it.
  unfoldable pub window_row : F → ℤ → ℕ → ℤ → List F → Option (List F × List F)
  unfolding imrl_tor cut_row
  window_row pixignr vx1 npx2 y line =
      let beside : Bool = ltb_ℤ y (pos 0) || leb_ℤ (pos imhp.npy) y || leb_ℤ (pos imhp.npx) vx1 in
      let shown = (do
        r ← imrl_tor o trunc lt imrl_tor_mos imrall_tor_mos imhp (pos_part y) file
        let held = if r.0 == 0 then line else r.1
        row ← cut_row pixignr imhp.npx vx1 npx2 held
        some (row, held)) in
      if beside then some (replicate npx2 pixignr, line) else shown

  -- `for(iy=0;iy<npy2;iy++)`, with the rounds left and `iy+vy1`.
  unfoldable pub window_rows : F → ℤ → ℕ → ℕ → ℤ → List F → Option (List F)
  unfolding window_row ◌+ℤ◌
  window_rows pixignr vx1 npx2 zero y line = some []
  window_rows pixignr vx1 npx2 (suc left) y line = do
    r ← window_row pixignr vx1 npx2 y line
    rest ← window_rows pixignr vx1 npx2 left (y +ℤ pos 1) r.1
    some (r.0 ++ rest)

  -- `imc_read` behind the test for mosaics. `line` is what `malloc` gives.
  unfoldable pub read_window : ℤ → ℤ → ℤ → ℤ → List F → Option (List F)
  unfolding imget_pixignr window_rows ◌+ℤ◌ ◌-ℤ◌
  read_window vx1 vx2 vy1 vy2 line =
      let npx2 : ℤ = vx2 -ℤ vx1 +ℤ pos 1 in
      let npy2 : ℤ = vy2 -ℤ vy1 +ℤ pos 1 in
      let flat = (do
        w ← imget_pixignr imhp.void_2
        window_rows (o.of_int (signed 4294967296 w)) vx1 (pos_part npx2) (pos_part npy2) vy1
            line) in
      if leb_ℤ npx2 (pos 0) || leb_ℤ npy2 (pos 0) then none else flat

  unfoldable pub imc_read :
      (ℤ → ℤ → ℤ → ℤ → Option (List F)) → ℤ → ℤ → ℤ → ℤ → List F → Option (List F)
  unfolding read_window
  imc_read imc_mos_read vx1 vx2 vy1 vy2 line = elim imhp.dtype [
    | mosaic ↦ imc_mos_read vx1 vx2 vy1 vy2
    | fits ↦ read_window vx1 vx2 vy1 vy2 line
    | iraf d ↦ read_window vx1 vx2 vy1 vy2 line
  ]
