-- ===== src/Region.antt =====
-- A rectangle of an image: `imextra` of demo/spcam/sdfred20100528/mosaic/starsel/imopr.c. The sizes of the
-- image are natural numbers, and the corners of the rectangle are any integers.
use pwrake.Prelude.{
  ℕ, zero, suc, ◌+◌, ◌-◌, ◌*◌, Bool, ◌||◌, List, ◌++◌, Option, none, some, length, get_elem?, write,
  replicate, drop, leb, ◌==◌, if◌then◌else◌, ◌>>=◌,
}
use pwrake.Prelude.Int.{ℤ, pos, negsuc, pos_part, neg_part, ◌+ℤ◌, ◌-ℤ◌, leb_ℤ, scale}
pub mod Copied
pub mod Axes
pub mod Shown
pub mod Tests

-- `memcpy` of `n` entries, and `memset` of the first `n` to 0.
unfoldable pub memcpy : {F : Type 0} → ℕ → List F → ℕ → List F → ℕ → Option (List F)
memcpy zero tmp at pix from = some tmp
memcpy (suc n) tmp at pix from = do
  x ← get_elem? pix from
  t ← write tmp at x
  memcpy n t (suc at) pix (suc from)

abbrev pub memset : {F : Type 0} → F → ℕ → List F → Option (List F)
memset blank n tmp = if leb n (length tmp) then some (replicate n blank ++ drop n tmp) else none

-- `for (j = 0; j <= iy1-iy0; j++)`, from `j` on with the given number of rounds; `left` and `top` are
-- `ix0-x0` and `iy0-y0`.
unfoldable pub copy_rows :
    {F : Type 0} → (dx npx left top ix0 iy0 width : ℕ) → List F → ℕ → ℕ → List F → Option (List F)
unfolding memcpy
copy_rows dx npx left top ix0 iy0 width pix zero j tmp = some tmp
copy_rows dx npx left top ix0 iy0 width pix (suc rounds) j tmp = do
  t ← memcpy width tmp ((top + j) * dx + left) pix (ix0 + (iy0 + j) * npx)
  copy_rows dx npx left top ix0 iy0 width pix rounds (suc j) t

-- `if (x1>=npx) ix1=npx-1; else ix1=x1;` less `ix0`, and one more, where `ix0` is `x0` or else 0.
abbrev pub extent : ℕ → ℤ → ℤ → ℤ
extent npx x0 x1 =
    let ix1 : ℤ = if leb_ℤ (pos npx) x1 then pos (npx - 1) else x1 in
    ix1 -ℤ pos (pos_part x0) +ℤ pos 1

-- The return value and `tmp`.
unfoldable pub imextra :
    {F : Type 0} → F → List F → ℕ → ℕ → ℤ → ℤ → ℤ → ℤ → List F → Option (ℤ × List F)
unfolding copy_rows
imextra blank pix npx npy x0 y0 x1 y1 tmp =
    let dx : ℤ = x1 -ℤ x0 +ℤ pos 1 in
    let dy : ℤ = y1 -ℤ y0 +ℤ pos 1 in
    let width = extent npx x0 x1 in
    let height = extent npy y0 y1 in
    let wrong : Bool = npx == 0 || npy == 0 || leb_ℤ dx (pos 0) || leb_ℤ dy (pos 0) in
    if wrong then some (negsuc 0, tmp) else (do
      t ← memset blank (pos_part dy * pos_part dx) tmp
      if leb_ℤ width (pos 0) then some (negsuc 0, t) else (do
        t' ←
            copy_rows (pos_part dx) npx (neg_part x0) (neg_part y0) (pos_part x0) (pos_part y0)
              (pos_part width) pix (pos_part height) 0 t
        some (scale (pos_part width) height, t')))
