-- ===== src/Imc/Images.antt =====
-- The lines of pixels of an image of any type: `imrl_tor`, `imwl_rto`, `imrall_tor` and `imwall_rto` of
-- demo/spcam/sdfred20100528/mosaic/imc/imc.c, on a machine that stores the lowest byte first. The routines for
-- mosaics of imc_mos_large.c are parameters.
use pwrake.Prelude.{
  ℕ, zero, suc, ◌+◌, ◌*◌, Bool, true, false, ◌&&◌, ◌||◌, not, List, [], ◌∷◌, ◌++◌, Option, none,
  some, get_elem?, drop, ltb, ◌==◌, if◌then◌else◌, ◌>>=◌,
}
use pwrake.Prelude.Int.{ℤ, pos, ◌-ℤ◌}
use pwrake.Imc.Header.{FitsType, imc_fits_get_dtype, imget_u2off}
use pwrake.Imc.Pixels.{
  Image, Arith, wrap, signed, pixel_bytes, pixel_words, fwrite, fread, imc_fits_wl, imc_fits_rl,
}
pub mod Words
pub mod Line
pub mod Formats
pub mod Whole
pub mod Typed
pub mod Window
mod Tests

-- `dtype` of `struct imh`: DTYPEMOS, DTYPFITS and a number of an IRAF type.
pub data Dtype : Type 0 where
  mosaic : Dtype
  fits : Dtype
  iraf : ℕ → Dtype

-- What the routines read of `struct imh`.
pub record Imh : Type 0 where
  pub dtype : Dtype
  pub naxis : ℕ
  pub npx : ℕ
  pub npy : ℕ
  pub ndatx : ℕ
  pub ndaty : ℕ
  pub void_2 : List ℕ

-- The bytes of a pixel; a type behind the table is one that is not supported.
abbrev pub psiz : List ℕ
psiz = 0 ∷ 0 ∷ 0 ∷ 2 ∷ 4 ∷ 4 ∷ 4 ∷ 0 ∷ 0 ∷ 0 ∷ 0 ∷ 2 ∷ []

abbrev pub psiz_of : ℕ → ℕ
psiz_of d = elim (get_elem? psiz d) [ none ↦ 0 | some n ↦ n ]

-- The width of a pixel in bits.
abbrev pub width : ℕ → ℕ
width d = if psiz_of d == 2 then 16 else 32

-- `naxis` is 1 or 2.
abbrev pub is_plane : ℕ → Bool
is_plane naxis = naxis == 2 || naxis == 1

-- The bytes of a line of one type start behind PIXOFF.
abbrev pub place : ℕ → Imh → ℕ → ℕ
place d imhp iy = 1024 + iy * psiz_of d * imhp.ndatx

-- What `imc_fits_rl` and `imc_fits_wl` read of the header.
abbrev pub image : Imh → FitsType → Image
image imhp k = record { is_fits = true; npx = imhp.npx; ndatx = imhp.ndatx; kind = k }

-- The types that are written: DTYPI4, DTYPR4 and DTYPU2.
abbrev pub is_written : ℕ → Bool
is_written d = d == 5 || d == 6 || d == 11

module _ {F : Type 0} (o : Arith F) (trunc : F → ℤ) (lt : F → F → Bool) where
  -- DTYPI4: the number is cut to the range of an `int`.
  unfoldable pub to_i4 : F → ℕ
  to_i4 x =
      let fdat = o.plus x o.half in
      if lt (o.of_int (pos 2147483647)) fdat
      then 2147483647
      else if lt fdat (o.of_int (pos 0 -ℤ pos 2147483648))
      then 2147483648
      else wrap 4294967296 (trunc fdat)

  -- DTYPU2.
  unfoldable pub to_u2 : ℕ → F → ℕ
  to_u2 pixoff x =
      let fdat = o.plus (o.plus x o.half) (o.of_int (pos pixoff)) in
      if lt (o.of_int (pos 65535)) fdat
      then 65535
      else if lt fdat (o.of_int (pos 0))
      then 0
      else wrap 65536 (trunc fdat)

  -- The word of a pixel in the buffer, of a type that is written.
  unfoldable pub put_word : ℕ → ℕ → F → ℕ
  unfolding to_i4 to_u2
  put_word d pixoff x = if d == 5 then to_i4 x else if d == 6 then o.bits x else to_u2 pixoff x

  -- DTYPU2 with its offset, DTYPR4, DTYPI2, and DTYPINT and DTYPI4.
  unfoldable pub get_word : ℕ → ℕ → ℕ → F
  unfolding ◌-ℤ◌
  get_word d pixoff w =
      if d == 11
      then if pixoff == 0 then o.of_int (pos w) else o.of_int (pos w -ℤ pos pixoff)
      else if d == 6
      then o.of_bits w
      else if d == 3
      then o.of_int (signed 65536 w)
      else o.of_int (signed 4294967296 w)

  -- The buffer of a line of `n` pixels; an array of fewer is a fault.
  unfoldable pub put_words : ℕ → ℕ → ℕ → List F → Option (List ℕ)
  unfolding put_word pixel_bytes
  put_words d pixoff zero dp = some []
  put_words d pixoff (suc n) [] = none
  put_words d pixoff (suc n) (x ∷ dp) = do
    rest ← put_words d pixoff n dp
    some (pixel_bytes (width d) (put_word d pixoff x) ++ rest)

  unfoldable pub get_words : ℕ → ℕ → List ℕ → List F
  unfolding get_word
  get_words d pixoff [] = []
  get_words d pixoff (w ∷ ws) = get_word d pixoff w ∷ get_words d pixoff ws

  -- `imrl_tor` behind the tests for mosaics and FITS. `fread` of an item of 0 bytes fails.
  unfoldable pub read_iraf : ℕ → Imh → ℕ → List ℕ → Option (ℕ × List F)
  unfolding imget_u2off fread pixel_words get_words
  read_iraf d imhp iy file =
      let read : ℕ → ℕ × List F = λ pixoff.
        elim (fread (place d imhp iy) (imhp.npx * psiz_of d) file) [
          | none ↦ (0, [])
          | some buff ↦ (1, get_words d pixoff (pixel_words (width d) buff))
        ] in
      let sized = (do
        pixoff ← imget_u2off imhp.void_2
        some (if imhp.npx == 0 then (0, []) else read pixoff)) in
      if not (is_plane imhp.naxis)
      then some (0, [])
      else if ltb imhp.ndatx imhp.npx || ltb imhp.ndaty imhp.npy
      then some (0, [])
      else if psiz_of d == 0 || ltb 131072 (imhp.ndatx * psiz_of d)
      then some (0, [])
      else sized

  -- `imwl_rto` behind the test for FITS.
  unfoldable pub write_iraf : ℕ → Imh → List F → ℕ → List ℕ → Option (ℕ × List ℕ)
  unfolding imget_u2off put_words fwrite
  write_iraf d imhp dp iy file =
      let written = (do
        pixoff ← imget_u2off imhp.void_2
        buff ← put_words d pixoff imhp.npx dp
        some (if imhp.npx == 0 then (0, file) else (1, fwrite (place d imhp iy) buff file))) in
      if ltb imhp.ndatx imhp.npx || ltb imhp.ndaty imhp.npy
      then some (0, file)
      else if psiz_of d == 0 || ltb 131072 (imhp.npx * psiz_of d)
      then some (0, file)
      else if is_written d
      then written
      else some (0, file)

  -- The return value and the file. The size of a pixel of a mosaic would be read before its table.
  unfoldable pub imwl_rto : Imh → List F → ℕ → List ℕ → Option (ℕ × List ℕ)
  unfolding write_iraf imc_fits_wl imc_fits_get_dtype
  imwl_rto imhp dp iy file = elim imhp.dtype [
    | mosaic ↦ if ltb imhp.ndatx imhp.npx || ltb imhp.ndaty imhp.npy then some (0, file) else none
    | fits ↦ do k ← imc_fits_get_dtype imhp.void_2; imc_fits_wl o (image imhp k) dp iy file
    | iraf d ↦ write_iraf d imhp dp iy file
  ]

  -- `for( iy=0; iy<ydim; iy++ )`, with the rounds left.
  unfoldable pub write_lines : Imh → List F → ℕ → ℕ → List ℕ → Option (ℕ × List ℕ)
  unfolding imwl_rto
  write_lines imhp pix zero iy file = some (1, file)
  write_lines imhp pix (suc left) iy file = do
    r ← imwl_rto imhp (drop (iy * imhp.npx) pix) iy file
    let rest = write_lines imhp pix left (suc iy) r.1
    if r.0 == 0 then some (0, r.1) else rest

  unfoldable pub imwall_rto : Imh → List F → List ℕ → Option (ℕ × List ℕ)
  unfolding write_lines
  imwall_rto imhp pix file =
      if ltb 2 imhp.naxis
      then some (0, file)
      else if ltb imhp.ndatx imhp.npx || ltb imhp.ndaty imhp.npy
      then some (0, file)
      else write_lines imhp pix imhp.npy 0 file

  module _ (imrl_tor_mos : ℕ → Option (ℕ × List F)) (imrall_tor_mos : ℕ → Option (ℕ × List F)) where
    -- The return value and, for 1, the pixels.
    unfoldable pub imrl_tor : Imh → ℕ → List ℕ → Option (ℕ × List F)
    unfolding read_iraf imc_fits_rl imc_fits_get_dtype
    imrl_tor imhp iy file = elim imhp.dtype [
      | mosaic ↦ imrl_tor_mos iy
      | fits ↦ do k ← imc_fits_get_dtype imhp.void_2; some (imc_fits_rl o (image imhp k) iy file)
      | iraf d ↦ read_iraf d imhp iy file
    ]

    -- The lines without gaps between them.
    unfoldable pub read_lines : Imh → ℕ → ℕ → List ℕ → Option (ℕ × List F)
    unfolding imrl_tor
    read_lines imhp zero iy file = some (1, [])
    read_lines imhp (suc left) iy file =
        let rest = read_lines imhp left (suc iy) file in
        do
          r ← imrl_tor imhp iy file
          let more = (do rs ← rest; some (rs.0, r.1 ++ rs.1))
          if r.0 == 0 then some (0, []) else more

    unfoldable pub imrall_tor : Imh → ℕ → List ℕ → Option (ℕ × List F)
    unfolding read_lines
    imrall_tor imhp pdim file =
        let flat =
          (if not (is_plane imhp.naxis)
            then some (0, [])
            else if ltb pdim (imhp.npy * imhp.npx)
            then some (0, [])
            else if ltb imhp.ndatx imhp.npx || ltb imhp.ndaty imhp.npy
            then some (0, [])
            else read_lines imhp imhp.npy 0 file) in
        elim imhp.dtype [ mosaic ↦ imrall_tor_mos pdim | fits ↦ flat | iraf d ↦ flat ]
