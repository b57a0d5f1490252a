-- ===== src/Imc/Images/Formats.antt =====
-- A line of a FITS file or of an IRAF image that `imwl_rto` wrote and `imrl_tor` reads, in
-- demo/spcam/sdfred20100528/mosaic/imc/imc.c.
use pwrake.Prelude.{
  ℕ, zero, suc, ◌*◌, ◌^◌, ◌≤◌, ◌<◌, ◌≡◌, ◌≢◌, refl, sym, ap, ◌∙◌, Bool, true, false, List, [], ◌∷◌,
  Option, some, some-inj, map, arith, length, length-take, take, ◌==◌, Returns, returns,
  Returns-map,
}
use pwrake.Prelude.Int.{ℤ}
use pwrake.Imc.Header.{FitsType, is_dtype, is_zero, imc_fits_get_dtype, imget_u2off}
use pwrake.Imc.Pixels.{Arith, encode, decode, fill, imc_fits_wl, imc_fits_rl, Image}
use pwrake.Imc.Pixels.Lines.{imc_fits_rl-imc_fits_wl}
use pwrake.Imc.Images.{
  Imh, fits, iraf, psiz_of, is_plane, is_written, image, read_iraf, write_iraf, imwl_rto, imrl_tor,
}
use pwrake.Imc.Images.Words.{stored}
use pwrake.Imc.Images.Line.{IsReady, write_iraf-fwrite, own_line, other_lines}

-- How the pixels of an image are stored: as a FITS type, or as an IRAF type with the offset of
-- unsigned shorts.
pub data Format : Type 0 where
  as_fits : FitsType → Format
  as_iraf : ℕ → ℕ → Format

-- The format of an image, of a type that can be written.
abbrev pub HasFormat : Imh → Format → Type 0
HasFormat imhp (as_fits k) =
    (imhp.dtype ≡ fits)
    × (imc_fits_get_dtype imhp.void_2 ≡ some k)
    × (imhp.ndatx ≡ imhp.npx)
    × (is_dtype k.dtype ≡ true)
    × (is_zero k.bscale ≡ false)
HasFormat imhp (as_iraf d pixoff) =
    (imhp.dtype ≡ iraf d)
    × (imget_u2off imhp.void_2 ≡ some pixoff)
    × (is_written d ≡ true)
    × (imhp.ndatx * psiz_of d ≤ 131072)

-- The sizes of an image are in order.
abbrev pub IsSized : Imh → Type 0
IsSized imhp =
    (is_plane imhp.naxis ≡ true)
    × ((imhp.npx == 0) ≡ false)
    × (imhp.npx ≤ imhp.ndatx)
    × (imhp.npy ≤ imhp.ndaty)

module _ {F : Type 0} (o : Arith F) (trunc : F → ℤ) (lt : F → F → Bool) where
  -- A pixel after it was written and read.
  abbrev pub through : Format → F → F
  through (as_fits k) x = decode o k (encode o k x)
  through (as_iraf d pixoff) x = stored o trunc lt d pixoff x

  fill-take :
      (k : FitsType) (n : ℕ) (dp : List F) → n ≤ length dp → fill o k n (take n dp) ≡ fill o k n dp
  unfolding fill
  fill-take k zero dp h = refl
  fill-take k (suc n) [] h = refl
  fill-take k (suc n) (x ∷ dp) h = rw (fill-take k n dp (omega arith)) refl

  imc_fits_wl-take :
      (im : Image) (dp : List F) (iy : ℕ) (file : List ℕ)
      → im.npx ≤ length dp
      → imc_fits_wl o im (take im.npx dp) iy file ≡ imc_fits_wl o im dp iy file
  unfolding imc_fits_wl
  imc_fits_wl-take im dp iy file h = rw (fill-take im.kind im.npx dp h) refl

  imwl_rto-fits :
      (imhp : Imh) (k : FitsType) (dp : List F) (iy : ℕ) (file : List ℕ)
      → imhp.dtype ≡ fits
      → imc_fits_get_dtype imhp.void_2 ≡ some k
      → imwl_rto o trunc lt imhp dp iy file ≡ imc_fits_wl o (image imhp k) dp iy file
  unfolding imwl_rto
  imwl_rto-fits imhp k dp iy file e h = rw (e, h) refl

  imwl_rto-iraf :
      (imhp : Imh) (d : ℕ) (dp : List F) (iy : ℕ) (file : List ℕ)
      → imhp.dtype ≡ iraf d
      → imwl_rto o trunc lt imhp dp iy file ≡ write_iraf o trunc lt d imhp dp iy file
  unfolding imwl_rto
  imwl_rto-iraf imhp d dp iy file e = rw e refl

  module _ (mos mos_all : ℕ → Option (ℕ × List F)) where
    imrl_tor-fits :
        (imhp : Imh) (k : FitsType) (iy : ℕ) (file : List ℕ)
        → imhp.dtype ≡ fits
        → imc_fits_get_dtype imhp.void_2 ≡ some k
        → imrl_tor o trunc lt mos mos_all imhp iy file ≡ some (imc_fits_rl o (image imhp k) iy file)
    unfolding imrl_tor
    imrl_tor-fits imhp k iy file e h = rw (e, h) refl

    imrl_tor-iraf :
        (imhp : Imh) (d iy : ℕ) (file : List ℕ)
        → imhp.dtype ≡ iraf d
        → imrl_tor o trunc lt mos mos_all imhp iy file ≡ read_iraf o trunc lt d imhp iy file
    unfolding imrl_tor
    imrl_tor-iraf imhp d iy file e = rw e refl

    -- What a line that was written leaves for the reads of it and of the other lines.
    abbrev pub IsLeft : Imh → Format → List F → ℕ → List ℕ → (ℕ × List ℕ) → Type 0
    IsLeft imhp format dp iy file r =
        (r.0 ≡ 1)
        × (imrl_tor o trunc lt mos mos_all imhp iy r.1
            ≡ some (1, map (through format) (take imhp.npx dp)))
        × ((jy : ℕ) (xs : List F)
            → jy ≢ iy
            → imrl_tor o trunc lt mos mos_all imhp jy file ≡ some (1, xs)
            → imrl_tor o trunc lt mos mos_all imhp jy r.1 ≡ some (1, xs))

    iraf-line :
        (bits_fit : (x : F) → o.bits x < 2 ^ 32) (imhp : Imh) (d pixoff : ℕ) (dp : List F) (iy : ℕ)
        (file : List ℕ)
        → IsSized imhp
        → HasFormat imhp (as_iraf d pixoff)
        → imhp.npx ≤ length dp
        → Returns (IsLeft imhp (as_iraf d pixoff) dp iy file) (imwl_rto o trunc lt imhp dp iy file)
    iraf-line bits_fit imhp d pixoff dp iy file (plane, wide, px, py) (e, off, known, fit) size =
        let ready : IsReady d imhp = (plane, wide, px, py, known, fit) in
        rw
          (
            imwl_rto-iraf imhp d dp iy file e,
            write_iraf-fwrite o trunc lt d imhp pixoff dp iy file ready off size,
          )
          (returns (
            refl,
            imrl_tor-iraf imhp d iy _ e
                ∙ own_line o trunc lt bits_fit d imhp pixoff dp iy file ready off size,
            λ jy xs ne h.
                imrl_tor-iraf imhp d jy _ e
                ∙ other_lines o trunc lt d imhp pixoff dp iy file ready off size jy xs ne
                    (sym (imrl_tor-iraf imhp d jy file e) ∙ h),
          ))

    fits-line :
        (bits_fit : (x : F) → o.bits x < 2 ^ 32) (imhp : Imh) (k : FitsType) (dp : List F) (iy : ℕ)
        (file : List ℕ)
        → IsSized imhp
        → HasFormat imhp (as_fits k)
        → imhp.npx ≤ length dp
        → Returns (IsLeft imhp (as_fits k) dp iy file) (imwl_rto o trunc lt imhp dp iy file)
    fits-line bits_fit imhp k dp iy file (plane, wide, px, py) (e, h, square, known, scaled) size =
        rw
          (
            imwl_rto-fits imhp k dp iy file e h,
            sym (imc_fits_wl-take (image imhp k) dp iy file size),
          )
          (Returns-map
            (imc_fits_rl-imc_fits_wl o bits_fit (image imhp k) (take imhp.npx dp) iy file refl wide
              square known scaled (length-take imhp.npx dp size))
            (λ r (one, own, others). (
              one,
              imrl_tor-fits imhp k iy r.1 e h ∙ ap some own,
              λ jy xs ne before.
                  imrl_tor-fits imhp k jy r.1 e h
                  ∙ ap some (
                      others jy xs ne (some-inj (sym (imrl_tor-fits imhp k jy file e h) ∙ before))),
            )))

    -- Of an image whose sizes are in order and that has a format, a line that `imwl_rto` wrote from an
    -- array that is long enough is read by `imrl_tor` as its pixels, each stored in the format, and the
    -- other lines that could be read are read as before.
    pub imrl_tor-imwl_rto :
        (bits_fit : (x : F) → o.bits x < 2 ^ 32) (imhp : Imh) (format : Format) (dp : List F)
        (iy : ℕ) (file : List ℕ)
        → IsSized imhp
        → HasFormat imhp format
        → imhp.npx ≤ length dp
        → Returns (IsLeft imhp format dp iy file) (imwl_rto o trunc lt imhp dp iy file)
    imrl_tor-imwl_rto bits_fit imhp (as_fits k) dp iy file sized has size =
        fits-line bits_fit imhp k dp iy file sized has size
    imrl_tor-imwl_rto bits_fit imhp (as_iraf d pixoff) dp iy file sized has size =
        iraf-line bits_fit imhp d pixoff dp iy file sized has size
