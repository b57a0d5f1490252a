-- ===== src/Imc/Images/Typed.antt =====
-- The pixels of a FITS file whose type `imc_fits_set_dtype` stored, in imc_fits.c and imc.c of
-- demo/spcam/sdfred20100528/mosaic/imc.
use pwrake.Prelude.{
  ℕ, ◌*◌, ◌^◌, ◌≤◌, ◌<◌, ◌≡◌, refl, Bool, true, false, List, Option, some, map, take, arith, length,
  ◌==◌, Returns, Returns-map,
}
use pwrake.Prelude.Int.{ℤ}
use pwrake.Imc.Header.{FitsType, is_dtype, is_zero, imc_fits_set_dtype, imc_fits_get_dtype}
use pwrake.Imc.Header.Kept.{imc_fits_get_dtype-imc_fits_set_dtype}
use pwrake.Imc.Pixels.{Arith, encode, decode}
use pwrake.Imc.Images.{Imh, fits, imwall_rto, imrall_tor}
use pwrake.Imc.Images.Formats.{as_fits}
use pwrake.Imc.Images.Whole.{imrall_tor-imwall_rto}

-- A FITS image of two axes without gaps in its file.
abbrev pub fits_image : ℕ → ℕ → List ℕ → Imh
fits_image npx npy void_2 = record {
  dtype = fits;
  naxis = 2;
  npx = npx;
  npy = npy;
  ndatx = npx;
  ndaty = npy;
  void_2 = void_2;
}

-- The type that is stored, with the place of the pixels that the header had.
abbrev pub stored_type : ℕ → ℕ → ℕ → FitsType → FitsType
stored_type dtype bzero bscale old = record {
  dtype = dtype;
  bzero = bzero;
  bscale = bscale;
  pixoff = old.pixoff;
}

module _ {F : Type 0} (o : Arith F) (trunc : F → ℤ) (lt : F → F → Bool)
    (mos mos_all : ℕ → Option (ℕ × List F)) (bits_fit : (x : F) → o.bits x < 2 ^ 32) where
  -- After `imc_fits_set_dtype` of a known type with a scale that is not 0 the image of that header is
  -- written by `imwall_rto`, and `imrall_tor` reads the array's first `npx * npy` entries, each encoded and
  -- decoded by the stored type with the place of the pixels that the header had.
  pub imrall_tor-imc_fits_set_dtype :
      (void_2 : List ℕ) (dtype bzero bscale : ℕ) (old : FitsType) (npx npy pdim : ℕ) (pix : List F)
      (file : List ℕ)
      → length void_2 ≡ 1000
      → is_dtype dtype ≡ true
      → is_zero bscale ≡ false
      → bzero < 2 ^ 32
      → bscale < 2 ^ 32
      → imc_fits_get_dtype void_2 ≡ some old
      → (npx == 0) ≡ false
      → npy * npx ≤ pdim
      → npy * npx ≤ length pix
      → Returns
          (λ v.
            (v.0 ≡ 1)
            × Returns
                (λ r.
                  (r.0 ≡ 1)
                  × (imrall_tor o trunc lt mos mos_all (fits_image npx npy v.1) pdim r.1
                      ≡ some (
                        1,
                        map
                            (λ x.
                              decode o
                                (stored_type dtype bzero bscale old)
                                (encode o (stored_type dtype bzero bscale old) x))
                            (take (npy * npx) pix),
                      )))
                (imwall_rto o trunc lt (fits_image npx npy v.1) pix file))
          (imc_fits_set_dtype dtype bzero bscale void_2)
  imrall_tor-imc_fits_set_dtype void_2 dtype bzero bscale old npx npy pdim pix file size known
        scaled wz ws was wide room source =
      Returns-map
        (imc_fits_get_dtype-imc_fits_set_dtype void_2 dtype bzero bscale old size known scaled wz ws
          was)
        (λ v (one, got, _, _). (
          one,
          imrall_tor-imwall_rto o trunc lt mos mos_all bits_fit (fits_image npx npy v.1)
              (as_fits (stored_type dtype bzero bscale old)) pix pdim file
              (refl, wide, omega arith, omega arith) (refl, got, refl, known, scaled) room source,
        ))
