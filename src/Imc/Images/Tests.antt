-- ===== src/Imc/Images/Tests.antt =====
-- Images on small inputs.
use pwrake.Prelude.{
  ℕ, zero, suc, ◌+◌, ◌*◌, ◌≤◌, ◌++◌, get_elem?, ◌^◌, ◌<◌, ◌/◌, ◌≡◌, refl, List, [], ◌∷◌, Option,
  none, some, map, arith, replicate, length-replicate, Returns,
}
use pwrake.Prelude.Int.{ℤ, pos, negsuc, ◌+ℤ◌, ◌-ℤ◌, ltb_ℤ, sub_ℕ}
use pwrake.Imc.Images.Typed.{fits_image, stored_type, imrall_tor-imc_fits_set_dtype}
use pwrake.Imc.Header.{FitsType, imc_fits_get_dtype, imc_fits_set_dtype, imget_pixignr, imget_u2off}
use pwrake.Imc.Pixels.{Arith, encode, decode, wrap, signed}
use pwrake.Imc.Pixels.Lines.{wrap-lt}
use pwrake.Imc.Images.{Imh, iraf, to_i4, to_u2, imwall_rto, imrall_tor, imrl_tor}
use pwrake.Imc.Images.Formats.{as_iraf, through}
use pwrake.Imc.Images.Window.{imc_read}
use pwrake.Imc.Images.Window.Seen.{AreLines, IsCell, imc_read-IsCell}
use pwrake.Imc.Images.Whole.{imrall_tor-imwall_rto}

-- Numbers of halves in place of floats.
abbrev truncated : ℤ → ℤ
truncated (pos h) = pos (h / 2)
truncated (negsuc h) = sub_ℕ 0 (suc h / 2)

abbrev halves : Arith ℤ
unfolding ◌+ℤ◌ ◌-ℤ◌
halves = record {
  minus = λ x y. x -ℤ y;
  plus = λ x y. x +ℤ y;
  times = λ x y. x;
  over = λ x y. x;
  half = pos 1;
  floor = λ x. truncated x;
  of_int = λ n. n +ℤ n;
  bits = λ x. wrap 4294967296 x;
  of_bits = λ w. signed 4294967296 w;
}

-- -1.0 is stored as 0, 2.5 as 3, and -3.0 as -2, as an `int`.
to_i4-halves :
    (to_i4 halves truncated ltb_ℤ (negsuc 1) ≡ 0)
    × (to_i4 halves truncated ltb_ℤ (pos 5) ≡ 3)
    × (to_i4 halves truncated ltb_ℤ (negsuc 5) ≡ 4294967294)
unfolding to_i4 ◌+ℤ◌ ◌-ℤ◌
to_i4-halves = (refl, refl, refl)

-- An unsigned short is cut to its range.
to_u2-halves :
    (to_u2 halves truncated ltb_ℤ 0 (negsuc 5) ≡ 0)
    × (to_u2 halves truncated ltb_ℤ 10 (negsuc 5) ≡ 7)
    × (to_u2 halves truncated ltb_ℤ 0 (pos 200000) ≡ 65535)
unfolding to_u2 ◌+ℤ◌ ◌-ℤ◌
to_u2-halves = (refl, refl, refl)

abbrev no_fields : List ℕ
no_fields = replicate 1000 0

-- Unsigned shorts, two by two, with three in a line of the file.
abbrev shorts : Imh
shorts = record {
  dtype = iraf 11;
  naxis = 2;
  npx = 2;
  npy = 2;
  ndatx = 3;
  ndaty = 2;
  void_2 = no_fields;
}

no_fields_u2off : imget_u2off no_fields ≡ some 0
unfolding imget_u2off
no_fields_u2off = refl

abbrev no_mosaic : ℕ → Option (ℕ × List ℤ)
no_mosaic iy = none

bits_fit : (x : ℤ) → halves.bits x < 2 ^ 32
unfolding halves
bits_fit x = wrap-lt 4294967296 x (omega arith)

abbrev pixels : List ℤ
pixels = pos 2 ∷ pos 14 ∷ pos 6 ∷ pos 0 ∷ []

imrall_tor-imwall_rto_example :
    Returns
      (λ r.
        (r.0 ≡ 1)
        × (imrall_tor halves truncated ltb_ℤ no_mosaic no_mosaic shorts 4 r.1
            ≡ some (1, map (through halves truncated ltb_ℤ (as_iraf 11 0)) pixels)))
      (imwall_rto halves truncated ltb_ℤ shorts pixels [])
imrall_tor-imwall_rto_example =
    imrall_tor-imwall_rto halves truncated ltb_ℤ no_mosaic no_mosaic bits_fit shorts (as_iraf 11 0)
      pixels 4 [] (refl, refl, omega arith, omega arith) (refl, no_fields_u2off, refl, omega arith)
      (omega arith) (omega arith)

-- The lines 1, 7 and 3, 0, behind the head of the file.
abbrev four : List ℕ
four = replicate 1024 0 ++ (1 ∷ 0 ∷ 7 ∷ 0 ∷ 0 ∷ 0 ∷ 3 ∷ 0 ∷ 0 ∷ 0 ∷ [])

abbrev four_lines : ℕ → List ℤ
four_lines zero = pos 2 ∷ pos 14 ∷ []
four_lines (suc y) = pos 6 ∷ pos 0 ∷ []

four-AreLines : AreLines halves truncated ltb_ℤ no_mosaic no_mosaic shorts four four_lines
unfolding imrl_tor halves ◌+ℤ◌
four-AreLines zero h = (refl, refl)
four-AreLines (suc zero) h = (refl, refl)
four-AreLines (suc (suc y)) h = absurd (omega arith)

-- Nothing to ignore is set, and a column and a row lie before the image.
no_fields_pixignr : imget_pixignr no_fields ≡ some 2147483648
unfolding imget_pixignr
no_fields_pixignr = refl

imc_read-IsCell_example :
    Returns
      (λ t.
        (c r : ℕ)
        → c ≤ 2
        → r ≤ 1
        → IsCell halves truncated ltb_ℤ no_mosaic no_mosaic shorts four four_lines
            (halves.of_int (signed 4294967296 2147483648))
            (negsuc 0 +ℤ pos c)
            (negsuc 0 +ℤ pos r)
            (get_elem? t (r * 3 + c)))
      (imc_read halves truncated ltb_ℤ no_mosaic no_mosaic shorts four
        (λ vx1 vx2 vy1 vy2. none)
        (negsuc 0)
        (negsuc 0 +ℤ pos 2)
        (negsuc 0)
        (negsuc 0 +ℤ pos 1)
        (pos 0 ∷ pos 0 ∷ []))
imc_read-IsCell_example =
    imc_read-IsCell halves truncated ltb_ℤ no_mosaic no_mosaic shorts four four_lines
      (λ vx1 vx2 vy1 vy2. none) (negsuc 0) (negsuc 0) 2 1 2147483648 (pos 0 ∷ pos 0 ∷ [])
      four-AreLines (λ e. ground arith) no_fields_pixignr (omega arith) refl

-- A header without a type.
abbrev no_type : FitsType
no_type = record { dtype = 0; bzero = 0; bscale = 0; pixoff = 0 }

no_fields_type : imc_fits_get_dtype no_fields ≡ some no_type
unfolding imc_fits_get_dtype
no_fields_type = refl

-- FITSSHORT with the words of 32768.0 and 1.0, two by two.
imrall_tor-imc_fits_set_dtype_example :
    Returns
      (λ v.
        (v.0 ≡ 1)
        × Returns
            (λ r.
              (r.0 ≡ 1)
              × (imrall_tor halves truncated ltb_ℤ no_mosaic no_mosaic (fits_image 2 2 v.1) 4 r.1
                  ≡ some (
                    1,
                    map
                        (λ x.
                          decode halves
                            (stored_type 16 1191182336 1065353216 no_type)
                            (encode halves (stored_type 16 1191182336 1065353216 no_type) x))
                        pixels,
                  )))
            (imwall_rto halves truncated ltb_ℤ (fits_image 2 2 v.1) pixels []))
      (imc_fits_set_dtype 16 1191182336 1065353216 no_fields)
imrall_tor-imc_fits_set_dtype_example =
    imrall_tor-imc_fits_set_dtype halves truncated ltb_ℤ no_mosaic no_mosaic bits_fit no_fields 16
      1191182336 1065353216 no_type 2 2 4 pixels [] (length-replicate {A = ℕ} 1000 0) refl refl
      (omega arith) (omega arith) no_fields_type refl (omega arith) (omega arith)
