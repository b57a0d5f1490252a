-- ===== src/Imc/Pixels/Lines.antt =====
-- `imc_fits_rl` reads what `imc_fits_wl` wrote, in demo/spcam/sdfred20100528/mosaic/imc/imc_fits.c.
use native.Mathlib.Nat.{mod-lt}
use pwrake.Prelude.{
  ℕ, zero, suc, ◌+◌, ◌*◌, ◌^◌, ◌<◌, ◌≡◌, ◌≢◌, refl, sym, ap, ◌∙◌, inl, inr, true, false, Bool-cases,
  ==→≡, List, [], ◌∷◌, Option, none, some, map, length-map, arith, length, ◌==◌, some-inj, Returns,
  returns, Option-cases,
}
use pwrake.Prelude.Int.{ℤ, pos, negsuc}
use pwrake.Imc.Header.{is_dtype, is_zero, FitsType}
use pwrake.Imc.Pixels.{
  Image, Arith, nbyte, wrap, range_of, pixel_words, swapped, fwrite, fread, encode, decode, fill,
  decode_all, imc_fits_wl, imc_fits_rl,
}
use pwrake.Imc.Pixels.Swapped.{
  all_bytes, AreWords, swapped-swapped, length-swapped, length-all_bytes, pixel_words-all_bytes,
}
use pwrake.Imc.Pixels.Filed.{line-IsBeside, fwrite-IsWritten, fread-cong}

pub wrap-lt : (range : ℕ) (v : ℤ) → 0 < range → wrap range v < range
wrap-lt range (pos v) h = mod-lt v h
wrap-lt range (negsuc v) h = omega arith

module _ {F : Type 0} (o : Arith F) (bits_fit : (x : F) → o.bits x < 2 ^ 32) where
  range_of-pos : (dtype : ℕ) → 0 < range_of dtype
  range_of-pos dtype = elim (Bool-cases (dtype == 8)) [
    | inl e ↦ rw e (omega arith)
    | inr e ↦ elim (Bool-cases (dtype == 16)) [
      | inl e' ↦ rw (e, e') (omega arith)
      | inr e' ↦ rw (e, e') (omega arith)
    ]
  ]

  encode-lt : (k : FitsType) (x : F) → encode o k x < range_of k.dtype
  unfolding encode
  encode-lt k x = elim (Bool-cases (k.dtype == 4294967264)) [
    | inl e ↦
        let real : k.dtype ≡ 4294967264 = ==→≡ k.dtype 4294967264 e in
        let bound : range_of k.dtype ≡ 4294967296 = rw real refl in
        rw (encode, e, bound) (omega (arith, bits_fit _))
    | inr e ↦ rw (encode, e) (wrap-lt (range_of k.dtype) _ (range_of-pos k.dtype))
  ]

  encoded : FitsType → List F → List ℕ
  encoded k dp = map (λ x. encode o k x) dp

  encoded-AreWords : (k : FitsType) (dp : List F) → AreWords k.dtype (encoded k dp)
  unfolding encoded
  encoded-AreWords k [] i w h = ground arith
  encoded-AreWords k (x ∷ dp) zero w h =
      let same : encode o k x ≡ w = some-inj h in rw same at (encode-lt k x)
  encoded-AreWords k (x ∷ dp) (suc i) w h = encoded-AreWords k dp i w h

  fill-ok :
      (k : FitsType) (dp : List F)
      → fill o k (length dp) dp ≡ some (all_bytes k.dtype (encoded k dp))
  unfolding fill all_bytes encoded
  fill-ok k [] = refl
  fill-ok k (x ∷ dp) = rw (fill-ok k dp) refl

  decode_all-encoded :
      (k : FitsType) (dp : List F)
      → decode_all o k (encoded k dp) ≡ map (λ x. decode o k (encode o k x)) dp
  unfolding decode_all encoded
  decode_all-encoded k [] = refl
  decode_all-encoded k (x ∷ dp) = ap (◌∷◌ (decode o k (encode o k x))) (decode_all-encoded k dp)

  -- The bytes that `imc_fits_rl` reads, and the pixels that it makes of them.
  line_bytes : Image → ℕ → List ℕ → Option (List ℕ)
  line_bytes im iy file =
      let k = im.kind in
      fread (k.pixoff + iy * nbyte k.dtype * im.ndatx) (im.npx * nbyte k.dtype) file

  pixels : FitsType → List ℕ → List F
  pixels k buff = decode_all o k (pixel_words k.dtype (swapped k.dtype buff))

  -- What both routines ask of an image.
  abbrev IsUsable : Image → Type 0
  IsUsable im = (im.is_fits ≡ true) × ((im.npx == 0) ≡ false) × (is_dtype im.kind.dtype ≡ true)

  imc_fits_rl-some :
      (im : Image) (iy : ℕ) (file buff : List ℕ)
      → IsUsable im
      → line_bytes im iy file ≡ some buff
      → imc_fits_rl o im iy file ≡ (1, pixels im.kind buff)
  unfolding imc_fits_rl line_bytes pixels
  imc_fits_rl-some im iy file buff (fits, some_pixel, known) h =
      rw (fits, some_pixel, known, h) refl

  imc_fits_rl-none :
      (im : Image) (iy : ℕ) (file : List ℕ)
      → IsUsable im
      → line_bytes im iy file ≡ none
      → imc_fits_rl o im iy file ≡ (0, [])
  unfolding imc_fits_rl line_bytes
  imc_fits_rl-none im iy file (fits, some_pixel, known) h = rw (fits, some_pixel, known, h) refl

  -- The file that `imc_fits_wl` leaves.
  after_wl : Image → List F → ℕ → List ℕ → List ℕ
  after_wl im dp iy file =
      fwrite (im.kind.pixoff + iy * nbyte im.kind.dtype * im.npx)
        (swapped im.kind.dtype (all_bytes im.kind.dtype (encoded im.kind dp))) file

  imc_fits_wl-fwrite :
      (im : Image) (dp : List F) (iy : ℕ) (file : List ℕ)
      → IsUsable im
      → is_zero im.kind.bscale ≡ false
      → length dp ≡ im.npx
      → imc_fits_wl o im dp iy file ≡ some (1, after_wl im dp iy file)
  unfolding imc_fits_wl after_wl
  imc_fits_wl-fwrite im dp iy file (fits, some_pixel, known) scaled size =
      let filled : fill o im.kind im.npx dp ≡ some (all_bytes im.kind.dtype (encoded im.kind dp)) =
        rw size at (fill-ok im.kind dp) in
      rw (fits, some_pixel, known, scaled, filled) refl

  length-line :
      (im : Image) (dp : List F)
      → length dp ≡ im.npx
      → length (swapped im.kind.dtype (all_bytes im.kind.dtype (encoded im.kind dp)))
        ≡ im.npx * nbyte im.kind.dtype
  unfolding encoded
  length-line im dp size =
      length-swapped im.kind.dtype (all_bytes im.kind.dtype (encoded im.kind dp))
      ∙ length-all_bytes im.kind.dtype (encoded im.kind dp)
      ∙ ap (λ n. n * nbyte im.kind.dtype) (length-map (λ x. encode o im.kind x) dp ∙ size)

  pixels-line :
      (k : FitsType) (dp : List F)
      → pixels k (swapped k.dtype (all_bytes k.dtype (encoded k dp)))
        ≡ map (λ x. decode o k (encode o k x)) dp
  unfolding pixels
  pixels-line k dp =
      ap (λ b. decode_all o k (pixel_words k.dtype b))
        (swapped-swapped k.dtype (all_bytes k.dtype (encoded k dp)))
      ∙ ap (decode_all o k) (pixel_words-all_bytes k.dtype (encoded k dp) (encoded-AreWords k dp))
      ∙ decode_all-encoded k dp

  own_line :
      (im : Image) (dp : List F) (iy : ℕ) (file : List ℕ)
      → IsUsable im
      → im.ndatx ≡ im.npx
      → length dp ≡ im.npx
      → imc_fits_rl o im iy (after_wl im dp iy file)
        ≡ (1, map (λ x. decode o im.kind (encode o im.kind x)) dp)
  unfolding after_wl line_bytes
  own_line im dp iy file usable square size =
      let bs : List ℕ = swapped im.kind.dtype (all_bytes im.kind.dtype (encoded im.kind dp)) in
      let start : ℕ = im.kind.pixoff + iy * nbyte im.kind.dtype * im.npx in
      let read = (fwrite-IsWritten start bs file).0 in
      let there : line_bytes im iy (after_wl im dp iy file) ≡ some bs =
        rw (square, sym (length-line im dp size)) read in
      imc_fits_rl-some im iy (after_wl im dp iy file) bs usable there
      ∙ ap (λ xs. (1, xs)) (pixels-line im.kind dp)

  other_bytes :
      (im : Image) (dp : List F) (iy jy : ℕ) (file buff : List ℕ)
      → im.ndatx ≡ im.npx
      → length dp ≡ im.npx
      → jy ≢ iy
      → line_bytes im jy file ≡ some buff
      → line_bytes im jy (after_wl im dp iy file) ≡ some buff
  unfolding after_wl line_bytes
  other_bytes im dp iy jy file buff square size ne h =
      let bs : List ℕ = swapped im.kind.dtype (all_bytes im.kind.dtype (encoded im.kind dp)) in
      let start : ℕ = im.kind.pixoff + iy * nbyte im.kind.dtype * im.npx in
      let (_, out, _) = fwrite-IsWritten start bs file in
      fread-cong (im.kind.pixoff + jy * nbyte im.kind.dtype * im.ndatx)
        (im.npx * nbyte im.kind.dtype) file (fwrite start bs file) buff
        (λ q lo hi lq. out q lq (
          rw (length-line im dp size) (
            line-IsBeside im.kind.pixoff jy iy (nbyte im.kind.dtype) im.npx q ne (rw square at lo)
              (rw square at hi))))
        h

  other_lines :
      (im : Image) (dp : List F) (iy : ℕ) (file : List ℕ)
      → IsUsable im
      → im.ndatx ≡ im.npx
      → length dp ≡ im.npx
      → (jy : ℕ) (xs : List F) → jy ≢ iy
      → imc_fits_rl o im jy file ≡ (1, xs)
      → imc_fits_rl o im jy (after_wl im dp iy file) ≡ (1, xs)
  other_lines im dp iy file usable square size jy xs ne h =
      elim (Option-cases (line_bytes im jy file)) [
        | inl gone ↦
            let failed : 0 ≡ 1 =
              ap (λ r. r.0) (sym (imc_fits_rl-none im jy file usable gone) ∙ h) in
            absurd (omega (arith, failed))
        | inr (buff, e) ↦
            let kept = other_bytes im dp iy jy file buff square size ne e in
            imc_fits_rl-some im jy (after_wl im dp iy file) buff usable kept
            ∙ sym (imc_fits_rl-some im jy file buff usable e)
            ∙ h
      ]

  -- Of an image of a known type with a scale that is not 0 and with as many pixels in a line as the
  -- file has, a line that `imc_fits_wl` wrote is read by `imc_fits_rl` as its pixels, each encoded and
  -- decoded, and the other lines that could be read are read as before.
  pub imc_fits_rl-imc_fits_wl :
      (im : Image) (dp : List F) (iy : ℕ) (file : List ℕ)
      → im.is_fits ≡ true
      → (im.npx == 0) ≡ false
      → im.ndatx ≡ im.npx
      → is_dtype im.kind.dtype ≡ true
      → is_zero im.kind.bscale ≡ false
      → length dp ≡ im.npx
      → Returns
          (λ r.
            (r.0 ≡ 1)
            × (imc_fits_rl o im iy r.1 ≡ (1, map (λ x. decode o im.kind (encode o im.kind x)) dp))
            × ((jy : ℕ) (xs : List F)
                → jy ≢ iy
                → imc_fits_rl o im jy file ≡ (1, xs)
                → imc_fits_rl o im jy r.1 ≡ (1, xs)))
          (imc_fits_wl o im dp iy file)
  imc_fits_rl-imc_fits_wl im dp iy file fits some_pixel square known scaled size =
      let usable : IsUsable im = (fits, some_pixel, known) in
      rw (imc_fits_wl-fwrite im dp iy file usable scaled size) (
        returns (
          refl,
          own_line im dp iy file usable square size,
          λ jy xs ne h. other_lines im dp iy file usable square size jy xs ne h,
        ))
