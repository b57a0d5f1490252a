-- ===== src/Imc/Images/Line.antt =====
-- `imrl_tor` reads what `imwl_rto` wrote, in demo/spcam/sdfred20100528/mosaic/imc/imc.c.
use pwrake.Prelude.{
  ℕ, ◌+◌, ◌*◌, ◌^◌, ◌≤◌, ◌<◌, ◌≡◌, ◌≢◌, refl, sym, ap, ◌∙◌, inl, inr, Bool, true, false, List, [],
  none, some, map, arith, length, take, ltb, ◌==◌, Option-cases, some-inj, mul_mono,
}
use pwrake.Prelude.Int.{ℤ}
use pwrake.Imc.Header.{imget_u2off}
use pwrake.Imc.Pixels.{Arith, pixel_words, fwrite, fread}
use pwrake.Imc.Pixels.Swapped.{all_bytes}
use pwrake.Imc.Pixels.Filed.{IsBeside, line-IsBeside, fwrite-IsWritten, fread-cong}
use pwrake.Imc.Images.{
  Imh, psiz_of, width, is_plane, place, is_written, get_words, read_iraf, write_iraf,
}
use pwrake.Imc.Images.Words.{
  psiz_of-pos, put_all, put_words-ok, stored, get_words-line, length-line,
}

-- What both routines ask of an image of an IRAF type.
abbrev pub IsReady : ℕ → Imh → Type 0
IsReady d imhp =
    (is_plane imhp.naxis ≡ true)
    × ((imhp.npx == 0) ≡ false)
    × (imhp.npx ≤ imhp.ndatx)
    × (imhp.npy ≤ imhp.ndaty)
    × (is_written d ≡ true)
    × (imhp.ndatx * psiz_of d ≤ 131072)

-- Lines of an image do not meet where the file has at least as many pixels in a line as are stored.
apart :
    (d : ℕ) (imhp : Imh) (i j q : ℕ)
    → imhp.npx ≤ imhp.ndatx
    → i ≢ j
    → place d imhp i ≤ q
    → q < place d imhp i + imhp.npx * psiz_of d
    → IsBeside (place d imhp j) (imhp.npx * psiz_of d) q
apart d imhp i j q le ne lo hi =
    let wide = mul_mono imhp.npx imhp.ndatx (psiz_of d) le in
    narrow (mul_mono imhp.npx imhp.ndatx (psiz_of d) le)
      (line-IsBeside 1024 i j (psiz_of d) imhp.ndatx q ne lo (omega (arith, hi, wide)))
  where
    narrow : {m n p : ℕ} → m ≤ n → IsBeside p n q → IsBeside p m q
    narrow h (inl out) = inl out
    narrow h (inr out) = inr (omega (arith, h))

module _ {F : Type 0} (o : Arith F) (trunc : F → ℤ) (lt : F → F → Bool) where
  pub read_iraf-some :
      (d : ℕ) (imhp : Imh) (pixoff iy : ℕ) (file buff : List ℕ)
      → IsReady d imhp
      → imget_u2off imhp.void_2 ≡ some pixoff
      → fread (place d imhp iy) (imhp.npx * psiz_of d) file ≡ some buff
      → read_iraf o trunc lt d imhp iy file
        ≡ some (1, get_words o trunc lt d pixoff (pixel_words (width d) buff))
  unfolding read_iraf
  read_iraf-some d imhp pixoff iy file buff (plane, wide, px, py, known, fit) off h =
      let px' : ltb imhp.ndatx imhp.npx ≡ false = ground arith in
      let py' : ltb imhp.ndaty imhp.npy ≡ false = ground arith in
      let fit' : ltb 131072 (imhp.ndatx * psiz_of d) ≡ false = ground arith in
      rw (plane, px', py', psiz_of-pos d known, fit', off, wide, h) refl

  read_iraf-none :
      (d : ℕ) (imhp : Imh) (pixoff iy : ℕ) (file : List ℕ)
      → IsReady d imhp
      → imget_u2off imhp.void_2 ≡ some pixoff
      → fread (place d imhp iy) (imhp.npx * psiz_of d) file ≡ none
      → read_iraf o trunc lt d imhp iy file ≡ some (0, [])
  unfolding read_iraf
  read_iraf-none d imhp pixoff iy file (plane, wide, px, py, known, fit) off h =
      let px' : ltb imhp.ndatx imhp.npx ≡ false = ground arith in
      let py' : ltb imhp.ndaty imhp.npy ≡ false = ground arith in
      let fit' : ltb 131072 (imhp.ndatx * psiz_of d) ≡ false = ground arith in
      rw (plane, px', py', psiz_of-pos d known, fit', off, wide, h) refl

  -- The file that `imwl_rto` leaves.
  pub after_wl : ℕ → Imh → ℕ → List F → ℕ → List ℕ → List ℕ
  after_wl d imhp pixoff dp iy file =
      fwrite (place d imhp iy)
        (all_bytes (width d) (put_all o trunc lt d pixoff (take imhp.npx dp))) file

  pub write_iraf-fwrite :
      (d : ℕ) (imhp : Imh) (pixoff : ℕ) (dp : List F) (iy : ℕ) (file : List ℕ)
      → IsReady d imhp
      → imget_u2off imhp.void_2 ≡ some pixoff
      → imhp.npx ≤ length dp
      → write_iraf o trunc lt d imhp dp iy file ≡ some (1, after_wl d imhp pixoff dp iy file)
  unfolding write_iraf after_wl
  write_iraf-fwrite d imhp pixoff dp iy file (plane, wide, px, py, known, fit) off size =
      let px' : ltb imhp.ndatx imhp.npx ≡ false = ground arith in
      let py' : ltb imhp.ndaty imhp.npy ≡ false = ground arith in
      let fit' : ltb 131072 (imhp.npx * psiz_of d) ≡ false =
        ground (arith, mul_mono imhp.npx imhp.ndatx (psiz_of d) px) in
      rw
        (
          px',
          py',
          psiz_of-pos d known,
          fit',
          known,
          off,
          put_words-ok o trunc lt d pixoff imhp.npx dp size,
          wide,
        )
        refl

  pub own_line :
      (bits_fit : (x : F) → o.bits x < 2 ^ 32) (d : ℕ) (imhp : Imh) (pixoff : ℕ) (dp : List F)
      (iy : ℕ) (file : List ℕ)
      → IsReady d imhp
      → imget_u2off imhp.void_2 ≡ some pixoff
      → imhp.npx ≤ length dp
      → read_iraf o trunc lt d imhp iy (after_wl d imhp pixoff dp iy file)
        ≡ some (1, map (stored o trunc lt d pixoff) (take imhp.npx dp))
  unfolding after_wl
  own_line bits_fit d imhp pixoff dp iy file (plane, wide, px, py, known, fit) off size =
      let bs : List ℕ = all_bytes (width d) (put_all o trunc lt d pixoff (take imhp.npx dp)) in
      let read = (fwrite-IsWritten (place d imhp iy) bs file).0 in
      let long = length-line o trunc lt d pixoff imhp.npx dp known size in
      let there : fread (place d imhp iy) (imhp.npx * psiz_of d) (after_wl d imhp pixoff dp iy file)
          ≡ some bs =
        rw (sym long) read in
      read_iraf-some d imhp pixoff iy (after_wl d imhp pixoff dp iy file) bs
        (plane, wide, px, py, known, fit) off there
      ∙ ap (λ xs. some (1, xs))
          (get_words-line o trunc lt bits_fit d pixoff (take imhp.npx dp) known)

  other_bytes :
      (d : ℕ) (imhp : Imh) (pixoff : ℕ) (dp : List F) (iy jy : ℕ) (file buff : List ℕ)
      → IsReady d imhp
      → imhp.npx ≤ length dp
      → jy ≢ iy
      → fread (place d imhp jy) (imhp.npx * psiz_of d) file ≡ some buff
      → fread (place d imhp jy) (imhp.npx * psiz_of d) (after_wl d imhp pixoff dp iy file)
        ≡ some buff
  unfolding after_wl
  other_bytes d imhp pixoff dp iy jy file buff (plane, wide, px, py, known, fit) size ne h =
      let bs : List ℕ = all_bytes (width d) (put_all o trunc lt d pixoff (take imhp.npx dp)) in
      let (_, out, _) = fwrite-IsWritten (place d imhp iy) bs file in
      fread-cong (place d imhp jy) (imhp.npx * psiz_of d) file (after_wl d imhp pixoff dp iy file)
        buff
        (λ q lo hi lq. out q lq (
          rw (length-line o trunc lt d pixoff imhp.npx dp known size)
            (apart d imhp jy iy q px ne lo hi)))
        h

  pub other_lines :
      (d : ℕ) (imhp : Imh) (pixoff : ℕ) (dp : List F) (iy : ℕ) (file : List ℕ)
      → IsReady d imhp
      → imget_u2off imhp.void_2 ≡ some pixoff
      → imhp.npx ≤ length dp
      → (jy : ℕ) (xs : List F) → jy ≢ iy
      → read_iraf o trunc lt d imhp jy file ≡ some (1, xs)
      → read_iraf o trunc lt d imhp jy (after_wl d imhp pixoff dp iy file) ≡ some (1, xs)
  other_lines d imhp pixoff dp iy file ready off size jy xs ne h =
      elim (Option-cases (fread (place d imhp jy) (imhp.npx * psiz_of d) file)) [
        | inl gone ↦
            let failed : some (0, []) ≡ some (1, xs) =
              sym (read_iraf-none d imhp pixoff jy file ready off gone) ∙ h in
            absurd (omega (arith, ap (λ r. r.0) (some-inj failed)))
        | inr (buff, e) ↦
            let kept = other_bytes d imhp pixoff dp iy jy file buff ready size ne e in
            read_iraf-some d imhp pixoff jy (after_wl d imhp pixoff dp iy file) buff ready off kept
            ∙ sym (read_iraf-some d imhp pixoff jy file buff ready off e)
            ∙ h
      ]
