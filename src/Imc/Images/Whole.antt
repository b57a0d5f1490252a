-- ===== src/Imc/Images/Whole.antt =====
-- `imrall_tor` reads what `imwall_rto` wrote, in demo/spcam/sdfred20100528/mosaic/imc/imc.c.
use pwrake.Prelude.{
  ℕ, zero, suc, ◌+◌, ◌*◌, ◌^◌, ◌≤◌, ◌<◌, ◌≡◌, inl, inr, refl, sym, ap, ◌∙◌, Bool, true, false, List,
  [], ◌∷◌, ◌++◌, Option, some, map, map-append, arith, length, length-drop, take, drop, drop-drop,
  ltb, ◌==◌, Bool-cases, ==→≡, Returns, returns, Returns-map, Returns-bind, mul_mono,
}
use pwrake.Prelude.Int.{ℤ}
use pwrake.Imc.Pixels.{Arith}
use pwrake.Imc.Images.{Imh, is_plane, imrl_tor, write_lines, read_lines, imwall_rto, imrall_tor}
use pwrake.Imc.Images.Formats.{
  Format, as_fits, as_iraf, HasFormat, IsSized, through, imrl_tor-imwl_rto,
}

module _ {A : Type 0} where
  take_add : (m k : ℕ) (xs : List A) → take (m + k) xs ≡ take m xs ++ take k (drop m xs)
  take_add zero k xs = let e : 0 + k ≡ k = omega arith in rw e refl
  take_add (suc m) zero [] = let e : suc m + 0 ≡ suc m = omega arith in rw e refl
  take_add (suc m) (suc k) [] = let e : suc m + suc k ≡ suc (m + suc k) = omega arith in rw e refl
  take_add (suc m) k (x ∷ xs) =
      let e : suc m + k ≡ suc (m + k) = omega arith in rw e (ap (◌∷◌ x) (take_add m k xs))

module _ {F : Type 0} (o : Arith F) (trunc : F → ℤ) (lt : F → F → Bool)
    (mos mos_all : ℕ → Option (ℕ × List F)) (bits_fit : (x : F) → o.bits x < 2 ^ 32) (imhp : Imh)
    (format : Format) (pix : List F) where
  -- A line of the array, as it is read.
  row : ℕ → List F
  row iy = map (through o trunc lt format) (take imhp.npx (drop (iy * imhp.npx) pix))

  read : ℕ → List ℕ → Option (ℕ × List F)
  read iy file = imrl_tor o trunc lt mos mos_all imhp iy file

  -- The lines before `iy` are kept, and the next ones are the rows.
  abbrev AreWritten : ℕ → ℕ → List ℕ → (ℕ × List ℕ) → Type 0
  AreWritten left iy file r =
      (r.0 ≡ 1)
      × ((j : ℕ) (xs : List F) → j < iy → read j file ≡ some (1, xs) → read j r.1 ≡ some (1, xs))
      × ((j : ℕ) → iy ≤ j → j < iy + left → read j r.1 ≡ some (1, row j))

  room :
      (left iy : ℕ)
      → (iy + suc left) * imhp.npx ≤ length pix
      → imhp.npx ≤ length (drop (iy * imhp.npx) pix)
  room left iy h = omega (
    arith,
    length-drop (iy * imhp.npx) pix,
    mul_mono (suc iy) (iy + suc left) imhp.npx (omega arith),
    h,
  )

  write_lines-AreWritten :
      IsSized imhp
      → HasFormat imhp format
      → (left iy : ℕ) (file : List ℕ) → (iy + left) * imhp.npx ≤ length pix
      → Returns (AreWritten left iy file) (write_lines o trunc lt imhp pix left iy file)
  unfolding write_lines read row
  write_lines-AreWritten sized has zero iy file h =
      returns (refl, λ j xs before old. old, λ j lo hi. absurd (omega arith))
  write_lines-AreWritten sized has (suc left) iy file h =
      Returns-bind
        (imrl_tor-imwl_rto o trunc lt mos mos_all bits_fit imhp format (drop (iy * imhp.npx) pix) iy
          file sized has (room left iy h))
        (λ r (one, own, others).
          let shift : suc iy + left ≡ iy + suc left = omega arith in
          let enough : (suc iy + left) * imhp.npx ≤ length pix = rw shift h in
          let later = write_lines-AreWritten sized has left (suc iy) r.1 enough in
          rw one (
            Returns-map later (λ s (done, kept, rows). (
              done,
              λ j xs before old.
                  kept j xs (omega (arith, before)) (others j xs (omega (arith, before)) old),
              λ j lo hi. elim (Bool-cases (j == iy)) [
                | inl e ↦ let here : j ≡ iy = ==→≡ j iy e in rw here (kept iy _ (omega arith) own)
                | inr e ↦ rows j (ground (arith, lo, e)) (omega (arith, hi))
              ],
            ))))

  read_lines-rows :
      (left iy : ℕ) (file : List ℕ)
      → ((j : ℕ) → iy ≤ j → j < iy + left → read j file ≡ some (1, row j))
      → read_lines o trunc lt mos mos_all imhp left iy file
        ≡ some
            (1, map (through o trunc lt format) (take (left * imhp.npx) (drop (iy * imhp.npx) pix)))
  unfolding read_lines read row
  read_lines-rows zero iy file h = let e : 0 * imhp.npx ≡ 0 = omega arith in rw e refl
  read_lines-rows (suc left) iy file h =
      let first = h iy (omega arith) (omega arith) in
      let rest =
        read_lines-rows left (suc iy) file
          (λ j lo hi. h j (omega (arith, lo)) (omega (arith, hi))) in
      let size : suc left * imhp.npx ≡ imhp.npx + left * imhp.npx = omega arith in
      let start : iy * imhp.npx + imhp.npx ≡ suc iy * imhp.npx = omega arith in
      rw
        (
          first,
          rest,
          size,
          take_add imhp.npx (left * imhp.npx) (drop (iy * imhp.npx) pix),
          drop-drop (iy * imhp.npx) imhp.npx pix,
          start,
        )
        (ap (λ xs. some (1, xs))
          (sym (
            map-append (through o trunc lt format) (take imhp.npx (drop (iy * imhp.npx) pix))
              (take (left * imhp.npx) (drop (suc iy * imhp.npx) pix)))))

  is_plane-small : (naxis : ℕ) → is_plane naxis ≡ true → ltb 2 naxis ≡ false
  is_plane-small naxis h = ground (arith, h)

  imwall_rto-lines :
      (file : List ℕ)
      → IsSized imhp
      → imwall_rto o trunc lt imhp pix file ≡ write_lines o trunc lt imhp pix imhp.npy 0 file
  unfolding imwall_rto
  imwall_rto-lines file (plane, wide, px, py) =
      let px' : ltb imhp.ndatx imhp.npx ≡ false = ground arith in
      let py' : ltb imhp.ndaty imhp.npy ≡ false = ground arith in
      rw (is_plane-small imhp.naxis plane, px', py') refl

  imrall_tor-lines :
      (pdim : ℕ) (file : List ℕ)
      → IsSized imhp
      → HasFormat imhp format
      → imhp.npy * imhp.npx ≤ pdim
      → imrall_tor o trunc lt mos mos_all imhp pdim file
        ≡ read_lines o trunc lt mos mos_all imhp imhp.npy 0 file
  unfolding imrall_tor
  imrall_tor-lines pdim file (plane, wide, px, py) has room' =
      let px' : ltb imhp.ndatx imhp.npx ≡ false = ground arith in
      let py' : ltb imhp.ndaty imhp.npy ≡ false = ground arith in
      let big : ltb pdim (imhp.npy * imhp.npx) ≡ false = ground (arith, room') in
      by_type format has plane px' py' big
    where
      by_type :
          (f : Format)
          → HasFormat imhp f
          → is_plane imhp.naxis ≡ true
          → ltb imhp.ndatx imhp.npx ≡ false
          → ltb imhp.ndaty imhp.npy ≡ false
          → ltb pdim (imhp.npy * imhp.npx) ≡ false
          → imrall_tor o trunc lt mos mos_all imhp pdim file
            ≡ read_lines o trunc lt mos mos_all imhp imhp.npy 0 file
      by_type (as_fits k) (e, _, _, _, _) plane px' py' big = rw (e, plane, big, px', py') refl
      by_type (as_iraf d pixoff) (e, _, _, _) plane px' py' big = rw (e, plane, big, px', py') refl

  -- Of an image whose sizes are in order and that has a format, `imwall_rto` of an array with all its
  -- pixels returns 1, and `imrall_tor` then reads the array's first `npx * npy` entries, each stored in
  -- the format, whatever the file held before.
  pub imrall_tor-imwall_rto :
      (pdim : ℕ) (file : List ℕ)
      → IsSized imhp
      → HasFormat imhp format
      → imhp.npy * imhp.npx ≤ pdim
      → imhp.npy * imhp.npx ≤ length pix
      → Returns
          (λ r.
            (r.0 ≡ 1)
            × (imrall_tor o trunc lt mos mos_all imhp pdim r.1
                ≡ some (1, map (through o trunc lt format) (take (imhp.npy * imhp.npx) pix))))
          (imwall_rto o trunc lt imhp pix file)
  imrall_tor-imwall_rto pdim file sized has room' size =
      let start : 0 * imhp.npx ≡ 0 = omega arith in
      rw (imwall_rto-lines file sized) (
        Returns-map (write_lines-AreWritten sized has imhp.npy 0 file (omega (arith, size)))
          (λ r (one, kept, rows). (
            one,
            imrall_tor-lines pdim r.1 sized has room'
                ∙ (rw start at (read_lines-rows imhp.npy 0 r.1 rows)),
          )))
