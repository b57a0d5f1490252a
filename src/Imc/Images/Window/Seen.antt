-- ===== src/Imc/Images/Window/Seen.antt =====
-- Every cell that `imc_read` of demo/spcam/sdfred20100528/mosaic/imc/imc.c returns.
use pwrake.Prelude.{
  ℕ, zero, suc, ◌+◌, ◌*◌, ◌≤◌, ◌<◌, ◌≡◌, ◌≢◌, ◌⊎◌, inl, inr, refl, sym, Bool, true, false, ◌||◌,
  List, ◌++◌, Option, some, arith, length, length-replicate, replicate, get_elem?,
  get_elem?-append_left, get_elem?-append_right, get_elem?-replicate, Returns, returns, ◌>>=◌,
  Returns-if, Returns-bind, Returns-map,
}
use pwrake.Prelude.Int.{ℤ, pos, negsuc, neg_part, ◌+ℤ◌, ◌<ℤ◌, ◌≤ℤ◌, ltb_ℤ, leb_ℤ}
use pwrake.Imc.Header.{imget_pixignr}
use pwrake.Imc.Pixels.{Arith, signed}
use pwrake.Imc.Images.{Imh, Dtype, mosaic, fits, iraf, imrl_tor}
use pwrake.Region.Axes.{span}
use pwrake.Imc.Images.Window.{window_row, window_rows, read_window, imc_read}
use pwrake.Imc.Images.Window.Row.{ShowsLine, cut_row-ShowsLine}

zero_row : (y : ℤ) → y +ℤ pos 0 ≡ y
unfolding ◌+ℤ◌
zero_row y = ground arith

next_row : (y : ℤ) (r : ℕ) → y +ℤ pos (suc r) ≡ (y +ℤ pos 1) +ℤ pos r
unfolding ◌+ℤ◌
next_row y r = ground arith

module _ {F : Type 0} (o : Arith F) (trunc : F → ℤ) (lt : F → F → Bool)
    (mos mos_all : ℕ → Option (ℕ × List F)) (imhp : Imh) (file : List ℕ) (lines : ℕ → List F) where
  -- The lines of the image can be read, as `lines`.
  abbrev pub AreLines : Type 0
  AreLines =
      (y : ℕ)
      → y < imhp.npy
      → (imrl_tor o trunc lt mos mos_all imhp y file ≡ some (1, lines y))
        × (length (lines y) ≡ imhp.npx)

  -- What is at a column and a row of the rectangle: the image's pixel, or the ignored value.
  abbrev pub IsCell : F → ℤ → ℤ → Option F → Type 0
  IsCell pixignr at_x at_y p =
      ((x y : ℕ)
        → pos x ≡ at_x
        → pos y ≡ at_y
        → x < imhp.npx
        → y < imhp.npy
        → p ≡ get_elem? (lines y) x)
      × (((at_x <ℤ pos 0) ⊎ (pos imhp.npx ≤ℤ at_x)) ⊎ ((at_y <ℤ pos 0) ⊎ (pos imhp.npy ≤ℤ at_y))
          → p ≡ some pixignr)

  module _ (readable : AreLines) (pixignr : F) (vx1 : ℤ) (w : ℕ) (ends : neg_part vx1 ≤ suc w) where
    abbrev IsRow : ℤ → (List F × List F) → Type 0
    IsRow y r =
        (length r.0 ≡ suc w)
        × ((c : ℕ) → c ≤ w → IsCell pixignr (vx1 +ℤ pos c) y (get_elem? r.0 c))
        × (length r.1 ≡ imhp.npx)

    blank-IsCell :
        (y at_x : ℤ) (p : Option F)
        → leb_ℤ vx1 at_x ≡ true
        → (ltb_ℤ y (pos 0) || leb_ℤ (pos imhp.npy) y || leb_ℤ (pos imhp.npx) vx1) ≡ true
        → p ≡ some pixignr
        → IsCell pixignr at_x y p
    blank-IsCell y at_x p le e same =
        (λ x yy ex ey lx ly. absurd (ground (arith, e, le, ex, ey)), λ out. same)

    shown-IsRow :
        (y : ℕ) (s : List F)
        → y < imhp.npy
        → ShowsLine pixignr imhp.npx vx1 w (lines y) s
        → IsRow (pos y) (s, lines y)
    shown-IsRow y s ly (long, cells) = (
      long,
      λ c lc. (
        λ x yy ex ey lx lyy.
            let same : y ≡ yy = ground (arith, ey) in rw (sym same) ((cells c lc).0 x ex lx),
        λ out. elim out [
          | inl col ↦ (cells c lc).1 col
          | inr (inl below) ↦ absurd (ground (arith, below))
          | inr (inr above) ↦ absurd (ground (arith, above, ly))
        ],
      ),
      (readable y ly).1,
    )

    after : (c : ℕ) → leb_ℤ vx1 (vx1 +ℤ pos c) ≡ true
    unfolding ◌+ℤ◌
    after c = ground arith

    blank_row :
        (y : ℤ) (line : List F)
        → length line ≡ imhp.npx
        → (ltb_ℤ y (pos 0) || leb_ℤ (pos imhp.npy) y || leb_ℤ (pos imhp.npx) vx1) ≡ true
        → IsRow y (replicate (suc w) pixignr, line)
    blank_row y line size e = (
      length-replicate (suc w) pixignr,
      λ c lc.
          blank-IsCell y (vx1 +ℤ pos c) (get_elem? (replicate (suc w) pixignr) c) (after c) e
            (get_elem?-replicate (suc w) pixignr c (omega (arith, lc))),
      size,
    )

    window_row-IsRow :
        (y : ℤ) (line : List F)
        → length line ≡ imhp.npx
        → Returns (IsRow y) (window_row o trunc lt mos mos_all imhp file pixignr vx1 (suc w) y line)
    unfolding window_row
    window_row-IsRow (negsuc k) line size =
        Returns-if
          (ltb_ℤ (negsuc k) (pos 0) || leb_ℤ (pos imhp.npy) (negsuc k) || leb_ℤ (pos imhp.npx) vx1)
          (λ e. returns (blank_row (negsuc k) line size e)) (λ e. absurd (ground (arith, e)))
    window_row-IsRow (pos y) line size =
        Returns-if
          (ltb_ℤ (pos y) (pos 0) || leb_ℤ (pos imhp.npy) (pos y) || leb_ℤ (pos imhp.npx) vx1)
          (λ e. returns (blank_row (pos y) line size e))
          (λ e.
            let ly : y < imhp.npy = ground (arith, e) in
            let inside : leb_ℤ (pos imhp.npx) vx1 ≡ false = ground (arith, e) in
            let (read, long) = readable y ly in
            rw (read, ◌>>=◌)
              (Returns-bind (cut_row-ShowsLine pixignr imhp.npx w (lines y) long vx1 ends inside)
                (λ s shows. returns (shown-IsRow y s ly shows))))

    -- Every cell of the rows from `y` on.
    abbrev AreCells : ℕ → ℤ → List F → Type 0
    AreCells left y t =
        (c r : ℕ)
        → c ≤ w
        → r < left
        → IsCell pixignr (vx1 +ℤ pos c) (y +ℤ pos r) (get_elem? t (r * suc w + c))

    window_rows-AreCells :
        (left : ℕ) (y : ℤ) (line : List F)
        → length line ≡ imhp.npx
        → Returns
            (AreCells left y)
            (window_rows o trunc lt mos mos_all imhp file pixignr vx1 (suc w) left y line)
    unfolding window_rows
    window_rows-AreCells zero y line size = returns (λ c r lc lr. absurd (omega arith))
    window_rows-AreCells (suc left) y line size =
        Returns-bind (window_row-IsRow y line size) (λ r (long, cells, size').
          Returns-bind (window_rows-AreCells left (y +ℤ pos 1) r.1 size')
            (λ rest more. returns (join r.0 rest long cells more)))
      where
        join :
            (s rest : List F)
            → length s ≡ suc w
            → ((c : ℕ) → c ≤ w → IsCell pixignr (vx1 +ℤ pos c) y (get_elem? s c))
            → AreCells left (y +ℤ pos 1) rest
            → AreCells (suc left) y (s ++ rest)
        join s rest long cells more c zero lc lr =
            let e : 0 * suc w + c ≡ c = omega arith in
            rw (e, get_elem?-append_left s rest c (omega (arith, long, lc)), zero_row y)
              (cells c lc)
        join s rest long cells more c (suc r) lc lr =
            let e : suc r * suc w + c ≡ length s + (r * suc w + c) = omega (arith, long) in
            rw (get_elem?-append_right s rest (suc r * suc w + c) (r * suc w + c) e, next_row y r)
              (more c r lc (omega (arith, lr)))

  read_window-rows :
      (vx1 vy1 : ℤ) (w h word : ℕ) (line : List F)
      → imget_pixignr imhp.void_2 ≡ some word
      → read_window o trunc lt mos mos_all imhp file vx1 (vx1 +ℤ pos w) vy1 (vy1 +ℤ pos h) line
        ≡ window_rows o trunc lt mos mos_all imhp file
            (o.of_int (signed 4294967296 word))
            vx1
            (suc w)
            (suc h)
            vy1
            line
  unfolding read_window
  read_window-rows vx1 vy1 w h word line ignored =
      let wide : leb_ℤ (pos (suc w)) (pos 0) ≡ false = ground arith in
      let high : leb_ℤ (pos (suc h)) (pos 0) ≡ false = ground arith in
      rw (span vx1 w, span vy1 h, wide, high, ignored, ◌>>=◌) refl

  imc_read-window :
      (imc_mos_read : ℤ → ℤ → ℤ → ℤ → Option (List F)) (vx1 vx2 vy1 vy2 : ℤ) (line : List F)
      (dtype : Dtype)
      → imhp.dtype ≡ dtype
      → dtype ≢ mosaic
      → imc_read o trunc lt mos mos_all imhp file imc_mos_read vx1 vx2 vy1 vy2 line
        ≡ read_window o trunc lt mos mos_all imhp file vx1 vx2 vy1 vy2 line
  unfolding imc_read
  imc_read-window imc_mos_read vx1 vx2 vy1 vy2 line mosaic e ne = absurd (ne refl)
  imc_read-window imc_mos_read vx1 vx2 vy1 vy2 line fits e ne = rw e refl
  imc_read-window imc_mos_read vx1 vx2 vy1 vy2 line (iraf d) e ne = rw e refl

  -- Of a readable image that is not a mosaic, and a rectangle of `w + 1` columns and `h + 1` rows from `vx1`
  -- and `vy1` on that ends in column -1 or later, `imc_read` returns a buffer with, at each cell, the
  -- image's pixel there, or outside the image the value of pixels to ignore, whatever `malloc` gave.
  pub imc_read-IsCell :
      (imc_mos_read : ℤ → ℤ → ℤ → ℤ → Option (List F)) (vx1 vy1 : ℤ) (w h word : ℕ) (line : List F)
      → AreLines
      → imhp.dtype ≢ mosaic
      → imget_pixignr imhp.void_2 ≡ some word
      → neg_part vx1 ≤ suc w
      → length line ≡ imhp.npx
      → Returns
          (λ t.
            (c r : ℕ)
            → c ≤ w
            → r ≤ h
            → IsCell
                (o.of_int (signed 4294967296 word))
                (vx1 +ℤ pos c)
                (vy1 +ℤ pos r)
                (get_elem? t (r * suc w + c)))
          (imc_read o trunc lt mos mos_all imhp file imc_mos_read vx1
            (vx1 +ℤ pos w)
            vy1
            (vy1 +ℤ pos h)
            line)
  imc_read-IsCell imc_mos_read vx1 vy1 w h word line readable flat ignored ends size =
      rw
        (
          imc_read-window imc_mos_read vx1 (vx1 +ℤ pos w) vy1 (vy1 +ℤ pos h) line imhp.dtype refl
              flat,
          read_window-rows vx1 vy1 w h word line ignored,
        )
        (Returns-map
          (window_rows-AreCells readable (o.of_int (signed 4294967296 word)) vx1 w ends (suc h) vy1
            line size)
          (λ t cells c r lc lr. cells c r lc (omega (arith, lr))))
