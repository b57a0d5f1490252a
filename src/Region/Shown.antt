-- ===== src/Region/Shown.antt =====
-- Every cell that `imextra` leaves, in demo/spcam/sdfred20100528/mosaic/starsel/imopr.c.
use pwrake.Prelude.{
  mul_mono, ℕ, suc, ◌+◌, ◌*◌, ◌≤◌, ◌<◌, ◌≡◌, ap, ◌∙◌, ◌⊎◌, inl, inr, false, ◌||◌, List, some, arith,
  length, length-append, length-replicate, drop, replicate, get_elem?, get_elem?-append_left,
  get_elem?-replicate, leb, ◌==◌, Returns, returns, Returns-bind, Returns-if,
}
use pwrake.Prelude.Int.{ℤ, pos, pos_part, neg_part, ◌+ℤ◌, ◌<ℤ◌, ◌≤ℤ◌, leb_ℤ}
use pwrake.Region.{memset, copy_rows, extent, imextra}
use pwrake.Region.Copied.{IsRows, copy_rows-IsRows}
use pwrake.Region.Axes.{
  span, shared, shared-inside, shared-source, shared-column, shared-outside, none_shared,
  some_shared,
}

module _ {F : Type 0} (blank : F) (pix : List F) (npx npy : ℕ) (x0 y0 : ℤ) (w h : ℕ) where
  -- A place outside the image.
  abbrev pub IsOutside : ℕ → ℕ → Type 0
  IsOutside c r =
      ((x0 +ℤ pos c <ℤ pos 0) ⊎ (pos npx ≤ℤ x0 +ℤ pos c))
      ⊎ ((y0 +ℤ pos r <ℤ pos 0) ⊎ (pos npy ≤ℤ y0 +ℤ pos r))

  -- Every cell of the rectangle is the image's pixel there, and 0 outside the image.
  abbrev pub IsShown : List F → Type 0
  IsShown t =
      (c r : ℕ)
      → c ≤ w
      → r ≤ h
      → ((x y : ℕ)
          → pos x ≡ x0 +ℤ pos c
          → pos y ≡ y0 +ℤ pos r
          → x < npx
          → y < npy
          → get_elem? t (r * suc w + c) ≡ get_elem? pix (x + y * npx))
        × (IsOutside c r → get_elem? t (r * suc w + c) ≡ some blank)

  abbrev width : ℕ
  width = shared npx w x0

  abbrev height : ℕ
  height = shared npy h y0

  -- A cell of the rectangle is in the part that `memset` cleared.
  cell-lt : (c r : ℕ) → c ≤ w → r ≤ h → r * suc w + c < suc h * suc w
  cell-lt c r lc lr = omega (arith, mul_mono (suc r) (suc h) (suc w) (omega (arith, lr)))

  abbrev IsBlank : List F → Type 0
  IsBlank t =
      (suc h * suc w ≤ length t)
      × ((c r : ℕ) → c ≤ w → r ≤ h → get_elem? t (r * suc w + c) ≡ some blank)

  memset-IsBlank :
      (tmp : List F)
      → suc h * suc w ≤ length tmp
      → Returns IsBlank (memset blank (suc h * suc w) tmp)
  memset-IsBlank tmp room =
      let n : ℕ = suc h * suc w in
      let size : length (replicate n blank) ≡ n = length-replicate n blank in
      Returns-if (leb n (length tmp))
        (λ e. returns (
          omega (arith, length-append (replicate n blank) (drop n tmp), size),
          λ c r lc lr.
              get_elem?-append_left (replicate n blank) (drop n tmp) (r * suc w + c)
                (omega (arith, size, cell-lt c r lc lr))
              ∙ get_elem?-replicate n blank (r * suc w + c) (cell-lt c r lc lr),
        ))
        (λ e. absurd (ground (arith, e, room)))

  -- With no column or no row in common with the image nothing is shown.
  blank-IsShown :
      (t : List F) → 0 < npx → 0 < npy → IsBlank t → (width ≡ 0) ⊎ (height ≡ 0) → IsShown t
  blank-IsShown t px py (size, clear) beside c r lc lr =
      (λ x y ex ey lx ly. absurd (omega (arith, both x y ex ey lx ly)), λ out. clear c r lc lr)
    where
      both : (x y : ℕ) → pos x ≡ x0 +ℤ pos c → pos y ≡ y0 +ℤ pos r → x < npx → y < npy → 0 < 0
      both x y ex ey lx ly =
          let (u, lu, _, _) = shared-column npx w x0 px c x lc lx ex in
          let (v, lv, _, _) = shared-column npy h y0 py r y lr ly ey in
          elim beside [ inl e ↦ omega (arith, lu, e) | inr e ↦ omega (arith, lv, e) ]

  rows-IsShown :
      (t t' : List F)
      → 0 < npx
      → 0 < npy
      → IsBlank t
      → IsRows
          (suc w)
          npx
          (neg_part x0)
          (neg_part y0)
          (pos_part x0)
          (pos_part y0)
          width
          pix
          height
          0
          t
          t'
      → IsShown t'
  rows-IsShown t t' px py (size, clear) (size', rows, kept) c r lc lr = (
    λ x y ex ey lx ly.
        let (u, lu, ec, eu) = shared-column npx w x0 px c x lc lx ex in
        let (v, lv, er, ev) = shared-column npy h y0 py r y lr ly ey in
        let join = source_place u v in
        rw (ec, er, eu, ev)
          (rows u v lu (omega arith) (omega (arith, lv)) ∙ ap (get_elem? pix) join),
    λ out. kept c r (omega (arith, lc)) (beside out) ∙ clear c r lc lr,
  )
    where
      source_place :
          (u v : ℕ)
          → pos_part x0 + (pos_part y0 + v) * npx + u ≡ pos_part x0 + u + (pos_part y0 + v) * npx
      source_place u v = omega arith

      beside :
          IsOutside c r
          → (c < neg_part x0)
            ⊎ ((neg_part x0 + width ≤ c) ⊎ ((r < neg_part y0 + 0) ⊎ (neg_part y0 + 0 + height ≤ r)))
      beside (inl col) = elim (shared-outside npx w x0 px c lc col) [
        | inl lt ↦ inl lt
        | inr le ↦ inr (inl le)
      ]
      beside (inr row) = elim (shared-outside npy h y0 py r lr row) [
        | inl lt ↦ inr (inr (inl (omega (arith, lt))))
        | inr le ↦ inr (inr (inr (omega (arith, le))))
      ]

  -- On an image with a pixel and a `tmp` with room for the rectangle from `x0` and `y0` to `x0+w` and
  -- `y0+h`, `imextra` ends with no access outside the arrays and leaves in `tmp` the pixel of the image
  -- at each cell of the rectangle, and 0 at the cells outside the image.
  pub imextra-IsShown :
      (tmp : List F)
      → 0 < npx
      → 0 < npy
      → npy * npx ≤ length pix
      → suc h * suc w ≤ length tmp
      → Returns (λ r. IsShown r.1) (imextra blank pix npx npy x0 y0 (x0 +ℤ pos w) (y0 +ℤ pos h) tmp)
  unfolding imextra
  imextra-IsShown tmp px py source room =
      let a : (npx == 0) ≡ false = ground (arith, px) in
      let b : (npy == 0) ≡ false = ground (arith, py) in
      rw (imextra, span x0 w, span y0 h, a, b)
        (Returns-if (leb (suc w + 0) (0 + 0) || leb (suc h + 0) (0 + 0))
          (λ e. absurd (ground (arith, e)))
          (λ e. Returns-bind (memset-IsBlank tmp room) (λ t clear.
            Returns-if (leb_ℤ (extent npx x0 (x0 +ℤ pos w)) (pos 0))
              (λ e'.
                returns (
                  blank-IsShown t px py clear (inl (none_shared (extent npx x0 (x0 +ℤ pos w)) e'))))
              (λ e'.
                Returns-bind (copied t clear.0 (some_shared (extent npx x0 (x0 +ℤ pos w)) e'))
                  (λ t' rows. returns (rows-IsShown t t' px py clear rows))))))
    where
      copied :
          (t : List F)
          → suc h * suc w ≤ length t
          → 0 < width
          → Returns
              (IsRows
                (suc w)
                npx
                (neg_part x0)
                (neg_part y0)
                (pos_part x0)
                (pos_part y0)
                width
                pix
                height
                0
                t)
              (copy_rows
                (suc w)
                npx
                (neg_part x0)
                (neg_part y0)
                (pos_part x0)
                (pos_part y0)
                width
                pix
                height
                0
                t)
      copied t space some_width =
          let fits = shared-inside npx w x0 px some_width in
          let cols = shared-source npx w x0 px some_width in
          copy_rows-IsRows (suc w) npx (neg_part x0) (neg_part y0) (pos_part x0) (pos_part y0) width
            pix height 0 t fits
            (λ v lo hi.
              let some_row : 0 < height = omega (arith, hi) in
              let inside = shared-inside npy h y0 py some_row in
              omega (
                arith,
                fits,
                space,
                mul_mono (suc (neg_part y0 + v)) (suc h) (suc w) (omega (arith, inside, hi)),
              ))
            (λ v lo hi.
              let some_row : 0 < height = omega (arith, hi) in
              let inside = shared-source npy h y0 py some_row in
              omega (
                arith,
                cols,
                source,
                mul_mono (suc (pos_part y0 + v)) npy npx (omega (arith, inside, hi)),
              ))
