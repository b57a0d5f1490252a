-- ===== src/Imc/Images/Window/Row.antt =====
-- A row of the rectangle that `imc_read` of demo/spcam/sdfred20100528/mosaic/imc/imc.c returns.
use pwrake.Prelude.{
  ℕ, zero, suc, ◌+◌, ◌-◌, ◌≤◌, ◌<◌, ◌≡◌, ◌⊎◌, inl, inr, refl, sym, ap, ◌∙◌, false, List, ◌∷◌, ◌++◌,
  some, arith, length, length-append, length-replicate, replicate, get_elem?, get_elem?-ok,
  get_elem?-append_left, get_elem?-append_right, get_elem?-replicate, ltb, Returns, returns,
  Returns-if, Returns-bind, Returns-map,
}
use pwrake.Prelude.Int.{ℤ, pos, negsuc, neg_part, ◌+ℤ◌, ◌<ℤ◌, ◌≤ℤ◌, leb_ℤ}
use pwrake.Imc.Images.Window.{slice, cut_row}

-- The columns of a rectangle that starts inside the image or after it, and of one that starts before it.
pos_column : (v c x : ℕ) → pos x ≡ pos v +ℤ pos c → x ≡ v + c
unfolding ◌+ℤ◌
pos_column v c x e = ground arith

pos_beyond : (npx v c : ℕ) → (pos v +ℤ pos c <ℤ pos 0) ⊎ (pos npx ≤ℤ pos v +ℤ pos c) → npx ≤ v + c
unfolding ◌+ℤ◌
pos_beyond npx v c out = ground arith

neg_column : (v c x : ℕ) → pos x ≡ negsuc v +ℤ pos c → c ≡ suc v + x
unfolding ◌+ℤ◌
neg_column v c x e = ground arith

neg_beyond :
    (npx v c : ℕ)
    → (negsuc v +ℤ pos c <ℤ pos 0) ⊎ (pos npx ≤ℤ negsuc v +ℤ pos c)
    → (c < suc v) ⊎ (suc v + npx ≤ c)
unfolding ◌+ℤ◌
neg_beyond npx v c (inl lt) = inl (ground arith)
neg_beyond npx v c (inr le) = inr (ground arith)

module _ {F : Type 0} where
  abbrev IsSlice : ℕ → ℕ → List F → List F → Type 0
  IsSlice from n line s =
      (length s ≡ n) × ((u : ℕ) → u < n → get_elem? s u ≡ get_elem? line (from + u))

  slice-IsSlice :
      (from n : ℕ) (line : List F)
      → from + n ≤ length line
      → Returns (IsSlice from n line) (slice from n line)
  unfolding slice
  slice-IsSlice from zero line h = returns (refl, λ u lu. absurd (omega arith))
  slice-IsSlice from (suc n) line h =
      let (x, at) = get_elem?-ok line from (omega (arith, h)) in
      rw at (
        Returns-bind (slice-IsSlice (suc from) n line (omega (arith, h)))
          (λ xs (size, rest). returns (ap suc size, cells x at xs rest)))
    where
      cells :
          (x : F)
          → get_elem? line from ≡ some x
          → (xs : List F) → ((u : ℕ) → u < n → get_elem? xs u ≡ get_elem? line (suc from + u))
          → (u : ℕ) → u < suc n
          → get_elem? (x ∷ xs) u ≡ get_elem? line (from + u)
      cells x at xs rest zero lu = let e : from + 0 ≡ from = omega arith in rw e (sym at)
      cells x at xs rest (suc u) lu =
          let e : from + suc u ≡ suc from + u = omega arith in rw e (rest u (omega arith))

  module _ (pixignr : F) (npx : ℕ) (vx1 : ℤ) (w : ℕ) where
    -- The line's pixel at a column inside the image, and the ignored value at the others.
    abbrev pub ShowsLine : List F → List F → Type 0
    ShowsLine line s =
        (length s ≡ suc w)
        × ((c : ℕ)
            → c ≤ w
            → ((x : ℕ) → pos x ≡ vx1 +ℤ pos c → x < npx → get_elem? s c ≡ get_elem? line x)
              × ((vx1 +ℤ pos c <ℤ pos 0) ⊎ (pos npx ≤ℤ vx1 +ℤ pos c)
                  → get_elem? s c ≡ some pixignr))

    wide-line :
        (line : List F) (x : ℕ)
        → length line ≡ npx
        → x < npx
        → get_elem? (line ++ replicate (suc w) pixignr) x ≡ get_elem? line x
    wide-line line x size h =
        get_elem?-append_left line (replicate (suc w) pixignr) x (omega (arith, size))

    wide-ignored :
        (line : List F) (x u : ℕ)
        → length line ≡ npx
        → x ≡ npx + u
        → u ≤ w
        → get_elem? (line ++ replicate (suc w) pixignr) x ≡ some pixignr
    wide-ignored line x u size e h =
        get_elem?-append_right line (replicate (suc w) pixignr) x u (omega (arith, size, e))
        ∙ get_elem?-replicate (suc w) pixignr u (omega (arith, h))

    length-wide :
        (line : List F)
        → length line ≡ npx
        → length (line ++ replicate (suc w) pixignr) ≡ npx + suc w
    length-wide line size = omega (
      arith,
      length-append line (replicate (suc w) pixignr),
      length-replicate (suc w) pixignr,
      size,
    )

  module _ (pixignr : F) (npx w : ℕ) (line : List F) (size : length line ≡ npx) where
    cut_row-pos :
        (v : ℕ)
        → v < npx
        → Returns (ShowsLine pixignr npx (pos v) w line) (cut_row pixignr npx (pos v) (suc w) line)
    unfolding cut_row
    cut_row-pos v inside =
        let room = length-wide pixignr npx (pos v) w line size in
        Returns-map
          (slice-IsSlice v (suc w) (line ++ replicate (suc w) pixignr)
            (omega (arith, room, inside)))
          (λ s (long, cells). (
            long,
            λ c lc. (
              λ x e lx.
                  cells c (omega (arith, lc))
                  ∙ ap (get_elem? (line ++ replicate (suc w) pixignr)) (sym (pos_column v c x e))
                  ∙ wide-line pixignr npx (pos v) w line x size lx,
              λ out.
                  cells c (omega (arith, lc))
                  ∙ wide-ignored pixignr npx (pos v) w line (v + c) (v + c - npx) size
                      (omega (arith, pos_beyond npx v c out)) (omega (arith, lc, inside)),
            ),
          ))

    cut_row-negsuc :
        (v : ℕ)
        → suc v ≤ suc w
        → Returns
            (ShowsLine pixignr npx (negsuc v) w line)
            (cut_row pixignr npx (negsuc v) (suc w) line)
    unfolding cut_row
    cut_row-negsuc v fits =
        let wide = line ++ replicate (suc w) pixignr in
        let room = length-wide pixignr npx (negsuc v) w line size in
        Returns-if (ltb (suc w) (suc v)) (λ e. absurd (ground (arith, e, fits)))
          (λ _.
            Returns-bind (slice-IsSlice npx (suc v) wide (omega (arith, room, fits)))
              (λ before (long, blank).
                Returns-bind (slice-IsSlice 0 (suc w - suc v) wide (omega (arith, room)))
                  (λ behind (long', cells). returns (
                    omega (arith, length-append before behind, long, long', fits),
                    λ c lc. (
                      λ x e lx.
                          let at = neg_column v c x e in
                          get_elem?-append_right before behind c x (omega (arith, at, long))
                          ∙ cells x (omega (arith, at, lc))
                          ∙ ap (get_elem? wide) (omega arith)
                          ∙ wide-line pixignr npx (negsuc v) w line x size lx,
                      λ out. elim (neg_beyond npx v c out) [
                        | inl lt ↦
                            get_elem?-append_left before behind c (omega (arith, lt, long))
                            ∙ blank c lt
                            ∙ wide-ignored pixignr npx (negsuc v) w line (npx + c) c size refl lc
                        | inr le ↦
                            let q : ℕ = c - suc v in
                            get_elem?-append_right before behind c q (omega (arith, le, long))
                            ∙ cells q (omega (arith, le, lc))
                            ∙ wide-ignored pixignr npx (negsuc v) w line (0 + q) (q - npx) size
                                (omega (arith, le)) (omega (arith, le, lc))
                      ],
                    ),
                  ))))

    pub cut_row-ShowsLine :
        (vx1 : ℤ)
        → neg_part vx1 ≤ suc w
        → leb_ℤ (pos npx) vx1 ≡ false
        → Returns (ShowsLine pixignr npx vx1 w line) (cut_row pixignr npx vx1 (suc w) line)
    cut_row-ShowsLine (pos v) fits inside = cut_row-pos v (ground (arith, inside))
    cut_row-ShowsLine (negsuc v) fits inside = cut_row-negsuc v fits
