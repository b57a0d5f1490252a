-- ===== src/Region/Copied.antt =====
-- What `imextra` copies, in demo/spcam/sdfred20100528/mosaic/starsel/imopr.c.
use pwrake.Prelude.{
  mul_mono, ℕ, zero, suc, ◌+◌, ◌*◌, ◌≤◌, ◌<◌, ◌≡◌, ◌≢◌, refl, sym, ap, ◌∙◌, ◌⊎◌, inl, inr,
  Bool-cases, List, some, arith, length, length-set, get_elem?, get_elem?-set, get_elem?-ok, set,
  write-ok, ltb, ◌==◌, if◌then◌else◌, Returns, returns, Returns-bind, Returns-map,
}
use pwrake.Region.{memcpy, copy_rows}

-- Cells of different rows are at different places.
row_apart :
    (dx r r' c left width : ℕ)
    → c < dx
    → left + width ≤ dx
    → (r ≢ r') ⊎ ((c < left) ⊎ (left + width ≤ c))
    → (r * dx + c < r' * dx + left) ⊎ (r' * dx + left + width ≤ r * dx + c)
row_apart dx r r' c left width lc fits out = elim (Bool-cases (ltb r r')) [
  | inl e ↦
      let lt : suc r ≤ r' = ground (arith, e) in inl (omega (arith, lc, mul_mono (suc r) r' dx lt))
  | inr e ↦ elim (Bool-cases (ltb r' r)) [
    | inl e' ↦
        let lt : suc r' ≤ r = ground (arith, e') in
        inr (omega (arith, fits, mul_mono (suc r') r dx lt))
    | inr e' ↦
        let same : r ≡ r' = ground (arith, e, e') in
        let row : r * dx ≡ r' * dx = ap (λ k. k * dx) same in
        elim out [
          | inl ne ↦ absurd (ne same)
          | inr (inl lt) ↦ inl (omega (arith, row, lt))
          | inr (inr le) ↦ inr (omega (arith, row, le))
        ]
  ]
]

module _ {F : Type 0} where
  -- `n` entries from `from` on are at `at`, and the others are kept.
  abbrev IsCopied : ℕ → List F → ℕ → List F → ℕ → List F → Type 0
  IsCopied n tmp at pix from t =
      (length t ≡ length tmp)
      × ((u : ℕ) → u < n → get_elem? t (at + u) ≡ get_elem? pix (from + u))
      × ((p : ℕ) → (p < at) ⊎ (at + n ≤ p) → get_elem? t p ≡ get_elem? tmp p)

  memcpy-IsCopied :
      (n : ℕ) (tmp : List F) (at : ℕ) (pix : List F) (from : ℕ)
      → at + n ≤ length tmp
      → from + n ≤ length pix
      → Returns (IsCopied n tmp at pix from) (memcpy n tmp at pix from)
  unfolding memcpy
  memcpy-IsCopied zero tmp at pix from room source =
      returns (refl, (λ u lu. absurd (omega arith)), λ p out. refl)
  memcpy-IsCopied (suc n) tmp at pix from room source =
      let (x, h) = get_elem?-ok pix from (omega (arith, source)) in
      let inside : at < length tmp = omega (arith, room) in
      let size = length-set tmp at x in
      let rest =
        memcpy-IsCopied n (set tmp at x) (suc at) pix (suc from) (omega (arith, size, room))
          (omega (arith, source)) in
      rw (h, write-ok tmp at x inside)
        (Returns-map rest (λ t (same, copied, kept). (
          same ∙ size,
          first x h inside t copied kept,
          λ p out. kept p (beside p out) ∙ (get_elem?-set tmp at p x inside ∙ apart p out x),
        )))
    where
      beside : (p : ℕ) → (p < at) ⊎ (at + suc n ≤ p) → (p < suc at) ⊎ (suc at + n ≤ p)
      beside p (inl lt) = inl (omega arith)
      beside p (inr le) = inr (omega arith)

      apart :
          (p : ℕ)
          → (p < at) ⊎ (at + suc n ≤ p)
          → (x : F) → (if at == p then some x else get_elem? tmp p) ≡ get_elem? tmp p
      apart p (inl lt) x = ground arith
      apart p (inr le) x = ground arith

      first :
          (x : F)
          → get_elem? pix from ≡ some x
          → at < length tmp
          → (t : List F)
          → ((u : ℕ) → u < n → get_elem? t (suc at + u) ≡ get_elem? pix (suc from + u))
          → ((p : ℕ) → (p < suc at) ⊎ (suc at + n ≤ p) → get_elem? t p ≡ get_elem? (set tmp at x) p)
          → (u : ℕ) → u < suc n
          → get_elem? t (at + u) ≡ get_elem? pix (from + u)
      first x h inside t copied kept zero lu =
          let a : at + 0 ≡ at = omega arith in
          let b : from + 0 ≡ from = omega arith in
          rw (a, b)
            (kept at (inl (omega arith)) ∙ (get_elem?-set tmp at at x inside ∙ ground (arith, h)))
      first x h inside t copied kept (suc u) lu =
          let a : at + suc u ≡ suc at + u = omega arith in
          let b : from + suc u ≡ suc from + u = omega arith in rw (a, b) (copied u (omega arith))

  -- The rows from `j` on are copied, and the other cells are kept.
  abbrev pub IsRows :
      (dx npx left top ix0 iy0 width : ℕ) → List F → ℕ → ℕ → List F → List F → Type 0
  IsRows dx npx left top ix0 iy0 width pix rounds j tmp t =
      (length t ≡ length tmp)
      × ((u v : ℕ)
          → u < width
          → j ≤ v
          → v < j + rounds
          → get_elem? t ((top + v) * dx + (left + u)) ≡ get_elem? pix (ix0 + (iy0 + v) * npx + u))
      × ((c r : ℕ)
          → c < dx
          → (c < left) ⊎ ((left + width ≤ c) ⊎ ((r < top + j) ⊎ (top + j + rounds ≤ r)))
          → get_elem? t (r * dx + c) ≡ get_elem? tmp (r * dx + c))

  pub copy_rows-IsRows :
      (dx npx left top ix0 iy0 width : ℕ) (pix : List F) (rounds j : ℕ) (tmp : List F)
      → left + width ≤ dx
      → ((v : ℕ) → j ≤ v → v < j + rounds → (top + v) * dx + left + width ≤ length tmp)
      → ((v : ℕ) → j ≤ v → v < j + rounds → ix0 + (iy0 + v) * npx + width ≤ length pix)
      → Returns
          (IsRows dx npx left top ix0 iy0 width pix rounds j tmp)
          (copy_rows dx npx left top ix0 iy0 width pix rounds j tmp)
  unfolding copy_rows
  copy_rows-IsRows dx npx left top ix0 iy0 width pix zero j tmp fits room source =
      returns (refl, (λ u v lu lo hi. absurd (omega (arith, lo, hi))), λ c r lc out. refl)
  copy_rows-IsRows dx npx left top ix0 iy0 width pix (suc rounds) j tmp fits room source =
      Returns-bind
        (memcpy-IsCopied width tmp ((top + j) * dx + left) pix (ix0 + (iy0 + j) * npx)
          (room j (omega arith) (omega arith)) (source j (omega arith) (omega arith)))
        (λ t (size, copied, kept).
          let rest =
            copy_rows-IsRows dx npx left top ix0 iy0 width pix rounds (suc j) t fits
              (λ v lo hi. omega (arith, size, room v (omega (arith, lo)) (omega (arith, hi))))
              (λ v lo hi. source v (omega (arith, lo)) (omega (arith, hi))) in
          Returns-map rest (λ t' (size', rows, kept'). (
            size' ∙ size,
            λ u v lu lo hi. elim (Bool-cases (ltb j v)) [
              | inl e ↦ rows u v lu (ground (arith, e)) (omega (arith, hi))
              | inr e ↦
                  let same : v ≡ j = ground (arith, e, lo) in
                  let join : (top + j) * dx + left + u ≡ (top + j) * dx + (left + u) =
                    omega arith in
                  rw same (
                    kept' (left + u) (top + j) (omega (arith, fits, lu))
                      (inr (inr (inl (omega arith))))
                    ∙ ap (get_elem? t) (sym join)
                    ∙ copied u lu)
            ],
            λ c r lc out.
                kept' c r lc (wider c r out)
                ∙ kept (r * dx + c) (row_apart dx r (top + j) c left width lc fits (other c r out)),
          )))
    where
      wider :
          (c r : ℕ)
          → (c < left) ⊎ ((left + width ≤ c) ⊎ ((r < top + j) ⊎ (top + j + suc rounds ≤ r)))
          → (c < left) ⊎ ((left + width ≤ c) ⊎ ((r < top + suc j) ⊎ (top + suc j + rounds ≤ r)))
      wider c r (inl lt) = inl lt
      wider c r (inr (inl le)) = inr (inl le)
      wider c r (inr (inr (inl lt))) = inr (inr (inl (omega arith)))
      wider c r (inr (inr (inr le))) = inr (inr (inr (omega arith)))

      other :
          (c r : ℕ)
          → (c < left) ⊎ ((left + width ≤ c) ⊎ ((r < top + j) ⊎ (top + j + suc rounds ≤ r)))
          → (r ≢ top + j) ⊎ ((c < left) ⊎ (left + width ≤ c))
      other c r (inl lt) = inr (inl lt)
      other c r (inr (inl le)) = inr (inr le)
      other c r (inr (inr (inl lt))) = inl (λ e. omega arith)
      other c r (inr (inr (inr le))) = inl (λ e. omega arith)
