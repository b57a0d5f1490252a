-- ===== src/Detect/Pixels/Started.antt =====
-- The pixel that a flood starts from is one of the object's.
use pwrake.Prelude.{
  ℕ, zero, suc, ◌+◌, ◌*◌, ◌≤◌, ◌<◌, ◌≡◌, ◌≢◌, refl, ap, ◌∙◌, inl, inr, Bool, Bool-cases, true, List,
  [], ◌∷◌, arith, some, get_elem?, ◌==◌, ==→≡,
}
use pwrake.Prelude.Int.{ℤ, pos, negsuc, ◌+ℤ◌, ◌-ℤ◌}
use pwrake.Sort.Order.{Ranked}
use pwrake.Paint.Fill.{Canvas, index, passes}
use pwrake.Paint.Flood.{flood_greaterthan}
use pwrake.Paint.Flood.Marks.{
  IsCalled, untouched, marked, times, doflood3r-IsFlooded, doflood3r-starts,
}
use pwrake.Detect.Pixels.{new_pixlist}
use pwrake.Detect.Pixels.Box.{set_all-entry}
use pwrake.Detect.Pixels.Extracted.{filled_list, flooded}

-- A column inside the image and a row have an index of their own.
grid_unique : (n a c b d : ℕ) → a < n → c < n → a + n * b ≡ c + n * d → (a ≡ c) × (b ≡ d)
grid_unique n a c zero zero la lc e = (omega arith, refl)
grid_unique n a c zero (suc d) la lc e = absurd (omega arith)
grid_unique n a c (suc b) zero la lc e = absurd (omega arith)
grid_unique n a c (suc b) (suc d) la lc e =
    let (same, rows) = grid_unique n a c b d la lc (omega arith) in (same, ap suc rows)

sub_add : (x x0 : ℤ) → (x -ℤ x0) +ℤ x0 ≡ x
unfolding ◌+ℤ◌ ◌-ℤ◌
sub_add x x0 = ground arith

module _ {F : Type 0} (tmp : ℕ → F) (npx npy : ℕ) (check : F → Bool) where
  -- Two pixels that pass and have one index.
  passes_unique :
      (c r c' r' : ℤ)
      → passes tmp npx npy check c r ≡ true
      → passes tmp npx npy check c' r' ≡ true
      → index npx c r ≡ index npx c' r'
      → (c ≡ c') × (r ≡ r')
  unfolding passes
  passes_unique (pos c) (pos r) (pos c') (pos r') h h' e =
      let (a, b) = grid_unique npx c c' r r' (ground (arith, h)) (ground (arith, h')) e in
      (ap pos a, ap pos b)
  passes_unique (negsuc c) r c' r' h h' e = absurd (ground (arith, h))
  passes_unique (pos c) (negsuc r) c' r' h h' e = absurd (ground (arith, h))
  passes_unique (pos c) (pos r) (negsuc c') r' h h' e = absurd (ground (arith, h'))
  passes_unique (pos c) (pos r) (pos c') (negsuc r') h h' e = absurd (ground (arith, h'))

  -- The call for an index that was called.
  times-call :
      (map0 : ℕ → ℕ) (mapval k : ℕ) (l : List (ℤ × ℤ × F))
      → IsCalled tmp npx npy check l
      → times tmp npx npy check map0 mapval k l ≡ 1
      → (n : ℕ) × (c : ℤ) × (r : ℤ) × (v : F) × (get_elem? l n ≡ some (c, r, v))
        × (passes tmp npx npy check c r ≡ true)
        × (index npx c r ≡ k)
  unfolding times IsCalled
  times-call map0 mapval k [] called h = absurd (omega arith)
  times-call map0 mapval k ((c, r, v) ∷ l) (hit, value, called) h =
      elim (Bool-cases (index npx c r == k)) [
        | inl e ↦ (0, c, r, v, refl, hit, ==→≡ (index npx c r) k e)
        | inr e ↦
            let (n, c', r', v', at, hit', same) =
              times-call map0 mapval k l called (ground (arith, h, e)) in
            (suc n, c', r', v', at, hit', same)
      ]

module _ {F : Type 0} ⦃o : Ranked F⦄ (pix : ℕ → F) (npx npy : ℕ) (x y : ℤ) (id : ℕ) (thres : F)
    (x0 y0 : ℤ) (map : ℕ → ℕ) (fuel : ℕ) where
  -- The start is a pixel of the object, if it was not marked and is above the threshold.
  pub filled_list-start :
      id ≢ 0
      → 2 ≤ fuel
      → passes pix npx npy (flood_greaterthan thres) (x -ℤ x0) (y -ℤ y0) ≡ true
      → map (index npx (x -ℤ x0) (y -ℤ y0)) ≡ 0
      → (k : ℕ) × (v : F) × (get_elem? (filled_list pix npx npy x y id thres x0 y0 map fuel).1.pix k
          ≡ some (x, y, v))
  unfolding filled_list new_pixlist
  filled_list-start nonzero enough hit unmarked =
      let check = flood_greaterthan thres in
      let c : Canvas F = (flooded pix npx npy x y id thres x0 y0 map fuel).1 in
      let at = index npx (x -ℤ x0) (y -ℤ y0) in
      let v = doflood3r-IsFlooded pix npx npy check map id (x -ℤ x0) (y -ℤ y0) fuel nonzero in
      let painted =
        doflood3r-starts pix npx npy check map id (x -ℤ x0) (y -ℤ y0) fuel nonzero enough hit in
      elim (v.pixels at) [
        | untouched old _ ↦ absurd (painted (old ∙ unmarked))
        | marked _ _ _ _ _ _ once ↦
            let (n, cx, cy, w, there, hit', same) =
              times-call pix npx npy check map id at c.calls v.calls once in
            let (ex, ey) =
              passes_unique pix npx npy check cx cy (x -ℤ x0) (y -ℤ y0) hit' hit same in
            let (k, entry) = set_all-entry c.calls (new_pixlist id x y x0 y0) n cx cy w there in
            (k, w, rw (ex, ey, sub_add x x0, sub_add y y0) at entry)
      ]
