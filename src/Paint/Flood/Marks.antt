-- ===== src/Paint/Flood/Marks.antt =====
-- What a flood writes, however many turns it is given.
use pwrake.Prelude.{
  ℕ, suc, ◌+◌, ◌≤◌, ◌≡◌, ◌≢◌, refl, ap, inl, inr, Bool, Bool-cases, true, false, List, [], ◌∷◌,
  arith, length, ◌==◌, ==→≡, if◌then◌else◌,
}
use pwrake.Prelude.Int.{ℤ}
use pwrake.Paint.Fill.{Canvas, update, index, mark, passes}
use pwrake.Paint.Fill.Touched.{flood-keeps}
use pwrake.Paint.Fill.Seed.{flood-starts}
use pwrake.Paint.Flood.{doflood3r}

module _ {F : Type 0} (tmp : ℕ → F) (npx npy : ℕ) (check : F → Bool) where
  -- Each call is for a pixel that passes, with the pixel's value.
  unfoldable pub IsCalled : List (ℤ × ℤ × F) → Type 0
  IsCalled [] = Unit
  IsCalled ((col, row, v) ∷ l) =
      (passes tmp npx npy check col row ≡ true) × (v ≡ tmp (index npx col row)) × IsCalled l

module _ {F : Type 0} (tmp : ℕ → F) (npx npy : ℕ) (check : F → Bool) (map0 : ℕ → ℕ)
    (mapval : ℕ) where
  -- How often the pixel of the index `k` was handed to `setfunc`.
  unfoldable pub times : ℕ → List (ℤ × ℤ × F) → ℕ
  times k [] = 0
  times k ((col, row, v) ∷ l) = (if index npx col row == k then 1 else 0) + times k l

  -- A pixel is as it was, or it was zero, passes, has the value `mapval` and one call.
  pub data IsMarked (k : ℕ) (c : Canvas F) : Type 0 where
    untouched : c.map k ≡ map0 k → times k c.calls ≡ 0 → IsMarked k c
    marked :
        (col row : ℤ)
        → index npx col row ≡ k
        → passes tmp npx npy check col row ≡ true
        → map0 k ≡ 0
        → c.map k ≡ mapval
        → times k c.calls ≡ 1
        → IsMarked k c

  pub record IsFlooded (c : Canvas F) : Type 0 where
    pub pixels : (k : ℕ) → IsMarked k c
    pub calls : IsCalled tmp npx npy check c.calls
    pub count : c.npix ≡ length c.calls

  module _ (nonzero : mapval ≢ 0) (col row : ℤ) (c : Canvas F)
      (hit : passes tmp npx npy check col row ≡ true) where
    abbrev idx : ℕ
    idx = index npx col row

    abbrev after : Canvas F
    after = record {
      npix = suc c.npix;
      map = update c.map idx mapval;
      calls = (col, row, tmp idx) ∷ c.calls;
    }

    same_pixel :
        (k : ℕ) → (c.map idx == 0) ≡ true → (idx == k) ≡ true → IsMarked k c → IsMarked k after
    unfolding times
    same_pixel k zero_before same (untouched old none_yet) =
        let here : idx ≡ k = ==→≡ idx k same in
        marked col row here hit (ground (arith, ap c.map here)) (ground arith) (ground arith)
    same_pixel k zero_before same (marked _ _ _ _ _ set _) =
        let here : idx ≡ k = ==→≡ idx k same in absurd (nonzero (ground (arith, ap c.map here)))

    other_pixel : (k : ℕ) → (idx == k) ≡ false → IsMarked k c → IsMarked k after
    unfolding times
    other_pixel k differs (untouched old none_yet) = untouched (ground arith) (ground arith)
    other_pixel k differs (marked col' row' at hit' was set once) =
        marked col' row' at hit' was (ground arith) (ground arith)

    mark-IsFlooded : IsFlooded c → IsFlooded (mark mapval idx col row (tmp idx) c)
    unfolding mark IsCalled
    mark-IsFlooded v = elim (Bool-cases (c.map idx == 0)) [
      | inl e ↦ rw e (record {
        pixels = λ k. elim (Bool-cases (idx == k)) [
          | inl s ↦ same_pixel k e s (v.pixels k)
          | inr s ↦ other_pixel k s (v.pixels k)
        ];
        calls = (hit, refl, v.calls);
        count = omega (arith, v.count);
      })
      | inr e ↦ rw e v
    ]

  -- However many turns the loops take, every pixel is as it was, with no call, or it was zero,
  -- lies inside the image, passes the test, has the value `mapval` and got one call; each call
  -- has its pixel's value; the returned number is that of the calls.
  pub doflood3r-IsFlooded :
      (x y : ℤ) (fuel : ℕ)
      → mapval ≢ 0
      → IsFlooded (doflood3r tmp npx npy x y check map0 mapval fuel).1
  unfolding doflood3r IsCalled times
  doflood3r-IsFlooded x y fuel nonzero =
      flood-keeps tmp npx npy check (mark mapval) IsFlooded
        (λ col row c hit v. mark-IsFlooded nonzero col row c hit v) fuel x y map0
        (record { pixels = λ k. untouched refl refl; calls = _; count = refl })

  -- Two turns paint the pixel that the flood starts from.
  pub doflood3r-starts :
      (x y : ℤ) (fuel : ℕ)
      → mapval ≢ 0
      → 2 ≤ fuel
      → passes tmp npx npy check x y ≡ true
      → (doflood3r tmp npx npy x y check map0 mapval fuel).1.map (index npx x y) ≢ 0
  unfolding doflood3r mark
  doflood3r-starts x y fuel nonzero enough hit =
      flood-starts tmp npx npy check (mark mapval) (λ c. c.map (index npx x y) ≢ 0)
        (λ col row c _ old. ground (arith, old)) x y hit (λ c. ground (arith, nonzero)) fuel map0
        enough
