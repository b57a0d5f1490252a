-- ===== src/Detect/Pixels/Extracted.antt =====
-- What an filled_list object holds.
use pwrake.Prelude.{
  ℕ, ◌≡◌, ◌≢◌, refl, ap, ◌∙◌, inl, inr, Bool, Bool-cases, true, false, some, none, ReturnsUnless,
  lost, found, ReturnsUnless-map, ◌>>=◌, List, [], ◌∷◌, ◌++◌, arith,
}
use pwrake.Prelude.Int.{ℤ, ◌+ℤ◌, ◌-ℤ◌}
use pwrake.Sort.Order.{Ranked}
use pwrake.Paint.Shadows.{Shadows}
use pwrake.Paint.Fill.{Canvas, index, passes}
use pwrake.Paint.Flood.{doflood3r, flood_greaterthan}
use pwrake.Paint.Flood.Marks.{IsCalled, doflood3r-IsFlooded}
use pwrake.Detect.Pixels.{Pixlist, npix_of, with_pix, has_ended, new_pixlist, extract_pixlist}
use pwrake.Detect.Pixels.Box.{
  min_of, max_of, IsBoxed, set_all, set_calls-set_all, set_all-IsBoxed, set_all-npix, set_all-same,
}

module _ {F : Type 0} (pix : ℕ → F) (npx npy : ℕ) (check : F → Bool) (x0 y0 : ℤ) where
  -- Each entry is a pixel of the image that passes, in the coordinates of the whole image.
  pub IsImaged : List (ℤ × ℤ × F) → Type 0
  IsImaged [] = Unit
  IsImaged ((px, py, v) ∷ l) =
      ((col : ℤ) × (row : ℤ) × (px ≡ col +ℤ x0)
        × (py ≡ row +ℤ y0)
        × (passes pix npx npy check col row ≡ true)
        × (v ≡ pix (index npx col row)))
      × IsImaged l

  IsImaged-append : (l r : List (ℤ × ℤ × F)) → IsImaged l → IsImaged r → IsImaged (l ++ r)
  unfolding IsImaged
  IsImaged-append [] r hl hr = hr
  IsImaged-append (p ∷ l) r (h, hl) hr = (h, IsImaged-append l r hl hr)

  set_all-IsImaged :
      (calls : List (ℤ × ℤ × F)) (pl : Pixlist F)
      → pl.x0 ≡ x0
      → pl.y0 ≡ y0
      → IsImaged pl.pix
      → IsCalled pix npx npy check calls
      → IsImaged (set_all calls pl).pix
  unfolding IsImaged IsCalled set_all with_pix
  set_all-IsImaged [] pl ex ey old called = old
  set_all-IsImaged ((x, y, v) ∷ calls) pl ex ey old (hit, value, called) =
      let (sx, sy, _) = set_all-same calls pl in
      IsImaged-append (set_all calls pl).pix _ (set_all-IsImaged calls pl ex ey old called)
        ((x, y, ap (◌+ℤ◌ x) (sx ∙ ex), ap (◌+ℤ◌ y) (sy ∙ ey), hit, value), _)

-- What `extract_pixlist` returns for a pixel `(x, y)`: the number of pixels, the object, the map.
pub record IsExtracted {F : Type 0} (pix : ℕ → F) (npx npy : ℕ) (check : F → Bool) (x y x0 y0 : ℤ)
    (id : ℕ) (n : ℕ) (pl : Pixlist F) : Type 0 where
  pub count : n ≡ npix_of pl
  pub number : pl.entnum ≡ id
  pub pixels : IsImaged pix npx npy check x0 y0 pl.pix
  pub box : IsBoxed x y pl

module _ {F : Type 0} ⦃o : Ranked F⦄ (pix : ℕ → F) (npx npy : ℕ) (x y : ℤ) (id : ℕ) (thres : F)
    (x0 y0 : ℤ) (map : ℕ → ℕ) (fuel : ℕ) where
  abbrev pub flooded : Shadows × Canvas F
  flooded = doflood3r pix npx npy (x -ℤ x0) (y -ℤ y0) (flood_greaterthan thres) map id fuel

  -- What `extract_pixlist` returns after a flood that has ended.
  unfoldable pub filled_list : ℕ × Pixlist F × (ℕ → ℕ)
  unfolding set_all new_pixlist
  filled_list =
      let pl = set_all flooded.1.calls (new_pixlist id x y x0 y0) in
      (flooded.1.npix, record pl { nalloc = npix_of pl }, flooded.1.map)

  extract_pixlist-ended :
      has_ended flooded.0 ≡ true
      → extract_pixlist pix npx npy x y id thres x0 y0 map fuel ≡ some filled_list
  unfolding extract_pixlist filled_list new_pixlist
  extract_pixlist-ended e =
      let all = (set_calls-set_all flooded.1.calls (new_pixlist id x y x0 y0) (omega arith)).0 in
      rw (e, all, ◌>>=◌) refl

  extract_pixlist-lost :
      has_ended flooded.0 ≡ false → extract_pixlist pix npx npy x y id thres x0 y0 map fuel ≡ none
  unfolding extract_pixlist
  extract_pixlist-lost e = rw e refl

  pub extract_pixlist-filled_list :
      ReturnsUnless
        (has_ended flooded.0 ≡ false)
        (λ r. r ≡ filled_list)
        (extract_pixlist pix npx npy x y id thres x0 y0 map fuel)
  extract_pixlist-filled_list = elim (Bool-cases (has_ended flooded.0)) [
    | inl e ↦ rw (extract_pixlist-ended e) (found refl)
    | inr e ↦ rw (extract_pixlist-lost e) (lost e)
  ]

  pub filled_list-IsExtracted :
      id ≢ 0
      → IsExtracted pix npx npy (flood_greaterthan thres) x y x0 y0 id filled_list.0 filled_list.1
  unfolding filled_list new_pixlist IsImaged min_of max_of
  filled_list-IsExtracted nonzero =
      let check = flood_greaterthan thres in
      let c = flooded.1 in
      let v = doflood3r-IsFlooded pix npx npy check map id (x -ℤ x0) (y -ℤ y0) fuel nonzero in
      let start = new_pixlist id x y x0 y0 in
      let box =
        set_all-IsBoxed x y c.calls start
          (record { left = refl; right = refl; bottom = refl; top = refl }) in
      record {
        count = omega (arith, v.count, set_all-npix c.calls start);
        number = (set_all-same c.calls start).2;
        pixels = set_all-IsImaged pix npx npy check x0 y0 c.calls start refl refl _ v.calls;
        box = record { left = box.left; right = box.right; bottom = box.bottom; top = box.top };
      }

  -- Unless the flood follows a null pointer or does not end within its turns: the returned number is
  -- that of the object's pixels, each of which lies in the image, is above the threshold and carries its
  -- value, the arrays had room for them, and the box is that of the start and the pixels.
  pub extract_pixlist-IsExtracted :
      id ≢ 0
      → ReturnsUnless
          (has_ended flooded.0 ≡ false)
          (λ r. IsExtracted pix npx npy (flood_greaterthan thres) x y x0 y0 id r.0 r.1)
          (extract_pixlist pix npx npy x y id thres x0 y0 map fuel)
  extract_pixlist-IsExtracted nonzero =
      ReturnsUnless-map extract_pixlist-filled_list
        (λ r same. rw (same) (filled_list-IsExtracted nonzero))
