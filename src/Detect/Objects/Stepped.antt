-- ===== src/Detect/Objects/Stepped.antt =====
-- `detect_new3` at one pixel.
use pwrake.Prelude.{
  ℕ, suc, ◌+◌, ◌*◌, ◌≤◌, ◌<◌, ◌≡◌, ◌≢◌, ap, ◌∙◌, true, false, Option, ◌>>=◌, ReturnsUnless, lost,
  found, ReturnsUnless-of, ReturnsUnless-if, arith, ==→≡, ==→≢, ◌==◌, Returns, Returns-map,
}
use pwrake.Prelude.Int.{ℤ, pos, ◌+ℤ◌, ◌-ℤ◌}
use pwrake.Sort.Order.{Ranked, gt}
use pwrake.Paint.Fill.{Canvas, passes}
use pwrake.Paint.Flood.{doflood3r, flood_greaterthan}
use pwrake.Paint.Flood.Marks.{doflood3r-starts}
use pwrake.Paint.Shadows.{Shadows}
use pwrake.Detect.Pixels.{Pixlist, has_ended}
use pwrake.Detect.Pixels.Started.{filled_list-start}
use pwrake.Detect.Pixels.Extracted.{
  flooded, filled_list, extract_pixlist-filled_list, filled_list-IsExtracted,
}
use pwrake.Detect.Objects.{Detected, store_object, detect_pixel}
use pwrake.Detect.Objects.Found.{IsObject, IsDetected, store_object-IsDetected}
use pwrake.Detect.Objects.Grown.{add_sub, IsAbove, Grows, Grows-refl, flood-Grows}
use pwrake.Detect.Objects.Lost.{IsLostAt}

module _ {F : Type 0} ⦃o : Ranked F⦄ (pix : ℕ → F) (npx npy : ℕ) (thres : F) (npix_min : ℕ)
    (x0 y0 : ℤ) (fuel : ℕ) (enough : 2 ≤ fuel) where
  -- The state after some pixels of a row or some rows, from `st`.
  pub record Advances (covered : ℕ → Type 0) (st r : Detected F) : Type 0 where
    pub objects : IsDetected pix npx npy thres npix_min x0 y0 r
    pub grows : Grows pix npx npy thres st.map r.map
    pub whole : (k : ℕ) → covered k → IsAbove pix npx npy thres k → r.map k ≢ 0

  seed-passes :
      (i j : ℕ)
      → i < npx
      → j < npy
      → IsAbove pix npx npy thres (i + j * npx)
      → passes pix npx npy (flood_greaterthan thres) (pos i) (pos j) ≡ true
  unfolding passes flood_greaterthan
  seed-passes i j hi hj above =
      let same : i + npx * j ≡ i + j * npx = omega arith in
      ground (arith, ap (λ k. gt (pix k) thres) same, above)

  -- The flood of the pixel `(i, j)`.
  flooded_at :
      (i j id : ℕ) (m : ℕ → ℕ)
      → flooded pix npx npy (pos i +ℤ x0) (pos j +ℤ y0) id thres x0 y0 m fuel
        ≡ doflood3r pix npx npy (pos i) (pos j) (flood_greaterthan thres) m id fuel
  flooded_at i j id m =
      let flooded_from : ℤ → ℤ → Shadows × Canvas F =
        λ x y. doflood3r pix npx npy x y (flood_greaterthan thres) m id fuel in
      ap (λ x. flooded_from x (pos j +ℤ y0 -ℤ y0)) (add_sub i x0)
      ∙ ap (flooded_from (pos i)) (add_sub j y0)

  extract_map :
      (i j id : ℕ) (m : ℕ → ℕ)
      → (filled_list pix npx npy (pos i +ℤ x0) (pos j +ℤ y0) id thres x0 y0 m fuel).2
        ≡ (doflood3r pix npx npy (pos i) (pos j) (flood_greaterthan thres) m id fuel).1.map
  unfolding filled_list
  extract_map i j id m = ap (λ r. r.1.map) (flooded_at i j id m)

  stored-Advances :
      (i j : ℕ) (st : Detected F)
      → i < npx
      → j < npy
      → IsDetected pix npx npy thres npix_min x0 y0 st
      → IsAbove pix npx npy thres (i + j * npx)
      → st.map (i + j * npx) ≡ 0
      → let e =
          filled_list pix npx npy
            (pos i +ℤ x0)
            (pos j +ℤ y0)
            (st.nobj + 1)
            thres
            x0
            y0
            st.map
            fuel in
        Returns (Advances (λ k. k ≡ i + j * npx) st) (
          store_object pix npx npy thres npix_min x0 y0 fuel e.0 e.1
            (record st { map = e.2; nobj = suc st.nobj }))
  unfolding IsObject
  stored-Advances i j st hi hj v above unmarked =
      let id = st.nobj + 1 in
      let x = pos i +ℤ x0 in
      let y = pos j +ℤ y0 in
      let e = filled_list pix npx npy x y id thres x0 y0 st.map fuel in
      let nonzero : id ≢ 0 = λ z. ground arith in
      let object = filled_list-IsExtracted pix npx npy x y id thres x0 y0 st.map fuel nonzero in
      let same = extract_map i j id st.map in
      let seed = seed-passes i j hi hj above in
      let painted =
        doflood3r-starts pix npx npy (flood_greaterthan thres) st.map id (pos i) (pos j) fuel
          nonzero enough seed in
      let order : i + npx * j ≡ i + j * npx = omega arith in
      let start =
        filled_list-start pix npx npy x y id thres x0 y0 st.map fuel nonzero enough
          (rw (add_sub i x0, add_sub j y0) seed)
          (rw (add_sub i x0, add_sub j y0, order) unmarked) in
      Returns-map
        (store_object-IsDetected pix npx npy thres npix_min x0 y0 fuel e.0 e.1
          (record st { map = e.2; nobj = suc st.nobj }) object.count (x, y, id, e.0, object, start)
          (record { kept = v.kept; edged = v.edged }))
        λ r (objects, kept_map). record {
          objects = objects;
          grows =
              rw (kept_map, same)
                (flood-Grows pix npx npy thres st.map id (pos i) (pos j) fuel nonzero);
          whole = λ k at _. rw (kept_map, same, at, ← order) painted;
        }

  abbrev LostAt : ℕ → ℕ → Detected F → Type 0
  LostAt = IsLostAt pix npx npy thres npix_min x0 y0 fuel

  fresh-Advances :
      (i j : ℕ) (st : Detected F)
      → i < npx
      → j < npy
      → IsDetected pix npx npy thres npix_min x0 y0 st
      → IsAbove pix npx npy thres (i + j * npx)
      → st.map (i + j * npx) ≡ 0
      → (extraction : Option (ℕ × Pixlist F × (ℕ → ℕ)))
      → let id = st.nobj + 1 in
        let x = pos i +ℤ x0 in
        let y = pos j +ℤ y0 in
        ReturnsUnless
          (has_ended (flooded pix npx npy x y id thres x0 y0 st.map fuel).0 ≡ false)
          (λ r. r ≡ filled_list pix npx npy x y id thres x0 y0 st.map fuel)
          extraction
        → ReturnsUnless (LostAt i j st) (Advances (λ k. k ≡ i + j * npx) st) (
            extraction >>= λ r.
            store_object pix npx npy thres npix_min x0 y0 fuel r.0 r.1
              (record st { map = r.2; nobj = suc st.nobj }))
  fresh-Advances i j st hi hj v above unmarked _ (lost bad) = lost (record {
    above = above;
    unmarked = unmarked;
    bad = rw (flooded_at i j (st.nobj + 1) st.map) at bad;
  })
  fresh-Advances i j st hi hj v above unmarked _ (found same) =
      rw (◌>>=◌, same) (ReturnsUnless-of (stored-Advances i j st hi hj v above unmarked))

  pub detect_pixel-Advances :
      (i j : ℕ) (st : Detected F)
      → i < npx
      → j < npy
      → IsDetected pix npx npy thres npix_min x0 y0 st
      → ReturnsUnless
          (LostAt i j st)
          (Advances (λ k. k ≡ i + j * npx) st)
          (detect_pixel pix npx npy thres npix_min x0 y0 fuel j i st)
  unfolding detect_pixel
  detect_pixel-Advances i j st hi hj v =
      ReturnsUnless-if (gt (pix (i + j * npx)) thres)
        (λ above.
          ReturnsUnless-if (st.map (i + j * npx) == 0)
            (λ unmarked. fresh-Advances i j st hi hj v above (==→≡ _ _ unmarked) _ (
              extract_pixlist-filled_list pix npx npy (pos i +ℤ x0) (pos j +ℤ y0) (st.nobj + 1)
                thres x0 y0 st.map fuel))
            (λ old. found (record {
              objects = v;
              grows = Grows-refl pix npx npy thres st.map;
              whole = λ k at _ z. ==→≢ _ _ old (ground (arith, ap st.map at, z));
            })))
        (λ below. found (record {
          objects = v;
          grows = Grows-refl pix npx npy thres st.map;
          whole =
              λ k at above. absurd (ground (arith, ap (λ n. gt (pix n) thres) at, above, below));
        }))
