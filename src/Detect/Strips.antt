-- ===== src/Detect/Strips.antt =====
-- `detect_full_new3`: the objects that the strip before left at its last row are extended into this
-- strip and merged, and the strip's other objects are detected.
use pwrake.Prelude.{
  ℕ, zero, suc, ◌+◌, ◌-◌, ◌*◌, Bool, not, ◌&&◌, List, [], ◌∷◌, ◌++◌, map, Option, none, some,
  length, get_elem?, write, ltb, leb, ◌==◌, if◌then◌else◌, ◌>>=◌,
}
use pwrake.Prelude.Int.{ℤ, pos, ◌+ℤ◌, ◌-ℤ◌, leb_ℤ, ltb_ℤ, eqb_ℤ, pos_part}
use pwrake.Sort.Order.{Ranked, gt}
use pwrake.Paint.Fill.{update, inside, index}
use pwrake.Paint.Flood.{doflood3r, flood_greaterthan}
use pwrake.Detect.Pixels.{Pixlist, npix_of, has_ended, set_calls, merge_pixlist}
use pwrake.Detect.Objects.{detect_new3}
use pwrake.Detect.Simple.{swap_out}
pub mod Rebuilt

-- While the object `pl` is extended: `NULL` in `edge` is `none`, and the object's own entry of
-- `edge` is written back when it is done.
pub record Extending (F : Type 0) : Type 0 where
  pub pl : Pixlist F
  pub edge : List (Option (Pixlist F))
  pub map : ℕ → ℕ

-- What the strip leaves: the objects that end, and those that reach its last row.
pub record Strip (F : Type 0) : Type 0 where
  pub out : List (Pixlist F)
  pub edge : List (Option (Pixlist F))

module _ {F : Type 0} ⦃o : Ranked F⦄ (pix : ℕ → F) (npx npy : ℕ) (thres : F) (npix_min : ℕ)
    (x0 y0 : ℤ) (fuel : ℕ) where
  -- `map[idx]==0`: the flood of the pixel `(x, 0)` into the object.
  pub extend_fill : ℕ → ℤ → Extending F → Option (Extending F)
  extend_fill id x st =
      let (w, c) = doflood3r pix npx npy x (pos 0) (flood_greaterthan thres) st.map id fuel in
      let done = (do
        pl ← set_calls c.calls (record st.pl { x0 = x0; y0 = y0 })
        some (record st { pl = pl; map = c.map })) in
      if has_ended w then done else none

  -- The object `k + 1` is absorbed, unless it has been.
  pub extend_merge : ℕ → Extending F → Option (Extending F)
  extend_merge k st = do
    other ← get_elem? st.edge k
    edge ← write st.edge k none
    some (elim other [
      | none ↦ st
      | some src ↦ record st { pl = merge_pixlist st.pl src; edge = edge }
    ])

  -- One round of the loop over the pixels that the object had: those of its last row are
  -- continued in the first row of the strip.
  pub extend_pixel : ℕ → ℤ → ℤ × ℤ × F → Extending F → Option (Extending F)
  unfolding extend_fill extend_merge
  extend_pixel id ymax (px, py, v) st =
      let x = px -ℤ x0 in
      let idx = pos_part x in
      let touched =
        if st.map idx == id
        then some st
        else if st.map idx == 0
        then extend_fill id x st
        else extend_merge (st.map idx - 1) st in
      let above = if gt (pix idx) thres then touched else some st in
      let access = if leb_ℤ (pos 0) x && ltb idx (npx * npy) then above else none in
      if eqb_ℤ py ymax then access else some st

  pub extend_pixels : ℕ → ℤ → List (ℤ × ℤ × F) → Extending F → Option (Extending F)
  unfolding extend_pixel
  extend_pixels id ymax [] st = some st
  extend_pixels id ymax (p ∷ l) st = extend_pixel id ymax p st >>= extend_pixels id ymax l

  -- All pixels of the object that lie in the strip get its number.
  pub mark_pixels : ℕ → List (ℤ × ℤ × F) → (ℕ → ℕ) → ℕ → ℕ
  mark_pixels id [] map = map
  mark_pixels id ((px, py, v) ∷ l) map =
      let x = px -ℤ x0 in
      let y = py -ℤ y0 in
      mark_pixels id l (if inside npx npy x y then update map (index npx x y) id else map)

  -- One round of the loop over the old objects; `NULL` would be followed there.
  pub extend_object :
      ℕ → List (Option (Pixlist F)) × (ℕ → ℕ) → Option (List (Option (Pixlist F)) × (ℕ → ℕ))
  unfolding extend_pixels mark_pixels
  extend_object n (edge, map) = do
    entry ← get_elem? edge n
    pl ← entry
    let start : Extending F = record { pl = record pl { entnum = suc n }; edge = edge; map = map }
    st ← extend_pixels (suc n) pl.ymax pl.pix start
    edge' ← write st.edge n (some st.pl)
    some (edge', mark_pixels (suc n) st.pl.pix st.map)

  -- `for(n=0;n<nobj0;n++)`, with the rounds left.
  pub extend_objects :
      ℕ → ℕ → List (Option (Pixlist F)) × (ℕ → ℕ) → Option (List (Option (Pixlist F)) × (ℕ → ℕ))
  unfolding extend_object
  extend_objects zero n st = some st
  extend_objects (suc left) n st = extend_object n st >>= extend_objects left (suc n)

  -- An old object that does not reach the last row is kept if it has more than `npix_min` pixels.
  pub finish_object : Pixlist F → List (Pixlist F) → List (Pixlist F)
  finish_object pl out =
      if ltb npix_min (npix_of pl) then out ++ record pl { entnum = suc (length out) } ∷ [] else out

  -- The loop that rebuilds the array of the edged objects.
  pub rebuild : ℕ → ℕ → List (Option (Pixlist F)) → List (Pixlist F) → Option (Strip F)
  unfolding finish_object
  rebuild zero n edge out =
      if ltb n (length edge) then none else some (record { out = out; edge = edge })
  rebuild (suc rounds) n edge out =
      let round = do
        entry ← get_elem? edge n
        let absorbed = swap_out n edge >>= λ edge'. rebuild rounds n edge' out
        let next = rebuild rounds (suc n) edge out
        elim entry [
          | none ↦ absorbed
          | some pl ↦
              let ended =
                swap_out n edge >>= λ edge'. rebuild rounds n edge' (finish_object pl out) in
              if eqb_ℤ pl.ymax (y0 +ℤ pos npy -ℤ pos 1) then next else ended
        ]
      in if ltb n (length edge) then round else some (record { out = out; edge = edge })

  unfoldable pub detect_full_new3 : List (Option (Pixlist F)) → Option (Strip F)
  unfolding extend_objects rebuild
  detect_full_new3 pl_edge = do
    (edge, marks) ← extend_objects (length pl_edge) 0 (pl_edge, λ k. 0)
    old ← rebuild (length edge) 0 edge []
    new ← detect_new3 pix npx npy thres npix_min x0 y0 fuel marks
    some (record {
      out = old.out ++ new.kept.objects;
      edge = old.edge ++ map some new.edged.objects;
    })
