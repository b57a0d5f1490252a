-- ===== src/Paint/Fill.antt =====
-- `visitShadow3r`, `doflood3r` and their variants.
pub mod Touched
pub mod Alike
pub mod Seed
use pwrake.Prelude.{
  ℕ, zero, suc, ◌+◌, ◌*◌, Bool, true, false, ◌&&◌, List, [], ◌∷◌, Option, none, some, ltb, ◌==◌,
  if◌then◌else◌,
}
use pwrake.Prelude.Int.{ℤ, pos, ◌+ℤ◌, ◌-ℤ◌, pos_part, neg_part, ltb_ℤ, leb_ℤ, eqb_ℤ}
use pwrake.Sort.Order.{Ranked, gt, ge, lt}
use pwrake.Paint.Shadows.{Shadow, Shadows, new_shadow, make_row, make_shadows}

-- The map, the pixels counted, and the calls of `setfunc`, the last one first.
pub record Canvas (F : Type 0) : Type 0 where
  pub map : ℕ → ℕ
  pub npix : ℕ
  pub calls : List (ℤ × ℤ × F)

abbrev pub update : (ℕ → ℕ) → ℕ → ℕ → ℕ → ℕ
update f k v j = if j == k then v else f j

-- An image is a function of the index; `Inside` is the test that guards each access.
abbrev pub inside : ℕ → ℕ → ℤ → ℤ → Bool
inside npx npy col row =
    ltb_ℤ col (pos npx) && leb_ℤ (pos 0) col && leb_ℤ (pos 0) row && ltb_ℤ row (pos npy)

abbrev pub index : ℕ → ℤ → ℤ → ℕ
index npx col row = pos_part col + npx * pos_part row

-- `if (map[idx]==0) { npix++; map[idx]=mapval; setfunc(col,row,tmp[idx],result); }`
unfoldable pub mark : {F : Type 0} → ℕ → ℕ → ℤ → ℤ → F → Canvas F → Canvas F
mark mapval idx col row v c =
    if c.map idx == 0
    then record {
      npix = suc c.npix;
      map = update c.map idx mapval;
      calls = (col, row, v) ∷ c.calls;
    }
    else c

-- `if (map[idx]==0) npix++; map[idx]=1;`
unfoldable pub mark2 : {F : Type 0} → ℕ → ℤ → ℤ → F → Canvas F → Canvas F
mark2 idx col row v c = record c {
  npix = if c.map idx == 0 then suc c.npix else c.npix;
  map = update c.map idx 1;
}

-- The test of a pixel, which reads `tmp` only inside the image.
unfoldable pub passes : {F : Type 0} → (ℕ → F) → ℕ → ℕ → (F → Bool) → ℤ → ℤ → Bool
passes tmp npx npy check col row = inside npx npy col row && check (tmp (index npx col row))

abbrev pub is_done : Shadows → Bool
is_done w = elim w.rows [ [] ↦ elim w.pend [ [] ↦ true | s ∷ l ↦ false ] | s ∷ l ↦ false ]

abbrev pub no_shadows : Shadows
no_shadows = record { curr_row = pos 0; rows = []; pend = []; free = []; crashed = false }

module _ {F : Type 0} (tmp : ℕ → F) (npx npy : ℕ) (check : F → Bool)
    (touch : ℕ → ℤ → ℤ → F → Canvas F → Canvas F) where
  abbrev pub touch_at : ℤ → ℤ → Canvas F → Canvas F
  touch_at col row c = touch (index npx col row) col row (tmp (index npx col row)) c

  -- `while (...) { ...; lft--; }`: no more than `npx` columns pass.
  pub walk_left : ℕ → ℤ → ℤ → Canvas F → ℤ × Canvas F
  unfolding passes
  walk_left zero row col c = (col, c)
  walk_left (suc fuel) row col c = elim (passes tmp npx npy check col row) [
    | true ↦ walk_left fuel row (col -ℤ pos 1) (touch_at col row c)
    | false ↦ (col, c)
  ]

  -- `while (...) { ...; col++; }`
  pub walk_right : ℕ → ℤ → ℤ → Canvas F → ℤ × Canvas F
  unfolding passes
  walk_right zero row col c = (col, c)
  walk_right (suc fuel) row col c = elim (passes tmp npx npy check col row) [
    | true ↦ walk_right fuel row (col +ℤ pos 1) (touch_at col row c)
    | false ↦ (col, c)
  ]

  -- The body of the loop over a seed's columns at a pixel that passes: the run's ends and marks.
  pub paint_run : Shadow → ℤ → ℤ → Canvas F → ℤ × ℤ × Canvas F
  unfolding walk_left walk_right
  paint_run seed row col c =
      let c1 = touch_at col row c in
      let (l, c2) = walk_left (suc npx) row (col -ℤ pos 1) c1 in
      let (lft, c3) = if eqb_ℤ col seed.lft then (l +ℤ pos 1, c2) else (col, c1) in
      let (rgt, c4) = walk_right (suc npx) row (col +ℤ pos 1) c3 in (lft, rgt, c4)

  -- `for (col=seedShadow->lft; col<=seedShadow->rgt; col++)`, with a bound on the rounds.
  pub visit_from : ℕ → Shadow → ℤ → Shadows → Canvas F → Shadows × Canvas F
  unfolding paint_run make_shadows
  visit_from zero seed col w c = (w, c)
  visit_from (suc fuel) seed col w c =
      let (lft, rgt, c') = paint_run seed w.curr_row col c in
      let run = visit_from fuel seed (rgt +ℤ pos 1) (make_shadows seed lft (rgt -ℤ pos 1) w) c' in
      let skip = visit_from fuel seed (col +ℤ pos 1) w c in
      if leb_ℤ col seed.rgt
      then if passes tmp npx npy check col w.curr_row then run else skip
      else (w, c)

  -- Each round moves on by a column or more.
  pub visit_shadow : Shadow → Shadows → Canvas F → Shadows × Canvas F
  unfolding visit_from
  visit_shadow seed w c =
      visit_from (suc (pos_part (seed.rgt -ℤ seed.lft +ℤ pos 1))) seed seed.lft w c

  -- One turn of the two nested loops: the next seed of the row, or the next row.
  pub turn : Shadows → Canvas F → Shadows × Canvas F
  unfolding visit_shadow make_row
  turn w c = elim w.rows [
    | [] ↦ (make_row w, c)
    | seed ∷ rest ↦
        let popped = record w { rows = rest } in
        let (w', c') = if seed.is_ok then visit_shadow seed popped c else (popped, c) in
        (record w' { free = seed ∷ w'.free }, c')
  ]

  -- The state after at most `fuel` turns.
  pub turns : ℕ → Shadows → Canvas F → Shadows × Canvas F
  unfolding turn
  turns zero w c = (w, c)
  turns (suc fuel) w c =
      let more = (let (w', c') = turn w c in turns fuel w' c') in if is_done w then (w, c) else more

  unfoldable pub flood : ℕ → ℤ → ℤ → (ℕ → ℕ) → Shadows × Canvas F
  unfolding turns new_shadow
  flood fuel x y map =
      turns fuel (new_shadow x x y y no_shadows) (record { map = map; npix = 0; calls = [] })
