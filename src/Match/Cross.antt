-- ===== src/Match/Cross.antt =====
-- `xmatch`: each source's nearest source of the other catalog.
pub mod Outcomes
pub mod Nearest
use pwrake.Prelude.{ℕ, zero, suc, ◌+◌, Bool, List, [], ◌∷◌, Option, none, some, map, if◌then◌else◌}
use pwrake.Sort.Order.{Ranked, lt}
use pwrake.Match.Rows.{CatalogRow, Trig}

module _ {F : Type 0} (t : Trig F) where
  open t use {mul, add, cos, sin, acos, d2r, half_turn}

  -- The angle between two positions, `acos(x1*x2 + y1*y2 + z1*z2)`.
  pub angle : CatalogRow F → CatalogRow F → F
  angle c1 c2 =
      let cos_lat1 = cos (mul c1.lat d2r) in
      let x1 = mul cos_lat1 (cos (mul c1.lon d2r)) in
      let y1 = mul cos_lat1 (sin (mul c1.lon d2r)) in
      let z1 = sin (mul c1.lat d2r) in
      let cos_lat2 = cos (mul c2.lat d2r) in
      let x2 = mul cos_lat2 (cos (mul c2.lon d2r)) in
      let y2 = mul cos_lat2 (sin (mul c2.lon d2r)) in
      let z2 = sin (mul c2.lat d2r) in acos (add (add (mul x1 x2) (mul y1 y2)) (mul z1 z2))

  -- `min_ang = 180; min_idx = -1;`
  pub clear_match : CatalogRow F → CatalogRow F
  clear_match c = record c { min_ang = half_turn; min_idx = none }

module _ {F : Type 0} ⦃o : Ranked F⦄ (t : Trig F) (tol_ang : F) where
  -- The two nested tests on one row: `d < tol_ang`, and `d < min_ang`.
  pub consider : ℕ → F → CatalogRow F → CatalogRow F
  consider k d c =
      if lt d tol_ang
      then if lt d c.min_ang then record c { min_ang = d; min_idx = some k } else c
      else c

  -- The loop over `j`, with `j` and the rows of the second catalog from there on.
  pub match_row : ℕ → CatalogRow F → ℕ → List (CatalogRow F) → CatalogRow F × List (CatalogRow F)
  unfolding angle consider
  match_row i c1 j [] = (c1, [])
  match_row i c1 j (c2 ∷ cat2) =
      let d = angle t c1 c2 in
      let (c1', cat2') = match_row i (consider j d c1) (suc j) cat2 in
      (c1', consider i d c2 ∷ cat2')

  -- The loop over `i`.
  pub match_rows :
      ℕ → List (CatalogRow F) → List (CatalogRow F) → List (CatalogRow F) × List (CatalogRow F)
  unfolding match_row
  match_rows i [] cat2 = ([], cat2)
  match_rows i (c1 ∷ cat1) cat2 =
      let (c1', cat2') = match_row i c1 0 cat2 in
      let (cat1', cat2'') = match_rows (suc i) cat1 cat2' in (c1' ∷ cat1', cat2'')

  unfoldable pub xmatch :
      List (CatalogRow F) → List (CatalogRow F) → List (CatalogRow F) × List (CatalogRow F)
  unfolding match_rows clear_match
  xmatch cat1 cat2 = match_rows 0 (map (clear_match t) cat1) (map (clear_match t) cat2)
