-- ===== src/Paint/Shadows.antt =====
-- The lists of shadows. A node stands in one list at a time, so the lists are values here, with
-- what a node holds; `free` keeps the nodes that `newShadow` takes before it allocates.
pub mod Rows
use pwrake.Prelude.{Bool, true, false, List, [], ◌∷◌, Option, none, some, if◌then◌else◌, ◌>>=◌}
use pwrake.Prelude.Int.{ℤ, pos, ◌+ℤ◌, ◌-ℤ◌, ltb_ℤ, leb_ℤ, eqb_ℤ}

pub record Shadow : Type 0 where
  pub lft : ℤ
  pub rgt : ℤ
  pub row : ℤ
  pub par : ℤ
  pub is_ok : Bool

-- `currRow`, and the lists; `crashed` records that a null pointer was followed.
pub record Shadows : Type 0 where
  pub curr_row : ℤ
  pub rows : List Shadow
  pub pend : List Shadow
  pub free : List Shadow
  pub crashed : Bool

abbrev pub tail_or_nil : List Shadow → List Shadow
tail_or_nil [] = []
tail_or_nil (s ∷ l) = l

unfoldable pub new_shadow : ℤ → ℤ → ℤ → ℤ → Shadows → Shadows
new_shadow slft srgt srow prow w = record w {
  free = tail_or_nil w.free;
  pend = record { lft = slft; rgt = srgt; row = srow; par = prow; is_ok = true } ∷ w.pend;
}

-- The `else` of `makerow`: `s` goes before the first entry behind the head that is not left of it.
pub insert_behind : Shadow → List Shadow → List Shadow
insert_behind s [] = s ∷ []
insert_behind s (u ∷ l) = if leb_ℤ s.lft u.lft then s ∷ u ∷ l else u ∷ insert_behind s l

pub insert_row : Shadow → List Shadow → List Shadow
unfolding insert_behind
insert_row s [] = s ∷ []
insert_row s (u ∷ l) = if leb_ℤ s.lft u.lft then s ∷ u ∷ l else u ∷ insert_behind s l

abbrev pub is_nil : List Shadow → Bool
is_nil [] = true
is_nil (s ∷ l) = false

-- One round of the loop of `makerow`, for the node `s`.
pub sort_in : Shadow → Shadows → Shadows
unfolding insert_row
sort_in s w =
    if s.is_ok
    then if is_nil w.rows
      then record w { curr_row = s.row; rows = s ∷ [] }
      else if eqb_ℤ s.row w.curr_row
      then record w { rows = insert_row s w.rows }
      else record w { pend = s ∷ w.pend }
    else record w { free = s ∷ w.free }

pub make_row_from : List Shadow → Shadows → Shadows
unfolding sort_in
make_row_from [] w = w
make_row_from (s ∷ l) w = make_row_from l (sort_in s w)

unfoldable pub make_row : Shadows → Shadows
unfolding make_row_from
make_row w = make_row_from w.pend (record w { pend = [] })

pub clip_shadow : ℤ → ℤ → ℤ → Shadow → Shadows → Shadows
unfolding new_shadow
clip_shadow lft rgt row line w =
    let left =
      if ltb_ℤ lft (line.lft -ℤ pos 1)
      then new_shadow lft (line.lft -ℤ pos 2) row line.row w
      else w in
    if ltb_ℤ (line.rgt +ℤ pos 1) rgt
    then new_shadow (line.rgt +ℤ pos 2) rgt row line.row left
    else left

-- `for (chld=pendHead; chld->row != rw->par; chld=chld->next);` with the list in which that node
-- has lost its `OK`; `none` is a null pointer.
pub take_child : ℤ → List Shadow → Option (Shadow × List Shadow)
take_child par [] = none
take_child par (c ∷ l) =
    let later = (do (chld, l') ← take_child par l; some (chld, c ∷ l')) in
    if eqb_ℤ c.row par then some (c, record c { is_ok = false } ∷ l) else later

-- The node `rw` of the row, and the lists, after `removeOverlap`. The child's `OK` is cleared
-- before the clipping, which does not read it.
pub remove_overlap : Shadow → Shadows → Shadow × Shadows
unfolding take_child clip_shadow
remove_overlap rw w = elim (take_child rw.par w.pend) [
  | none ↦ (rw, record w { crashed = true })
  | some (chld, pend') ↦ (
    if ltb_ℤ (chld.rgt +ℤ pos 1) rw.rgt
        then record rw { lft = chld.rgt +ℤ pos 2 }
        else record rw { is_ok = false },
    clip_shadow chld.lft chld.rgt chld.row rw (record w { pend = pend' }),
  )
]

-- `for (p=rowHead; (p!=NULL)&&(p->lft<=rgt); p=p->next)`
pub remove_overlaps : ℤ → List Shadow → Shadows → List Shadow × Shadows
unfolding remove_overlap
remove_overlaps rgt [] w = ([], w)
remove_overlaps rgt (p ∷ l) w =
    let (p', w') = if p.is_ok then remove_overlap p w else (p, w) in
    let rest : List Shadow × Shadows =
      (let (l', w'') = remove_overlaps rgt l w' in (p' ∷ l', w'')) in
    if leb_ℤ p.lft rgt then rest else (p ∷ l, w)

unfoldable pub make_shadows : Shadow → ℤ → ℤ → Shadows → Shadows
unfolding remove_overlaps new_shadow clip_shadow
make_shadows seed lft rgt w =
    let row = w.curr_row in
    let up = new_shadow lft rgt (row +ℤ pos 1) row w in
    let down = new_shadow lft rgt (row -ℤ pos 1) row w in
    let cast =
      if ltb_ℤ seed.par row
      then clip_shadow lft rgt (row -ℤ pos 1) seed up
      else if ltb_ℤ row seed.par
      then clip_shadow lft rgt (row +ℤ pos 1) seed down
      else new_shadow lft rgt (row -ℤ pos 1) row up in
    let (rows', w') = remove_overlaps rgt cast.rows cast in record w' { rows = rows' }
