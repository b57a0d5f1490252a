-- ===== src/Paint/Tests.antt =====
-- Floods of a small image, with numbers for floats.
use pwrake.Prelude.{
  ◌+◌, ◌++◌, Perm, true, false, ℕ, zero, suc, ◌≡◌, refl, Bool, List, [], ◌∷◌, arith, ltb,
}
use pwrake.Prelude.Int.{pos, ◌+ℤ◌, ◌-ℤ◌}
use pwrake.Paint.Shadows.{Shadow, Shadows, make_row}
use pwrake.Paint.Shadows.Rows.{IsRow, IsWaiting, nodes, make_row-splits}
use pwrake.Paint.Faults.{at}
use pwrake.Paint.Fill.{Canvas}
use pwrake.Paint.Flood.{doflood3r, doflood2}
use pwrake.Paint.Flood.Alike.{doflood2-doflood3r}
use pwrake.Paint.Flood.Marks.{IsFlooded, doflood3r-IsFlooded}

abbrev listed : ℕ → (ℕ → ℕ) → List ℕ
listed zero f = []
listed (suc n) f = f 0 ∷ listed n (λ k. f (suc k))

-- Four columns and three rows: a ring with a hole, and a pixel that touches none of it.
abbrev ring : ℕ → ℕ
ring = at (9 ∷ 9 ∷ 9 ∷ 1 ∷ 9 ∷ 1 ∷ 9 ∷ 1 ∷ 9 ∷ 9 ∷ 9 ∷ 1 ∷ [])

abbrev is_bright : ℕ → Bool
is_bright v = ltb 5 v

doflood3r-ring :
    listed 12 (doflood3r ring 4 3 (pos 1) (pos 0) is_bright (λ k. 0) 7 40).1.map
    ≡ 7 ∷ 7 ∷ 7 ∷ 0 ∷ 7 ∷ 0 ∷ 7 ∷ 0 ∷ 7 ∷ 7 ∷ 7 ∷ 0 ∷ []
unfolding doflood3r ◌+ℤ◌ ◌-ℤ◌
doflood3r-ring = refl

doflood2-ring : (doflood2 ring 4 3 (pos 1) (pos 0) is_bright (λ k. 0) 40).1.npix ≡ 8
unfolding doflood2 ◌+ℤ◌ ◌-ℤ◌
doflood2-ring = refl

doflood3r-IsFlooded_example :
    IsFlooded ring 4 3 is_bright
      (λ k. 0)
      7
      (doflood3r ring 4 3 (pos 1) (pos 0) is_bright (λ k. 0) 7 40).1
doflood3r-IsFlooded_example =
    doflood3r-IsFlooded ring 4 3 is_bright (λ k. 0) 7 (pos 1) (pos 0) 40 (λ e. ground arith)

abbrev node : ℕ → ℕ → Bool → Shadow
node lft row ok = record {
  lft = pos lft;
  rgt = pos (lft + 1);
  row = pos row;
  par = pos 0;
  is_ok = ok;
}

-- Two nodes of one row, one of another, and one that is no longer `OK`.
abbrev waiting_nodes : Shadows
waiting_nodes = record {
  curr_row = pos 0;
  rows = [];
  pend = node 7 1 true ∷ node 2 3 true ∷ node 4 1 false ∷ node 3 1 true ∷ [];
  free = [];
  crashed = false;
}

make_row-waiting : (make_row waiting_nodes).rows ≡ node 3 1 true ∷ node 7 1 true ∷ []
unfolding make_row
make_row-waiting = refl

make_row-splits_example :
    IsRow (make_row waiting_nodes).curr_row (make_row waiting_nodes).rows
    × IsWaiting (make_row waiting_nodes).curr_row (make_row waiting_nodes).pend
    × ((make_row waiting_nodes).rows ≡ [] → (make_row waiting_nodes).pend ≡ [])
    × Perm (nodes (make_row waiting_nodes)) (waiting_nodes.pend ++ [])
make_row-splits_example = make_row-splits waiting_nodes refl

abbrev ring3r : Shadows × Canvas ℕ
ring3r = doflood3r ring 4 3 (pos 1) (pos 0) is_bright (λ k. 0) 1 40

abbrev ring2 : Shadows × Canvas ℕ
ring2 = doflood2 ring 4 3 (pos 1) (pos 0) is_bright (λ k. 0) 40

doflood2-doflood3r_example :
    (ring3r.0 ≡ ring2.0)
    × (ring3r.1.npix ≡ ring2.1.npix)
    × ((k : ℕ) → ring3r.1.map k ≡ ring2.1.map k)
doflood2-doflood3r_example =
    doflood2-doflood3r ring 4 3 is_bright (pos 1) (pos 0) (λ k. 0) 40 (λ k. omega arith)
