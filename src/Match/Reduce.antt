-- ===== src/Match/Reduce.antt =====
-- `reduce_dup`: a catalog is copied line by line, without the sources that a matched source of
-- the other catalog beats.
pub mod Mutual
pub mod Kept
use pwrake.Prelude.{
  ℕ, zero, suc, ◌+◌, Bool, true, false, List, [], ◌∷◌, Option, none, some, get_elem?, ◌==◌,
  if◌then◌else◌, ◌>>=◌,
}
use pwrake.Sort.Order.{Ranked, gt, ge}
use pwrake.Match.Rows.{CatalogRow}

pub record Verdict : Type 0 where
  pub matched : Bool
  pub reject : Bool

abbrev pub unmatched : Verdict
unmatched = record { matched = false; reject = false }

-- What is written to the output file, and the two counts that are printed.
pub record Reduced (L : Type 0) : Type 0 where
  pub kept : List L
  pub nmatch : ℕ
  pub nrej : ℕ

abbrev pub is_index : ℕ → Option ℕ → Bool
is_index i none = false
is_index i (some j) = j == i

-- `if (!reject) fputs(s, fo);` of a line without a NUL, at which `fputs` would stop, and the counts.
abbrev pub put_line : {L : Type 0} → L → Verdict → Reduced L → Reduced L
put_line s v r = record {
  kept = if v.reject then r.kept else s ∷ r.kept;
  nmatch = (if v.matched then 1 else 0) + r.nmatch;
  nrej = (if v.reject then 1 else 0) + r.nrej;
}

module _ {F : Type 0} ⦃o : Ranked F⦄ (flag : Bool) where
  -- `flag` decides a tie.
  pub worse : F → F → Bool
  worse e1 e2 = if flag then ge e1 e2 else gt e1 e2

  -- `if (j >= 0) if (cat2[j].min_idx == i) ...` for `c = cat1[i]`.
  unfoldable pub judge : List (CatalogRow F) → ℕ → CatalogRow F → Option Verdict
  unfolding worse
  judge cat2 i c = elim c.min_idx [
    | none ↦ some unmatched
    | some j ↦ do
      c2 ← get_elem? cat2 j
      some (
          if is_index i c2.min_idx
          then record { matched = true; reject = worse c.err c2.err }
          else unmatched)
  ]

  -- `if (i < n1) if (line == cat1[i].line) { ... i++; }`
  pub advance : List (CatalogRow F) → List (CatalogRow F) → ℕ → ℕ → Option (ℕ × Verdict)
  unfolding judge
  advance cat1 cat2 i line = elim (get_elem? cat1 i) [
    | none ↦ some (i, unmatched)
    | some c ↦
        let hit = (do v ← judge cat2 i c; some (suc i, v)) in
        if line == c.line then hit else some (i, unmatched)
  ]

  -- The loop over the lines, each as `fgets` returns it.
  pub reduce_loop :
      {L : Type 0} → List (CatalogRow F) → List (CatalogRow F) → ℕ → ℕ → List L → Option (Reduced L)
  unfolding advance
  reduce_loop cat1 cat2 i line [] = some (record { kept = []; nmatch = 0; nrej = 0 })
  reduce_loop cat1 cat2 i line (s ∷ rest) = do
    (i', v) ← advance cat1 cat2 i line
    r ← reduce_loop cat1 cat2 i' (suc line) rest
    some (put_line s v r)

unfoldable pub reduce_dup :
    {F L : Type 0} ⦃o : Ranked F⦄
    → List L
    → List (CatalogRow F)
    → List (CatalogRow F)
    → Bool
    → Option (Reduced L)
unfolding reduce_loop
reduce_dup lines cat1 cat2 flag = reduce_loop flag cat1 cat2 0 0 lines
