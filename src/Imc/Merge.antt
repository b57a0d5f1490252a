-- ===== src/Imc/Merge.antt =====
-- The merge of two blocks of header lines: `imc_merge_icom` of demo/spcam/sdfred20100528/mosaic/imc/imc.c.
use pwrake.Prelude.{
  ℕ, zero, suc, Bool, true, false, not, ◌||◌, List, [], ◌∷◌, ◌++◌, Option, none, some, map, take,
  get_elem?, ◌==◌, if◌then◌else◌, ◌>>=◌,
}
use pwrake.Imc.Text.{equals}
use pwrake.Imc.Cards.{imadd_fits}
pub mod Found
pub mod Values
mod Tests

-- `strncmp(a,b,n)==0`
unfoldable pub same_start : ℕ → List ℕ → List ℕ → Bool
same_start zero a b = true
same_start (suc n) [] [] = true
same_start (suc n) [] (d ∷ b) = false
same_start (suc n) (c ∷ a) [] = false
same_start (suc n) (c ∷ a) (d ∷ b) = let rest = same_start n a b in if c == d then rest else false

-- The searches for `key2`, up to the first that is equal.
unfoldable pub listed : List ℕ → List (List ℕ) → Bool
unfolding same_start
listed key2 [] = false
listed key2 (key ∷ keys) =
    let rest = listed key2 keys in if same_start 8 key2 key then true else rest

-- `for(i=0;i<ncom2;i++)`. A line without its NUL at `line[8]` or before is a fault.
unfoldable pub merge_lines :
    List (List ℕ) → List (List ℕ) → List (List ℕ) → List (List ℕ) → Option (List (List ℕ))
unfolding listed imadd_fits
merge_lines key0 key1 [] icom1 = some icom1
merge_lines key0 key1 (line ∷ lines) icom1 =
    let added = merge_lines key0 key1 lines (imadd_fits icom1 line) in
    let left = merge_lines key0 key1 lines icom1 in
    do
      c ← get_elem? (line ++ (0 ∷ [])) 8
      let key2 = take 8 line
      if not (c == equals)
          then added
          else if listed key2 key0
          then left
          else if listed key2 key1
          then left
          else added

-- `key1` is made of the lines before the merge.
unfoldable pub imc_merge_icom :
    List (List ℕ) → List (List ℕ) → List (List ℕ) → Option (List (List ℕ))
unfolding merge_lines
imc_merge_icom key0 icom2 icom1 = merge_lines key0 (map (take 8) icom1) icom2 icom1
