-- ===== src/Detect/Simple.antt =====
-- `detect_simple_array` and `detect_simple`: the objects of one image, as a chain of records.
use pwrake.Prelude.{
  ℕ, zero, suc, ◌+◌, ◌-◌, Bool, not, List, [], ◌∷◌, ◌++◌, Option, none, some, length, get_elem?,
  set, take, leb, ltb, if◌then◌else◌, ◌>>=◌,
}
use pwrake.Prelude.Int.{ℤ, pos}
use pwrake.Sort.Order.{Ranked}
use pwrake.Detect.Pixels.{Pixlist, npix_of}
use pwrake.Detect.Objects.{detect_new3}
use pwrake.Detect.Convert.{Arith, Objrec, convert_pixlist}
pub mod Shrunk
pub mod Chained

-- `a[n]=a[nobj-1]; nobj--;` for an array of `nobj` entries.
unfoldable pub swap_out : {A : Type 0} → ℕ → List A → Option (List A)
swap_out n a = do last ← get_elem? a (length a - 1); some (take (length a - 1) (set a n last))

-- The loop that drops the small objects of the edge; an entry that moved to `n` is looked at next.
unfoldable pub shrink : {A : Type 0} → (A → Bool) → ℕ → ℕ → List A → Option (List A)
unfolding swap_out
shrink drops zero n a = if ltb n (length a) then none else some a
shrink drops (suc fuel) n a =
    let round = do
      x ← get_elem? a n
      let removed = swap_out n a >>= shrink drops fuel n
      let kept = shrink drops fuel (suc n) a
      if drops x then removed else kept
    in if ltb n (length a) then round else some a

module _ {F D : Type 0} ⦃o : Ranked F⦄ (m : Arith F D) where
  -- The records in their order, numbered from `id` on.
  pub convert_all : ℕ → List (Pixlist F) → Option (List (Objrec F F))
  unfolding convert_pixlist
  convert_all id [] = some []
  convert_all id (pl ∷ l) = do
    ob ← convert_pixlist m pl
    rest ← convert_all (suc id) l
    some (record ob { entnum = id } ∷ rest)

  abbrev pub is_small : ℕ → Pixlist F → Bool
  is_small npix_min pl = leb (npix_of pl) npix_min

  -- The chain from `ob`; it is empty where the source stores `NULL`.
  unfoldable pub detect_simple_array : (ℕ → F) → ℕ → ℕ → F → ℕ → ℕ → Option (List (Objrec F F))
  unfolding detect_new3 shrink convert_all
  detect_simple_array pix npx npy thres npix_min fuel = do
    r ← detect_new3 pix npx npy thres npix_min (pos 0) (pos 0) fuel (λ k. 0)
    edge ← shrink (is_small npix_min) (length r.edged.objects) 0 r.edged.objects
    convert_all 1 (r.kept.objects ++ edge)

  -- The number of objects and the first of the chain.
  pub detect_simple : (ℕ → F) → ℕ → ℕ → F → ℕ → ℕ → Option (ℕ × List (Objrec F F))
  unfolding detect_simple_array
  detect_simple pix npx npy thres npix_min fuel = do
    oblist ← detect_simple_array pix npx npy thres npix_min fuel
    some (length oblist, oblist)
