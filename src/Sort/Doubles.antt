-- ===== src/Sort/Doubles.antt =====
-- demo/spcam/sdfred20100528/mosaic/libsrc/sub_sortd.c: the sorts of sub_sort.c on doubles, and
-- the sort that carries the indices of the entries.
use pwrake.Prelude.{ℕ, zero, suc, ◌+◌, List, [], ◌∷◌, Option, some}
use pwrake.Sort.Order.{Ranked, lt, gt, ge, le}
use pwrake.Sort.Shell.{shellsort}
use pwrake.Sort.Heap.{mos_heapsort, heapsort_reverse, heapsort2, heapsort2_pairs}
use pwrake.Sort.Extrema.{floatmin, floatmax}
pub mod Indexed

module _ {D : Type 0} ⦃o : Ranked D⦄ where
  unfoldable pub shellsort_d : ℕ → List D → Option (List D)
  unfolding shellsort
  shellsort_d = shellsort

  unfoldable pub mos_heapsort_d : ℕ → List D → Option (List D)
  unfolding mos_heapsort
  mos_heapsort_d = mos_heapsort

  unfoldable pub heapsort_reverse_d : ℕ → List D → Option (List D)
  unfolding heapsort_reverse
  heapsort_reverse_d = heapsort_reverse

  unfoldable pub heapsort2_d : ℕ → List D → List D → Option (List D × List D)
  unfolding heapsort2
  heapsort2_d = heapsort2

  unfoldable pub heapsort2id : ℕ → List (D × ℕ) → Option (List (D × ℕ))
  unfolding heapsort2_pairs
  heapsort2id = heapsort2_pairs

  pub doublemin : ℕ → List D → Option D
  unfolding floatmin
  doublemin = floatmin

  pub doublemax : ℕ → List D → Option D
  unfolding floatmax
  doublemax = floatmax

-- `for(i=0;i<n;i++) id[i]=i;`, from `i` on with `n` rounds left.
unfoldable pub ids_from : ℕ → ℕ → List ℕ
ids_from i zero = []
ids_from i (suc n) = i ∷ ids_from (suc i) n

unfoldable pub makeidlist : ℕ → List ℕ
unfolding ids_from
makeidlist n = ids_from 0 n
