-- ===== src/Sort/Heap.antt =====
-- `mos_heapsort`, `heapsort_reverse` and `heapsort2` of
-- demo/spcam/sdfred20100528/mosaic/libsrc/sub_sort.c. The three bodies are one text but for their
-- comparisons and for the second array of `heapsort2`, whose entries move with the keys.
use mathlib.Core.List.{zip}
use pwrake.Prelude.{
  ℕ, zero, suc, ◌+◌, ◌-◌, ◌*◌, ◌/◌, Bool, List, map, Option, none, some, get_elem?, write, ltb,
  if◌then◌else◌, ◌>>=◌,
}
use pwrake.Sort.Order.{Ranked, gt, ge, lt, le}
pub mod Sifted
pub mod Sorted
pub mod Zipped
pub mod Agreed
pub mod Paired

-- `less` is the comparison of two entries, `settled` that of the entry in hand with an entry.
module _ {E : Type 0} (less settled : E → E → Bool) where
  -- `if (j<n-1 && a[j]<a[j+1]) j++;`
  pub larger_child : ℕ → ℕ → List E → Option ℕ
  larger_child n j a =
      let compared = do
        y ← get_elem? a j
        z ← get_elem? a (j + 1)
        some (if less y z then j + 1 else j)
      in if ltb (j + 1) n then compared else some j

  -- `while (j<=n-1) { ... }  a[i]=x;` with `j = 2*i+1`.
  pub sift_down : ℕ → ℕ → ℕ → E → List E → Option (List E)
  unfolding larger_child
  sift_down zero n i x a = none
  sift_down (suc fuel) n i x a =
      let down = do
        j ← larger_child n (2 * i + 1) a
        y ← get_elem? a j
        let move = write a i y >>= sift_down fuel n j x
        if settled x y then write a i x else move
      in if ltb (2 * i + 1) n then down else write a i x

  -- `for (k=n/2-1;k>=0;k--)`, with `k + 1` rounds left.
  pub build_heap : ℕ → ℕ → List E → Option (List E)
  unfolding sift_down
  build_heap zero n a = some a
  build_heap (suc k) n a = do x ← get_elem? a k; b ← sift_down (n + 1) n k x a; build_heap k n b

  -- `while (n>0) { ... }`
  pub extract_all : ℕ → List E → Option (List E)
  unfolding sift_down
  extract_all zero a = some a
  extract_all (suc n) a = do
    x ← get_elem? a n
    y ← get_elem? a 0
    b ← write a n y
    c ← sift_down (n + 1) n 0 x b
    extract_all n c

  pub heap_sort : ℕ → List E → Option (List E)
  unfolding build_heap extract_all
  heap_sort n a = do b ← build_heap (n / 2) n a; extract_all n b

module _ {F : Type 0} ⦃o : Ranked F⦄ where
  unfoldable pub mos_heapsort : ℕ → List F → Option (List F)
  unfolding heap_sort
  mos_heapsort = heap_sort (λ a b. lt a b) (λ x a. ge x a)

  unfoldable pub heapsort_reverse : ℕ → List F → Option (List F)
  unfolding heap_sort
  heapsort_reverse = heap_sort (λ a b. gt a b) (λ x a. le x a)

-- The loops of `heapsort2`, where `x` and `v` stand for `key0` and `val0`.
module _ {F V : Type 0} ⦃o : Ranked F⦄ where
  -- `key[i]=key0; val[i]=val0;`
  abbrev pub put_pair : ℕ → F → V → List F → List V → Option (List F × List V)
  put_pair i x v keys vals = do keys' ← write keys i x; vals' ← write vals i v; some (keys', vals')

  unfoldable pub sift_down2 : ℕ → ℕ → ℕ → F → V → List F → List V → Option (List F × List V)
  unfolding larger_child
  sift_down2 zero n i x v keys vals = none
  sift_down2 (suc fuel) n i x v keys vals =
      let down = do
        j ← larger_child (λ a b. lt a b) (λ a b. ge a b) n (2 * i + 1) keys
        y ← get_elem? keys j
        let move = do
          w ← get_elem? vals j
          moved ← put_pair i y w keys vals
          sift_down2 fuel n j x v moved.0 moved.1
        if ge x y then put_pair i x v keys vals else move
      in if ltb (2 * i + 1) n then down else put_pair i x v keys vals

  unfoldable pub build_heap2 : ℕ → ℕ → List F → List V → Option (List F × List V)
  unfolding sift_down2
  build_heap2 zero n keys vals = some (keys, vals)
  build_heap2 (suc k) n keys vals = do
    key0 ← get_elem? keys k
    val0 ← get_elem? vals k
    sifted ← sift_down2 (n + 1) n k key0 val0 keys vals
    build_heap2 k n sifted.0 sifted.1

  unfoldable pub extract_all2 : ℕ → List F → List V → Option (List F × List V)
  unfolding sift_down2
  extract_all2 zero keys vals = some (keys, vals)
  extract_all2 (suc n) keys vals = do
    key0 ← get_elem? keys n
    y ← get_elem? keys 0
    keys' ← write keys n y
    val0 ← get_elem? vals n
    w ← get_elem? vals 0
    vals' ← write vals n w
    sifted ← sift_down2 (n + 1) n 0 key0 val0 keys' vals'
    extract_all2 n sifted.0 sifted.1

  unfoldable pub heapsort2 : ℕ → List F → List V → Option (List F × List V)
  unfolding build_heap2 extract_all2
  heapsort2 n keys vals = do built ← build_heap2 (n / 2) n keys vals; extract_all2 n built.0 built.1

  -- The arrays of a call that are given and taken as one list of pairs.
  unfoldable pub heapsort2_pairs : ℕ → List (F × V) → Option (List (F × V))
  unfolding heapsort2
  heapsort2_pairs n a = do r ← heapsort2 n (map (λ e. e.0) a) (map (λ e. e.1) a); some (zip r.0 r.1)
