-- ===== src/Sort/Heap/Sorted.antt =====
-- The three heap sorts return ascending, or descending, rearrangements.
use mathlib.Core.List.Perm
use pwrake.Prelude.{
  ℕ, zero, suc, ◌+◌, ◌/◌, ◌≤◌, ◌<◌, ◌≡◌, refl, ◌∙◌, Bool, List, [], ◌∷◌, Perm, some, arith, length,
  get_elem?, set, ltb, leb, ◌==◌, if◌then◌else◌, write-ok, get_elem?-ok, length-set, Returns,
  returns, Returns-bind, Returns-map,
}
use pwrake.Prelude.Perms.{hole-perm, length-perm, set-get_elem?}
use pwrake.Sort.Order.{Ranked, key, key-get_elem?, key-set, IsSortedTo, dual, le, gt, lt, ge}
use pwrake.Sort.Heap.{sift_down, build_heap, extract_all, heap_sort, mos_heapsort, heapsort_reverse}
use pwrake.Sort.Heap.Sifted.{parent, IsHeapFrom, IsHoled, IsSifted, sift_down-IsSifted}

module _ {E : Type 0} ⦃o : Ranked E⦄ where
  root_greatest :
      (k n : ℕ) (a : List E) (i : ℕ) → IsHeapFrom 0 n a → i < k → i < n → key a i ≤ key a 0
  root_greatest zero n a i h f p = absurd (omega arith)
  root_greatest (suc k) n a i h f p = ground (arith, h i, root_greatest k n a (parent i) h)

  -- The first `n` entries are a heap, and below the others, which ascend.
  record IsSplit (n : ℕ) (a : List E) : Type 0 where
    size : n ≤ length a
    heap : IsHeapFrom 0 n a
    ascending : (j k : ℕ) → n ≤ j → j < k → k < length a → key a j ≤ key a k
    parted : (j k : ℕ) → j < n → n ≤ k → k < length a → key a j ≤ key a k

  -- The root goes to the end of the heap, and the entry from there is sifted in.
  extract-IsSplit :
      (m : ℕ) (a b : List E) (x y : E)
      → IsSplit (suc (suc m)) a
      → get_elem? a (suc m) ≡ some x
      → get_elem? a 0 ≡ some y
      → IsSifted 0 (suc m) 0 x (set a (suc m) y) b
      → length b ≡ length a
      → IsSplit (suc m) b
  extract-IsSplit m a b x y v rx ry t size = record {
    size = omega (arith, v.size);
    heap = t.heap;
    ascending = λ j k mj jk kn.
        ground (arith, at j, at k, t.tail j, t.tail k, v.parted 0 k, v.ascending j k, ky);
    parted = λ j k jm mk kn. ground (
      arith,
      at k,
      t.tail k,
      v.parted 0 k,
      ky,
      t.bounded (key a 0) x_le
          (λ i im. ground (arith, at i, root_greatest (suc i) (suc (suc m)) a i v.heap)) j jm,
    );
  }
    where
      at : (k : ℕ) → key (set a (suc m) y) k ≡ (if suc m == k then o.rank y else key a k)
      at k = key-set a (suc m) k y (omega (arith, v.size))

      ky : key a 0 ≡ o.rank y
      ky = key-get_elem? a 0 y ry

      x_le : o.rank x ≤ key a 0
      x_le = ground (
        arith,
        key-get_elem? a (suc m) x rx,
        root_greatest (suc (suc m)) (suc (suc m)) a (suc m) v.heap,
      )

  module _ (less settled : E → E → Bool)
      (less_lem : (a b : E) → less a b ≡ ltb (o.rank a) (o.rank b))
      (settled_lem : (a b : E) → settled a b ≡ leb (o.rank b) (o.rank a)) where
    build_heap-IsHeap :
        (k n : ℕ) (a : List E)
        → k ≤ n
        → length a ≡ n
        → IsHeapFrom k n a
        → Returns (λ b. IsHeapFrom 0 n b × Perm b a) (build_heap less settled k n a)
    unfolding build_heap
    build_heap-IsHeap zero n a f size h = returns (h, Perm.rfl)
    build_heap-IsHeap (suc k) n a f size h =
        let (x, read) = get_elem?-ok a k (omega arith) in
        let start : IsHoled k n k x a = record {
          edges = λ c p q l ne nc. h c p q (omega arith);
          above = λ p l. absurd (omega arith);
          bridged = λ c p q e pos l. absurd (omega arith);
        } in
        rw read (
          Returns-bind
            (sift_down-IsSifted less settled less_lem settled_lem (n + 1) k n k x a (omega arith)
              (omega arith) (omega arith) start)
            λ b t.
              let same = rw (set-get_elem? a k x read) at t.same in
              Returns-map (build_heap-IsHeap k n b (omega arith) (length-perm same ∙ size) t.heap)
                λ c (heap, perm). (heap, Perm.trans perm same))

    extract_last : (x : E) (a : List E) → extract_all less settled 1 (x ∷ a) ≡ some (x ∷ a)
    unfolding extract_all sift_down
    extract_last x a = ground arith

    extract_all-sorts :
        (n : ℕ) (a : List E)
        → IsSplit n a
        → Returns (λ b. IsSortedTo b (length a) × Perm b a) (extract_all less settled n a)
    unfolding extract_all
    extract_all-sorts zero a v = returns ((λ j k. v.ascending j k (omega arith)), Perm.rfl)
    extract_all-sorts (suc zero) [] v = absurd (omega (arith, v.size))
    extract_all-sorts (suc zero) (x ∷ a) v =
        rw (extract_last x a)
          (returns ((λ j k jk kn. ground (arith, v.ascending j k, v.parted j k)), Perm.rfl))
    extract_all-sorts (suc (suc m)) a v =
        let (x, rx) = get_elem?-ok a (suc m) (omega (arith, v.size)) in
        let (y, ry) = get_elem?-ok a 0 (omega (arith, v.size)) in
        let b = set a (suc m) y in
        let size : length b ≡ length a = length-set a (suc m) y in
        let start : IsHoled 0 (suc m) 0 x b = record {
          edges = λ c p q l ne nc.
              ground
                (arith, v.heap c, key-set a (suc m) c y, key-set a (suc m) (parent c) y, v.size);
          above = λ p l. absurd (omega arith);
          bridged = λ c p q e pos l. absurd (omega arith);
        } in
        rw (rx, ry, write-ok a (suc m) y (omega (arith, v.size)))
          (Returns-bind
            (sift_down-IsSifted less settled less_lem settled_lem (suc m + 1) 0 (suc m) 0 x b
              (omega arith) (omega arith) (omega (arith, v.size)) start)
            λ c t.
              let hole = hole-perm a (suc m) 0 x y (omega (arith, v.size)) ry (omega arith) in
              let same = Perm.trans t.same (rw (set-get_elem? a (suc m) x rx) at hole) in
              let size' = length-perm same in
              Returns-map (extract_all-sorts (suc m) c (extract-IsSplit m a c x y v rx ry t size'))
                λ d (sorted, perm). (rw size' at sorted, Perm.trans perm same))

    pub heap_sort-sorts :
        (a : List E)
        → Returns (λ b. IsSortedTo b (length a) × Perm b a) (heap_sort less settled (length a) a)
    unfolding heap_sort
    heap_sort-sorts a =
        let n = length a in
        Returns-bind
          (build_heap-IsHeap (n / 2) n a (omega arith) refl (λ c p q l. absurd (omega arith)))
          λ b (heap, same).
            let size = length-perm same in
            Returns-map
              (extract_all-sorts n b (record {
                size = omega arith;
                heap = heap;
                ascending = λ j k nj jk kn. absurd (omega arith);
                parted = λ j k jn nk kn. absurd (omega arith);
              }))
              λ c (sorted, perm). (rw size at sorted, Perm.trans perm same)

module _ {F : Type 0} ⦃o : Ranked F⦄ where
  -- `mos_heapsort` ends with no access outside the array, and its result is ascending and a
  -- rearrangement of the input.
  pub mos_heapsort-sorts :
      (a : List F) → Returns (λ b. IsSortedTo b (length a) × Perm b a) (mos_heapsort (length a) a)
  unfolding mos_heapsort
  mos_heapsort-sorts a =
      heap_sort-sorts (λ x y. lt x y) (λ x y. ge x y) (λ x y. refl) (λ x y. refl) a

  key-dual :
      (a : List F) (i : ℕ)
      → i < length a
      → (key ⦃o = dual o⦄ a i + key a i ≡ o.top) × (key a i ≤ o.top)
  unfolding key
  key-dual [] i h = absurd (omega arith)
  key-dual (x ∷ a) zero h = omega (arith, o.rank_le x)
  key-dual (x ∷ a) (suc i) h = key-dual a i (omega arith)

  -- `heapsort_reverse` ends with no access outside the array, and its result is descending and a
  -- rearrangement of the input.
  pub heapsort_reverse-sorts :
      (a : List F)
      → Returns
          (λ b. ((j k : ℕ) → j < k → k < length a → key b k ≤ key b j) × Perm b a)
          (heapsort_reverse (length a) a)
  unfolding heapsort_reverse
  heapsort_reverse-sorts a =
      Returns-map
        (heap_sort-sorts ⦃o = dual o⦄ (λ x y. gt x y) (λ x y. le x y)
          (λ x y. ground (arith, o.rank_le x, o.rank_le y))
          (λ x y. ground (arith, o.rank_le x, o.rank_le y)) a)
        λ b (sorted, same).
          let size = length-perm same in
          ((λ j k jk kn. omega (arith, sorted j k jk kn, key-dual b j, key-dual b k)), same)
