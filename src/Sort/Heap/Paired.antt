-- ===== src/Sort/Heap/Paired.antt =====
-- `heapsort2`, whose two arrays are sorted as one array of pairs would be.
use mathlib.Core.List.{zip}
use pwrake.Prelude.{
  ℕ, zero, suc, ◌≡◌, refl, ap, List, [], ◌∷◌, map, Perm, Option, some, arith, length, ◌>>=◌,
  Returns, returns,
}
use pwrake.Sort.Order.{Ranked, key, by_key, IsSortedTo}
use pwrake.Sort.Heap.{heap_sort, heapsort2, heapsort2_pairs}
use pwrake.Sort.Heap.Sorted.{heap_sort-sorts}
use pwrake.Sort.Heap.Zipped.{Agrees, faults, agrees, length-zip}
use pwrake.Sort.Heap.Agreed.{less2, settled2, heapsort2-Agrees}

module _ {F V : Type 0} ⦃o : Ranked F⦄ where
  key-zip :
      (keys : List F) (vals : List V) (i : ℕ)
      → length keys ≡ length vals
      → key ⦃o = by_key o⦄ (zip keys vals) i ≡ key keys i
  unfolding zip key
  key-zip [] vals i same = refl
  key-zip (x ∷ keys) [] i same = absurd (omega (arith, same))
  key-zip (x ∷ keys) (v ∷ vals) zero same = refl
  key-zip (x ∷ keys) (v ∷ vals) (suc i) same = key-zip keys vals i (omega (arith, same))

  heap_sort2-sorts :
      (a : List (F × V))
      → Returns
          (λ b. IsSortedTo ⦃o = by_key o⦄ b (length a) × Perm b a)
          (heap_sort less2 settled2 (length a) a)
  heap_sort2-sorts a = heap_sort-sorts ⦃o = by_key o⦄ less2 settled2 (λ x y. refl) (λ x y. refl) a

  -- On as many values as keys, `heapsort2` ends with no access outside the arrays: the keys are
  -- ascending, there are still as many values, and the pairs of a key and the value at its place are a
  -- rearrangement of the input's.
  pub heapsort2-sorts :
      (keys : List F) (vals : List V)
      → length keys ≡ length vals
      → Returns
          (λ r.
            IsSortedTo r.0 (length keys)
            × (length r.0 ≡ length r.1)
            × Perm (zip r.0 r.1) (zip keys vals))
          (heapsort2 (length keys) keys vals)
  heapsort2-sorts keys vals same =
      by_pairs (heapsort2-Agrees (length keys) keys vals same)
        (rw (length-zip keys vals same) at (heap_sort2-sorts (zip keys vals)))
    where
      by_pairs :
          {r : Option (List F × List V)} {s : Option (List (F × V))}
          → Agrees r s
          → Returns (λ b. IsSortedTo ⦃o = by_key o⦄ b (length keys) × Perm b (zip keys vals)) s
          → Returns
              (λ p.
                IsSortedTo p.0 (length keys)
                × (length p.0 ≡ length p.1)
                × Perm (zip p.0 p.1) (zip keys vals))
              r
      by_pairs faults h = elim h [ ]
      by_pairs (agrees {a} {b} paired) (returns (sorted, perm)) = returns (
        (λ j k jk kn. rw (key-zip a b j paired, key-zip a b k paired) at (sorted j k jk kn)),
        paired,
        perm,
      )

  zip-map : (a : List (F × V)) → zip (map (λ e. e.0) a) (map (λ e. e.1) a) ≡ a
  unfolding zip
  zip-map [] = refl
  zip-map (e ∷ a) = ap (◌∷◌ e) (zip-map a)

  length-maps : (a : List (F × V)) → length (map (λ e. e.0) a) ≡ length (map (λ e. e.1) a)
  length-maps [] = refl
  length-maps (e ∷ a) = ap suc (length-maps a)

  pub heapsort2_pairs-sorts :
      (a : List (F × V))
      → Returns
          (λ b. IsSortedTo ⦃o = by_key o⦄ b (length a) × Perm b a)
          (heapsort2_pairs (length a) a)
  unfolding heapsort2_pairs
  heapsort2_pairs-sorts a =
      by_pairs (heapsort2-Agrees (length a) (map (λ e. e.0) a) (map (λ e. e.1) a) (length-maps a))
        (rw (zip-map a) (heap_sort2-sorts a))
    where
      by_pairs :
          {P : List (F × V) → Type 0} {r : Option (List F × List V)} {s : Option (List (F × V))}
          → Agrees r s
          → Returns P s
          → Returns P (do p ← r; some (zip p.0 p.1))
      by_pairs faults h = elim h [ ]
      by_pairs (agrees paired) (returns holds) = returns holds
