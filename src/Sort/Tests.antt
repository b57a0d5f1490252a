-- ===== src/Sort/Tests.antt =====
-- The sorts on small arrays.
use pwrake.Prelude.{
  ℕ, ◌≡◌, refl, ◌≤◌, ◌<◌, List, [], ◌∷◌, some, arith, Perm, Returns, map, get_elem?, zero, suc, ◌^◌,
  length, length-replicate, replicate, some-inj, ◌+◌, ◌/◌, ◌==◌, if◌then◌else◌, ◌>>=◌,
}
use pwrake.Sort.Order.{nat_ranked, by_key, key, IsSortedTo}
use pwrake.Prelude.Int.{pos}
use pwrake.Sort.Radix.{byte_at, distribute, mos_radixsort}
use pwrake.Sort.Radix.Buckets.{buckets}
use pwrake.Sort.Radix.Placed.{distribute-buckets}
use pwrake.Sort.Radix.Sorted.{mos_radixsort-sorts}
use pwrake.Sort.Select.{nth}
use pwrake.Sort.Select.Branches.{IsSelected}
use pwrake.Sort.Select.Quantile.{nth-selects}
use pwrake.Sort.Doubles.{heapsort2id, makeidlist}
use pwrake.Sort.Doubles.Indexed.{heapsort2id-finds}
use mathlib.Core.List.{zip}
use pwrake.Sort.Heap.{mos_heapsort, heapsort_reverse, heapsort2}
use pwrake.Sort.Heap.Sorted.{mos_heapsort-sorts}
use pwrake.Sort.Heap.Paired.{heapsort2-sorts}
use pwrake.Sort.Shell.{shellsort}
use pwrake.Sort.Shell.Sorted.{shellsort-sorts, shellsort_short}

abbrev five : List ℕ
five = 3 ∷ 1 ∷ 4 ∷ 1 ∷ 5 ∷ []

abbrev two : List ℕ
two = 2 ∷ 1 ∷ []

abbrev three_keys : List ℕ
three_keys = 3 ∷ 1 ∷ 2 ∷ []

abbrev three_values : List ℕ
three_values = 7 ∷ 8 ∷ 9 ∷ []

mos_heapsort-five : mos_heapsort 5 five ≡ some (1 ∷ 1 ∷ 3 ∷ 4 ∷ 5 ∷ [])
unfolding mos_heapsort
mos_heapsort-five = refl

heapsort_reverse-five : heapsort_reverse 5 five ≡ some (5 ∷ 4 ∷ 3 ∷ 1 ∷ 1 ∷ [])
unfolding heapsort_reverse
heapsort_reverse-five = refl

heapsort2-three : heapsort2 3 three_keys three_values ≡ some (1 ∷ 2 ∷ 3 ∷ [], 8 ∷ 9 ∷ 7 ∷ [])
unfolding heapsort2
heapsort2-three = refl

shellsort-five : shellsort 5 five ≡ some (1 ∷ 1 ∷ 3 ∷ 4 ∷ 5 ∷ [])
unfolding shellsort
shellsort-five = refl

mos_heapsort-sorts_example : Returns (λ b. IsSortedTo b 5 × Perm b five) (mos_heapsort 5 five)
mos_heapsort-sorts_example = mos_heapsort-sorts five

heapsort2-sorts_example :
    Returns
      (λ r.
        IsSortedTo r.0 3
        × (length r.0 ≡ length r.1)
        × Perm (zip r.0 r.1) (zip three_keys three_values))
      (heapsort2 3 three_keys three_values)
heapsort2-sorts_example = heapsort2-sorts three_keys three_values refl

shellsort-sorts_example : Returns (λ b. IsSortedTo b 5 × Perm b five) (shellsort 5 five)
shellsort-sorts_example = shellsort-sorts five (omega arith)

shellsort_short_example : shellsort 2 two ≡ some two
shellsort_short_example = shellsort_short two (omega arith)

heapsort2id-finds_example :
    Returns
      (λ b.
        IsSortedTo ⦃o = by_key nat_ranked⦄ b 5
        × ((p : ℕ) (k : ℕ) (i : ℕ)
            → get_elem? b p ≡ some (k, i)
            → (i < 5) × (key five i ≡ nat_ranked.rank k))
        × Perm (map (λ e. e.1) b) (makeidlist 5))
      (heapsort2id 5 (zip five (makeidlist 5)))
heapsort2id-finds_example = heapsort2id-finds five

-- Words with equal lower bytes, the static counts of an earlier call, and a fresh `work`.
abbrev words : List ℕ
words = 770 ∷ 513 ∷ 2 ∷ 4294967295 ∷ 513 ∷ []

abbrev stale : List ℕ
stale = replicate 257 7

abbrev fresh : List ℕ
fresh = replicate 5 9

mos_radixsort-words :
    (do r ← mos_radixsort 5 words stale fresh; some r.0)
    ≡ some (2 ∷ 513 ∷ 513 ∷ 770 ∷ 4294967295 ∷ [])
unfolding mos_radixsort
mos_radixsort-words = refl

words-below : (i x : ℕ) → get_elem? words i ≡ some x → x < 2 ^ 32
words-below zero x h = omega (arith, some-inj h)
words-below (suc zero) x h = omega (arith, some-inj h)
words-below (suc (suc zero)) x h = omega (arith, some-inj h)
words-below (suc (suc (suc zero))) x h = omega (arith, some-inj h)
words-below (suc (suc (suc (suc zero)))) x h = omega (arith, some-inj h)
words-below (suc (suc (suc (suc (suc i))))) x h = ground arith

mos_radixsort-sorts_example :
    Returns
      (λ r.
        ((j k x y : ℕ) → j < k → get_elem? r.0 j ≡ some x → get_elem? r.0 k ≡ some y → x ≤ y)
        × Perm r.0 words
        × (length r.1 ≡ 257))
      (mos_radixsort 5 words stale fresh)
mos_radixsort-sorts_example =
    mos_radixsort-sorts words stale fresh words-below (length-replicate {A = ℕ} 257 7) refl

distribute-buckets_example :
    Returns
      (λ s. (s.0 ≡ buckets (λ x. byte_at 8 x) 256 words) × (length s.1 ≡ 257) × (length s.2 ≡ 5))
      (distribute 8 5 words stale fresh)
distribute-buckets_example =
    distribute-buckets 8 words stale fresh (length-replicate {A = ℕ} 257 7) refl

-- The mean of two entries, for a fraction.
abbrev mean : ℕ → ℕ → ℕ → ℕ → ℕ
mean x y k s = if s == 0 then x else (x + y) / 2

nth-five : nth mean 5 five (pos 2) 0 ≡ some (3, 3 ∷ 1 ∷ 1 ∷ 5 ∷ 4 ∷ [])
unfolding nth
nth-five = refl

nth-selects_example : Returns (IsSelected mean 2 1 five) (nth mean 5 five (pos 2) 1)
nth-selects_example = nth-selects mean 2 1 five (omega arith)
