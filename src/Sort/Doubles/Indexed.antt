-- ===== src/Sort/Doubles/Indexed.antt =====
-- `heapsort2id` with the indices of `makeidlist` finds the order of the keys.
use mathlib.Core.List.{zip}
use mathlib.Core.List.Perm
use pwrake.Prelude.{
  ℕ, zero, suc, ◌+◌, ◌<◌, ◌≡◌, refl, ap, ◌∙◌, List, [], ◌∷◌, some, map, Perm, arith, length,
  get_elem?, ltb, if◌then◌else◌, Returns, Returns-map,
}
use pwrake.Prelude.Perms.{each_of_perm}
use pwrake.Sort.Order.{Ranked, by_key, key, IsSortedTo}
use pwrake.Sort.Heap.Paired.{heapsort2_pairs-sorts}
use pwrake.Sort.Doubles.{heapsort2id, makeidlist, ids_from}

module _ {D : Type 0} ⦃o : Ranked D⦄ where
  length-zip : (keys : List D) (i : ℕ) → length (zip keys (ids_from i (length keys))) ≡ length keys
  unfolding ids_from zip
  length-zip [] i = refl
  length-zip (x ∷ keys) i = ap suc (length-zip keys (suc i))

  ids-zip :
      (keys : List D) (i : ℕ)
      → map (λ e. e.1) (zip keys (ids_from i (length keys))) ≡ ids_from i (length keys)
  unfolding ids_from zip
  ids-zip [] i = refl
  ids-zip (x ∷ keys) i = ap (◌∷◌ i) (ids-zip keys (suc i))

  -- One more than the key at an index inside, and zero outside.
  key_or_zero : List D → ℕ → ℕ
  key_or_zero keys i = if ltb i (length keys) then suc (key keys i) else 0

  zip-key :
      (keys : List D) (i p : ℕ) (e : D × ℕ)
      → get_elem? (zip keys (ids_from i (length keys))) p ≡ some e
      → (e.1 ≡ i + p) × (key_or_zero keys p ≡ suc (o.rank e.0))
  unfolding ids_from zip key key_or_zero
  zip-key [] i p e h = ground arith
  zip-key (x ∷ keys) i zero e h = ground arith
  zip-key (x ∷ keys) i (suc p) e h = ground (arith, zip-key keys (suc i) p e h)

  inside_of :
      (keys : List D) (i : ℕ) (k : D)
      → key_or_zero keys i ≡ suc (o.rank k)
      → (i < length keys) × (key keys i ≡ o.rank k)
  unfolding key_or_zero
  inside_of keys i k h = ground arith

  -- From the indices of `makeidlist`, `heapsort2id` ends with no access outside the arrays: the
  -- keys are ascending, each stands with the index that it had, and the indices are those below
  -- the number of keys in some order.
  pub heapsort2id-finds :
      (keys : List D)
      → let n = length keys in
        Returns
          (λ b.
            IsSortedTo ⦃o = by_key o⦄ b n
            × ((p : ℕ) (k : D) (i : ℕ)
                → get_elem? b p ≡ some (k, i)
                → (i < n) × (key keys i ≡ o.rank k))
            × Perm (map (λ e. e.1) b) (makeidlist n))
          (heapsort2id n (zip keys (makeidlist n)))
  unfolding heapsort2id makeidlist
  heapsort2id-finds keys =
      let n = length keys in
      let pairs = zip keys (ids_from 0 n) in
      let size : length pairs ≡ n = length-zip keys 0 in
      let start : (p : ℕ) (e : D × ℕ)
          → get_elem? pairs p ≡ some e
          → key_or_zero keys e.1 ≡ suc (o.rank e.0) =
        λ p e h.
          let (place, value) = zip-key keys 0 p e h in
          let same : e.1 ≡ p = omega (arith, place) in ap (key_or_zero keys) same ∙ value in
      Returns-map (rw size at (heapsort2_pairs-sorts pairs)) λ b (sorted, same). (
        sorted,
        (λ p k i h. inside_of keys i k (
            each_of_perm (λ e. key_or_zero keys e.1) (λ e. suc (o.rank e.0)) same start p (k, i)
              h)),
        rw (ids-zip keys 0) at (Perm.map (λ e. e.1) same),
      )
