-- ===== src/Stat/Weighted.antt =====
-- The entry with half the weight before it: `floatweightedmedian` of
-- demo/spcam/sdfred20100528/mosaic/libsrc/sub_stat.c.
use pwrake.Prelude.{
  ℕ, zero, suc, ◌≤◌, ◌<◌, ◌≡◌, refl, ap, ◌∙◌, ◌⊎◌, inl, inr, true, false, List, [], ◌∷◌, Perm, some,
  arith, length, get_elem?, take, length-take, leb, ◌==◌, ◌>>=◌, Returns, returns, Returns-bind,
  Returns-if, Returns-map,
}
use pwrake.Prelude.Perms.{length-perm}
use pwrake.Sort.Order.{Ranked, gt, by_key, IsSortedTo}
use pwrake.Sort.Select.{eq}
use pwrake.Sort.Heap.{heapsort2_pairs}
use pwrake.Sort.Heap.Paired.{heapsort2_pairs-sorts}
use pwrake.Stat.{total, middle, floatweightedmedian}

module _ {F : Type 0} ⦃o : Ranked F⦄ (zero_sum : F) (plus : F → F → F) (half : F → F) where
  -- An entry up to which the weights, added to `sw`, reach `mw`, and none before it does: the result is
  -- the entry where they pass `mw`, and is between it and the next where they meet it.
  abbrev pub IsMiddle : F → F → List (F × F) → F → Type 0
  IsMiddle mw sw b r =
      (i : ℕ) × (a : F) × (w : F) × (get_elem? b i ≡ some (a, w))
      × ((j : ℕ) → j < i → o.rank (total plus sw (take (suc j) b)) < o.rank mw)
      × (((o.rank mw < o.rank (total plus sw (take (suc i) b))) × (r ≡ a))
          ⊎ ((o.rank mw ≡ o.rank (total plus sw (take (suc i) b)))
              × ((next : F) × (v : F) × (get_elem? b (suc i) ≡ some (next, v))
                  × (r ≡ half (plus a next)))))

  -- The middle of the rest is the middle of the whole.
  later :
      (mw sw a w : F) (rest : List (F × F)) (r : F)
      → o.rank (plus sw w) < o.rank mw
      → IsMiddle mw (plus sw w) rest r
      → IsMiddle mw sw ((a, w) ∷ rest) r
  unfolding total
  later mw sw a w rest r below (i, x, v, at, before, here) = (suc i, x, v, at, earlier, here)
    where
      earlier :
          (j : ℕ) → j < suc i → o.rank (total plus sw (take (suc j) ((a, w) ∷ rest))) < o.rank mw
      earlier zero lj = below
      earlier (suc j) lj = before j (omega arith)

  meets :
      (mw sw a w : F) (rest : List (F × F))
      → o.rank mw ≡ o.rank (plus sw w)
      → o.rank mw < o.rank (total plus (plus sw w) rest)
      → Returns
          (IsMiddle mw sw ((a, w) ∷ rest))
          (do (b, v) ← get_elem? rest 0; some (half (plus a b)))
  unfolding total
  meets mw sw a w [] same enough = absurd (omega arith)
  meets mw sw a w ((b, v) ∷ rest) same enough =
      returns (0, a, w, refl, (λ j lj. absurd (omega arith)), inr (same, (b, v, refl, refl)))

  middle-IsMiddle :
      (mw sw : F) (b : List (F × F))
      → o.rank mw < o.rank (total plus sw b)
      → ((b ≡ []) → o.rank sw ≤ o.rank mw)
      → Returns (IsMiddle mw sw b) (middle zero_sum plus half mw sw b)
  unfolding middle total
  middle-IsMiddle mw sw [] enough some_left = absurd (omega (arith, enough, some_left refl))
  middle-IsMiddle mw sw ((a, w) ∷ rest) enough some_left =
      Returns-if (gt (plus sw w) mw)
        (λ e.
          returns (0, a, w, refl, (λ j lj. absurd (omega arith)), inl (ground (arith, e), refl)))
        (λ e.
          Returns-if (eq (plus sw w) mw) (λ e'. meets mw sw a w rest (ground (arith, e')) enough)
            (λ e'.
              let less : o.rank (plus sw w) < o.rank mw = ground (arith, e, e') in
              Returns-map
                (middle-IsMiddle mw (plus sw w) rest enough (λ none_left. omega (arith, less)))
                (λ r h. later mw sw a w rest r less h)))

  -- With at least two entries whose weights, summed up in any order, are above the half of the sum, the
  -- routine ends with no access outside the arrays, and returns the middle of the entries in ascending
  -- order.
  pub floatweightedmedian-IsMiddle :
      (ndat : ℕ) (dat : List (F × F))
      → 2 ≤ ndat
      → ndat ≤ length dat
      → ((b : List (F × F))
          → Perm b (take ndat dat)
          → o.rank (half (total plus zero_sum b)) < o.rank (total plus zero_sum b))
      → Returns
          (λ r.
            (b : List (F × F)) × Perm b (take ndat dat)
            × IsSortedTo ⦃o = by_key o⦄ b ndat
            × IsMiddle (half (total plus zero_sum b)) zero_sum b r)
          (floatweightedmedian zero_sum plus half ndat dat)
  unfolding floatweightedmedian
  floatweightedmedian-IsMiddle ndat dat two inside heavy =
      let a : List (F × F) = take ndat dat in
      let size : length a ≡ ndat = length-take ndat dat inside in
      let all : leb ndat (length dat) ≡ true = ground (arith, inside) in
      let many : (ndat == 1) ≡ false = ground (arith, two) in
      let sorts : Returns (λ b. IsSortedTo ⦃o = by_key o⦄ b ndat × Perm b a)
          (heapsort2_pairs ndat a) =
        rw size at (heapsort2_pairs-sorts a) in
      rw (many, all)
        (Returns-bind sorts (λ b (sorted, same).
          let count : length b ≡ ndat = length-perm same ∙ size in
          Returns-map
            (middle-IsMiddle (half (total plus zero_sum b)) zero_sum b (heavy b same)
              (λ none_left. absurd (omega (arith, count, two, ap length none_left))))
            (λ r h. (b, same, sorted, h))))
