-- ===== src/Sort/Select/Quantile.antt =====
-- `nth` finds the entries that stand at a place in ascending order.
use pwrake.Prelude.{
  ℕ, zero, suc, ◌+◌, ◌-◌, ◌≤◌, ◌<◌, ◌≡◌, refl, true, ◌&&◌, ◌||◌, inl, inr, ◌⊎◌, [], ◌∷◌, Bool-cases,
  List, arith, length, ltb, leb, ◌==◌, Returns, returns, Returns-bind, Returns-if,
}
use pwrake.Sort.Order.{Ranked, lt}
use pwrake.Sort.Select.{nth_from}
use pwrake.Sort.Select.Split.{split-parts}
use pwrake.Sort.Select.{nth}
use pwrake.Prelude.Int.{pos}
use pwrake.Sort.Select.Branches.{
  IsSelected, pair-IsSelected, here-IsSelected, left-Returns, right-Returns, below-IsSelected,
  above-IsSelected,
}

-- `n<=m` of a float `n`.
le-cases : (k m s : ℕ) → (ltb k m || (k == m && s == 0)) ≡ true → (k < m) ⊎ ((k ≡ m) × (s ≡ 0))
le-cases k m s h = elim (Bool-cases (ltb k m)) [
  | inl e ↦ inl (ground (arith, e))
  | inr e ↦ inr (ground (arith, h, e), ground (arith, h, e))
]

module _ {F : Type 0} ⦃o : Ranked F⦄ where
  module _ (mix : F → F → ℕ → ℕ → F) where
    nth_from-selects :
        (fuel k s : ℕ) (dat : List F)
        → length dat < fuel
        → suc k < length dat
        → Returns (IsSelected mix k s dat) (nth_from mix fuel (length dat) dat k s)
    unfolding nth_from
    nth_from-selects zero k s dat enough inside = absurd (omega arith)
    nth_from-selects (suc fuel) k s [] enough inside = absurd (omega arith)
    nth_from-selects (suc fuel) k s (b ∷ rest) enough inside =
        let dat : List F = b ∷ rest in
        Returns-if (leb (length rest) k) (λ e. absurd (ground (arith, e, inside)))
          (λ _.
            Returns-if (suc (length rest) == 1) (λ e. absurd (ground (arith, e, inside)))
              (λ _.
                Returns-if (leb (suc (length rest)) 2)
                  (λ e. pair-IsSelected mix k s dat (ground (arith, e)) inside)
                  (λ _. Returns-bind (split-parts b dat refl) (λ (d, nmax, nsame) parts.
                    let here = here-IsSelected mix b dat d nmax nsame parts k s inside in
                    let again : (k : ℕ) (sub : List F)
                        → length sub < fuel
                        → suc k < length sub
                        → Returns (IsSelected mix k s sub)
                            (nth_from mix fuel (length sub) sub k s) =
                      λ k sub shorter within. nth_from-selects fuel k s sub shorter within in
                    let left =
                      left-Returns mix b dat d nmax nsame parts k s inside fuel enough again in
                    let right =
                      right-Returns mix b dat d nmax nsame parts k s inside fuel enough again in
                    let below = below-IsSelected mix b dat d nmax nsame parts k s inside in
                    let above = above-IsSelected mix b dat d nmax nsame parts k s inside in
                    let less : ℕ = nmax - nsame in
                    Returns-if (nmax == suc (length rest))
                      (λ all.
                        Returns-if (leb less k)
                          (λ e. returns (
                            here (ground (arith, e)) (ground (arith, all, inside))
                              (inr (ground (arith, all, inside)))))
                          (λ e.
                            Returns-if (ltb (suc k) less) (λ e'. left (ground (arith, e')))
                              (λ e'. below (ground (arith, e, e')) parts.7)))
                      (λ _.
                        Returns-if (ltb (suc k) less) (λ e. left (ground (arith, e)))
                          (λ e.
                            Returns-if (ltb k less) (λ e'. below (ground (arith, e, e')) parts.7)
                              (λ e'.
                                let from : less ≤ k = ground (arith, e') in
                                Returns-if (ltb k (nmax - 1) || (k == nmax - 1 && s == 0))
                                  (λ at. elim (le-cases k (nmax - 1) s at) [
                                    | inl lt ↦ returns (here from (omega arith) (inr (omega arith)))
                                    | inr (eq_k, whole) ↦ returns (
                                        here from (omega (arith, eq_k, parts.2, parts.3))
                                          (inl whole))
                                  ])
                                  (λ behind.
                                    Returns-if (ltb k nmax)
                                      (λ near. above (ground (arith, near, behind)) parts.7)
                                      (λ past. right (ground (arith, past)))))))))))

    -- On an array in which the place `k` has a next entry, `nth` ends within `n + 1` calls and without
    -- an access outside. It returns the entry that stands at the place of integer part `k` and
    -- fraction `s` in ascending order, or what `mix` puts between the entries at `k` and `k + 1`,
    -- and leaves a rearrangement of the array.
    pub nth-selects :
        (k s : ℕ) (dat : List F)
        → suc k < length dat
        → Returns (IsSelected mix k s dat) (nth mix (length dat) dat (pos k) s)
    unfolding nth
    nth-selects k s dat inside = nth_from-selects (length dat + 1) k s dat (omega arith) inside
