-- ===== src/Stat/Tests.antt =====
-- Medians of small inputs.
use mathlib.Core.Logic.{∥∥₁_elim}
use native.Mathlib.Nat.{ℕ_set}
use mathlib.Core.List.{Permᴰ}
use mathlib.Core.List.{zip}
use pwrake.Prelude.{
  ap, ℕ, ◌+◌, ◌-◌, ◌*◌, ◌/◌, ◌%◌, ◌<◌, ◌≡◌, ◌∙◌, refl, List, [], ◌∷◌, map, Perm, some, arith, take,
  Returns,
}
use pwrake.Sort.Order.{nat_ranked, by_key, IsSortedTo}
use pwrake.Sort.Select.Branches.{IsQuantile}
use pwrake.Stat.{total, floatmedian, float_mad, floatweightedmedian}
use pwrake.Stat.Spread.{float_mad-IsQuantile}
use pwrake.Stat.Weighted.{IsMiddle, floatweightedmedian-IsMiddle}

abbrev between : ℕ → ℕ → ℕ → ℕ → ℕ
between x y k s = (x * (4 - s) + y * s) / 4

abbrev distance : ℕ → ℕ → ℕ
distance x y = (x - y) + (y - x)

abbrev values : List ℕ
values = 7 ∷ 1 ∷ 20 ∷ 3 ∷ 5 ∷ []

floatmedian-values : floatmedian between 5 values ≡ some 5
unfolding floatmedian
floatmedian-values = refl

float_mad-values : float_mad between distance 5 values ≡ some 2
unfolding float_mad
float_mad-values = refl

float_mad-IsQuantile_example :
    Returns
      (λ mad.
        (med : ℕ) × IsQuantile between (4 * 2 / 4) (4 * 2 % 4) (take 5 values) med
        × IsQuantile between
            (4 * 2 / 4)
            (4 * 2 % 4)
            (map (λ x. distance x med) (take 5 values))
            mad)
      (float_mad between distance 5 values)
float_mad-IsQuantile_example =
    float_mad-IsQuantile between distance 4 values (omega arith) (omega arith)

abbrev plus : ℕ → ℕ → ℕ
plus x y = x + y

abbrev half : ℕ → ℕ
half x = x / 2

abbrev weighted : List (ℕ × ℕ)
weighted = (7, 1) ∷ (1, 2) ∷ (20, 1) ∷ (3, 1) ∷ []

floatweightedmedian-weighted : floatweightedmedian 0 plus half 4 weighted ≡ some 2
unfolding floatweightedmedian zip
floatweightedmedian-weighted = refl

-- The weights of a list, whatever its order.
unfoldable weight : List (ℕ × ℕ) → ℕ
weight [] = 0
weight ((a, w) ∷ rest) = w + weight rest

total-weight : (s : ℕ) (b : List (ℕ × ℕ)) → total plus s b ≡ s + weight b
unfolding total weight
total-weight s [] = omega arith
total-weight s ((a, w) ∷ rest) = omega (arith, total-weight (s + w) rest)

weight-Permᴰ : {xs ys : List (ℕ × ℕ)} → Permᴰ xs ys → weight xs ≡ weight ys
unfolding weight
weight-Permᴰ (Permᴰ.trans before after) = weight-Permᴰ before ∙ weight-Permᴰ after
weight-Permᴰ (Permᴰ.swap x y) = omega (arith, ap (λ a. a.1) x, ap (λ a. a.1) y)
weight-Permᴰ (Permᴰ.cons x rest) = omega (arith, ap (λ a. a.1) x, weight-Permᴰ rest)
weight-Permᴰ Permᴰ.nil = refl

weight-perm : {xs ys : List (ℕ × ℕ)} → Perm xs ys → weight xs ≡ weight ys
weight-perm same = ∥∥₁_elim same (ℕ_set _ _) weight-Permᴰ

heavy :
    (b : List (ℕ × ℕ))
    → Perm b (take 4 weighted)
    → nat_ranked.rank (half (total plus 0 b)) < nat_ranked.rank (total plus 0 b)
unfolding weight
heavy b same =
    let five : weight b ≡ 5 = weight-perm same in
    let all : total plus 0 b ≡ 5 = omega (arith, total-weight 0 b, five) in rw all (omega arith)

floatweightedmedian-IsMiddle_example :
    Returns
      (λ r.
        (b : List (ℕ × ℕ)) × Perm b (take 4 weighted)
        × IsSortedTo ⦃o = by_key nat_ranked⦄ b 4
        × IsMiddle 0 plus half (half (total plus 0 b)) 0 b r)
      (floatweightedmedian 0 plus half 4 weighted)
floatweightedmedian-IsMiddle_example =
    floatweightedmedian-IsMiddle 0 plus half 4 weighted (omega arith) (omega arith) heavy
