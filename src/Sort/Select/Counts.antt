-- ===== src/Sort/Select/Counts.antt =====
-- How many entries of an array satisfy a test.
use mathlib.Core.Logic.{∥∥₁_elim}
use native.Mathlib.Nat.{ℕ_set}
use mathlib.Core.List.{Permᴰ}
use pwrake.Prelude.{
  ℕ, zero, suc, ◌+◌, ◌≤◌, ◌<◌, ◌≡◌, refl, ap, ◌∙◌, Bool, true, false, Bool-cases, inl, inr, List,
  [], ◌∷◌, ◌++◌, Perm, some, arith, length, get_elem?, if◌then◌else◌, some-inj,
}

module _ {A : Type 0} where
  module _ (p : A → Bool) where
    unfoldable pub count : List A → ℕ
    count [] = 0
    count (x ∷ xs) = (if p x then 1 else 0) + count xs

    pub count-append : (xs ys : List A) → count (xs ++ ys) ≡ count xs + count ys
    unfolding count
    count-append [] ys = omega arith
    count-append (x ∷ xs) ys = omega (arith, count-append xs ys)

    count-Permᴰ : {xs ys : List A} → Permᴰ xs ys → count xs ≡ count ys
    unfolding count
    count-Permᴰ (Permᴰ.trans before after) = count-Permᴰ before ∙ count-Permᴰ after
    count-Permᴰ (Permᴰ.swap x y) =
        omega (arith, ap (λ a. count (a ∷ [])) x, ap (λ a. count (a ∷ [])) y)
    count-Permᴰ (Permᴰ.cons x rest) = omega (arith, count-Permᴰ rest, ap (λ a. count (a ∷ [])) x)
    count-Permᴰ Permᴰ.nil = refl

    pub count-perm : {xs ys : List A} → Perm xs ys → count xs ≡ count ys
    count-perm same = ∥∥₁_elim same (ℕ_set _ _) count-Permᴰ

    pub count-all :
        (xs : List A)
        → ((j : ℕ) (x : A) → get_elem? xs j ≡ some x → p x ≡ true)
        → count xs ≡ length xs
    unfolding count
    count-all [] all = refl
    count-all (x ∷ xs) all = ground (arith, count-all xs (λ j y h. all (suc j) y h), all 0 x refl)

    pub count-none :
        (xs : List A) → ((j : ℕ) (x : A) → get_elem? xs j ≡ some x → p x ≡ false) → count xs ≡ 0
    unfolding count
    count-none [] all = refl
    count-none (x ∷ xs) all = ground (arith, count-none xs (λ j y h. all (suc j) y h), all 0 x refl)

    pub count-le : (xs : List A) → count xs ≤ length xs
    unfolding count
    count-le [] = omega arith
    count-le (x ∷ xs) = elim (Bool-cases (p x)) [
      | inl e ↦ ground (arith, e, count-le xs)
      | inr e ↦ ground (arith, e, count-le xs)
    ]

    pub count-lt :
        (xs : List A) (j : ℕ) (x : A) → get_elem? xs j ≡ some x → p x ≡ false → count xs < length xs
    unfolding count
    count-lt [] j x h fails = ground arith
    count-lt (y ∷ xs) zero x h fails =
        let same : y ≡ x = some-inj h in
        let here : p y ≡ false = rw same fails in ground (arith, here, count-le xs)
    count-lt (y ∷ xs) (suc j) x h fails =
        let rest = count-lt xs j x h fails in
        elim (Bool-cases (p y)) [
          | inl e ↦ ground (arith, e, rest)
          | inr e ↦ ground (arith, e, rest)
        ]

    pub count-pos :
        (xs : List A) (j : ℕ) (x : A) → get_elem? xs j ≡ some x → p x ≡ true → 0 < count xs
    unfolding count
    count-pos [] j x h holds = ground arith
    count-pos (y ∷ xs) zero x h holds =
        let same : y ≡ x = some-inj h in
        let here : p y ≡ true = rw same holds in ground (arith, here)
    count-pos (y ∷ xs) (suc j) x h holds = omega (arith, count-pos xs j x h holds)
