-- ===== src/Sort/Extrema.antt =====
-- `floatmin` and `floatmax` of sub_sort.c, `doublemin` and `doublemax` of sub_sortd.c.
use pwrake.Prelude.{
  ℕ, zero, suc, ◌+◌, ◌-◌, ◌≤◌, ◌<◌, ◌≡◌, sym, ap, ◌∙◌, ==→≡, ◌==◌, Bool, Bool-cases, inl, inr, true,
  false, List, Option, some, arith, length, get_elem?, get_elem?-ok, if◌then◌else◌, ◌>>=◌, Returns,
  returns, some-inj,
}
use mathlib.Core.Path.{subst}
use pwrake.Sort.Order.{Ranked, lt, gt}

-- The loop over `i`, with the rounds left; `better` is the comparison of an entry with the best.
pub scan_best : {E : Type 0} → (E → E → Bool) → ℕ → ℕ → E → List E → Option E
scan_best better zero i best dat = some best
scan_best better (suc left) i best dat = do
  x ← get_elem? dat i
  scan_best better left (suc i) (if better x best then x else best) dat

module _ {F : Type 0} ⦃o : Ranked F⦄ where
  unfoldable pub floatmin : ℕ → List F → Option F
  unfolding scan_best
  floatmin ndat dat = do x ← get_elem? dat 0; scan_best (λ a b. lt a b) (ndat - 1) 1 x dat

  unfoldable pub floatmax : ℕ → List F → Option F
  unfolding scan_best
  floatmax ndat dat = do x ← get_elem? dat 0; scan_best (λ a b. gt a b) (ndat - 1) 1 x dat

module _ {E : Type 0} (better : E → E → Bool) (R : E → E → Type 0) (same : (x : E) → R x x)
    (chain : (x y z : E) → R x y → R y z → R x z)
    (is_better : (x y : E) → better x y ≡ true → R x y)
    (is_not : (x y : E) → better x y ≡ false → R y x) (dat : List E) where
  -- `m` is an entry that no entry before `n` beats.
  abbrev IsBest : ℕ → E → Type 0
  IsBest n m =
      ((p : ℕ) × (get_elem? dat p ≡ some m))
      × ((j : ℕ) (y : E) → get_elem? dat j ≡ some y → j < n → R m y)

  next-IsBest :
      (i : ℕ) (best x : E)
      → get_elem? dat i ≡ some x
      → IsBest i best
      → IsBest (suc i) (if better x best then x else best)
  next-IsBest i best x h (at, all) = elim (Bool-cases (better x best)) [
    | inl e ↦ rw e (
      (i, h),
      λ j y hy lj.
          by_place j y hy (λ below. chain x best y (is_better x best e) (all j y hy below)) (same x)
            lj,
    )
    | inr e ↦
        rw e (at, λ j y hy lj. by_place j y hy (λ below. all j y hy below) (is_not x best e) lj)
  ]
    where
      by_place :
          {m : E} (j : ℕ) (y : E)
          → get_elem? dat j ≡ some y
          → (j < i → R m y)
          → R m x
          → j < suc i
          → R m y
      by_place {m} j y hy below here lt = elim (Bool-cases (j == i)) [
        | inl e ↦ subst (R m) (some-inj (sym h ∙ ap (get_elem? dat) (sym (==→≡ j i e)) ∙ hy)) here
        | inr e ↦ below (ground arith)
      ]

  scan_best-IsBest :
      (left i : ℕ) (best : E)
      → i + left ≡ length dat
      → IsBest i best
      → Returns (IsBest (length dat)) (scan_best better left i best dat)
  unfolding scan_best
  scan_best-IsBest zero i best size v = let e : i ≡ length dat = omega arith in returns (rw e at v)
  scan_best-IsBest (suc left) i best size v =
      let (x, h) = get_elem?-ok dat i (omega arith) in
      rw h (
        scan_best-IsBest left (suc i) (if better x best then x else best) (omega arith)
          (next-IsBest i best x h v))

  first-IsBest : (x : E) → get_elem? dat 0 ≡ some x → IsBest 1 x
  first-IsBest x h = ((0, h), λ j y hy lj. at_zero j y hy lj)
    where
      at_zero : (j : ℕ) (y : E) → get_elem? dat j ≡ some y → j < 1 → R x y
      at_zero zero y hy lj = subst (R x) (some-inj (sym h ∙ hy)) (same x)
      at_zero (suc j) y hy lj = absurd (omega arith)

module _ {F : Type 0} ⦃o : Ranked F⦄ (dat : List F) (some_entry : 0 < length dat) where
  -- Of an array with an entry, `floatmin` returns an entry that none is below, with no access outside.
  pub floatmin-least :
      Returns
        (λ m.
          ((p : ℕ) × (get_elem? dat p ≡ some m))
          × ((j : ℕ) (y : F) → get_elem? dat j ≡ some y → j < length dat → o.rank m ≤ o.rank y))
        (floatmin (length dat) dat)
  unfolding floatmin
  floatmin-least =
      let better : F → F → Bool = λ a b. lt a b in
      let R : F → F → Type 0 = λ a b. o.rank a ≤ o.rank b in
      let (x, h) = get_elem?-ok dat 0 some_entry in
      let first =
        first-IsBest better R (λ a. omega arith) (λ a b c p q. omega arith) (λ a b e. ground arith)
          (λ a b e. ground arith) dat x h in
      rw h (
        scan_best-IsBest better R (λ a. omega arith) (λ a b c p q. omega arith)
          (λ a b e. ground arith) (λ a b e. ground arith) dat (length dat - 1) 1 x (omega arith)
          first)

  -- Of an array with an entry, `floatmax` returns an entry that none is above, with no access outside.
  pub floatmax-greatest :
      Returns
        (λ m.
          ((p : ℕ) × (get_elem? dat p ≡ some m))
          × ((j : ℕ) (y : F) → get_elem? dat j ≡ some y → j < length dat → o.rank y ≤ o.rank m))
        (floatmax (length dat) dat)
  unfolding floatmax
  floatmax-greatest =
      let better : F → F → Bool = λ a b. gt a b in
      let R : F → F → Type 0 = λ a b. o.rank b ≤ o.rank a in
      let (x, h) = get_elem?-ok dat 0 some_entry in
      let first =
        first-IsBest better R (λ a. omega arith) (λ a b c p q. omega arith) (λ a b e. ground arith)
          (λ a b e. ground arith) dat x h in
      rw h (
        scan_best-IsBest better R (λ a. omega arith) (λ a b c p q. omega arith)
          (λ a b e. ground arith) (λ a b e. ground arith) dat (length dat - 1) 1 x (omega arith)
          first)
