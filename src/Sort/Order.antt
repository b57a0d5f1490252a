-- ===== src/Sort/Order.antt =====
-- The order of C's floating-point comparisons, and arrays in that order.
use Prim.Native.Nat.{min}
use pwrake.Prelude.{
  ℕ, zero, suc, ◌-◌, ◌≤◌, ◌<◌, ◌≡◌, refl, Bool, List, [], ◌∷◌, some, arith, length, get_elem?, set,
  ltb, leb, ◌==◌, if◌then◌else◌,
}

-- Finitely many floats are not NaN, and `<` orders them as numbers; `rank` counts the classes
-- below a value (0.0 and -0.0 have one rank).
pub record Ranked (F : Type 0) : Type 0 where
  pub rank : F → ℕ
  pub top : ℕ
  pub rank_le : (x : F) → rank x ≤ top

-- Small numbers as values: a test's floats.
instance abbrev pub nat_ranked : Ranked ℕ
nat_ranked = record { rank = λ n. min n 65535; top = 65535; rank_le = λ n. omega arith }

-- Records that are compared by a key.
abbrev pub by_key : {F V : Type 0} → Ranked F → Ranked (F × V)
by_key o = record { rank = λ p. o.rank p.0; top = o.top; rank_le = λ p. o.rank_le p.0 }

-- The order turned round.
abbrev pub dual : {F : Type 0} → Ranked F → Ranked F
dual o = record { rank = λ x. o.top - o.rank x; top = o.top; rank_le = λ x. omega arith }

module _ {F : Type 0} ⦃o : Ranked F⦄ where
  -- `a > b`
  abbrev pub gt : F → F → Bool
  gt a b = ltb (o.rank b) (o.rank a)

  -- `a >= b`
  abbrev pub ge : F → F → Bool
  ge a b = leb (o.rank b) (o.rank a)

  -- `a < b`
  abbrev pub lt : F → F → Bool
  lt a b = ltb (o.rank a) (o.rank b)

  -- `a <= b`
  abbrev pub le : F → F → Bool
  le a b = leb (o.rank a) (o.rank b)

  unfoldable pub key : List F → ℕ → ℕ
  key [] i = 0
  key (x ∷ a) zero = o.rank x
  key (x ∷ a) (suc i) = key a i

  -- The first `m` entries ascend.
  abbrev pub IsSortedTo : List F → ℕ → Type 0
  IsSortedTo a m = (j k : ℕ) → j < k → k < m → key a j ≤ key a k

  pub key-get_elem? : (a : List F) (i : ℕ) (v : F) → get_elem? a i ≡ some v → key a i ≡ o.rank v
  unfolding key
  key-get_elem? [] i v h = ground arith
  key-get_elem? (x ∷ a) zero v h = ground arith
  key-get_elem? (x ∷ a) (suc i) v h = key-get_elem? a i v h

  pub key-set :
      (a : List F) (i j : ℕ) (v : F)
      → i < length a
      → key (set a i v) j ≡ (if i == j then o.rank v else key a j)
  unfolding key
  key-set [] i j v h = absurd (omega arith)
  key-set (x ∷ a) zero zero v h = refl
  key-set (x ∷ a) zero (suc j) v h = ground arith
  key-set (x ∷ a) (suc i) zero v h = ground arith
  key-set (x ∷ a) (suc i) (suc j) v h = ground (arith, key-set a i j v)
