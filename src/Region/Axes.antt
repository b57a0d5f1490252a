-- ===== src/Region/Axes.antt =====
-- The columns, or the rows, that a rectangle and an image share, for `imextra` of
-- demo/spcam/sdfred20100528/mosaic/starsel/imopr.c.
use pwrake.Prelude.{ℕ, suc, ◌+◌, ◌-◌, ◌≤◌, ◌<◌, ◌≡◌, refl, ◌⊎◌, inl, inr, arith, true, false}
use pwrake.Prelude.Int.{ℤ, pos, negsuc, pos_part, neg_part, ◌+ℤ◌, ◌-ℤ◌, ◌<ℤ◌, ◌≤ℤ◌, leb_ℤ}
use pwrake.Region.{extent}

-- The rectangle from `x0` to `x0+w` has `w+1` columns.
pub span : (x0 : ℤ) (w : ℕ) → (x0 +ℤ pos w) -ℤ x0 +ℤ pos 1 ≡ pos (suc w)
unfolding ◌+ℤ◌ ◌-ℤ◌
span x0 w = ground arith

-- The columns that the rectangle shares with an image of `npx`.
abbrev pub shared : ℕ → ℕ → ℤ → ℕ
shared npx w x0 = pos_part (extent npx x0 (x0 +ℤ pos w))

module _ (npx w : ℕ) (x0 : ℤ) (some_column : 0 < npx) where
  pub shared-inside : 0 < shared npx w x0 → neg_part x0 + shared npx w x0 ≤ suc w
  unfolding ◌+ℤ◌ ◌-ℤ◌
  shared-inside h = ground arith

  pub shared-source : 0 < shared npx w x0 → pos_part x0 + shared npx w x0 ≤ npx
  unfolding ◌+ℤ◌ ◌-ℤ◌
  shared-source h = ground arith

  pub shared-column :
      (c x : ℕ)
      → c ≤ w
      → x < npx
      → pos x ≡ x0 +ℤ pos c
      → (u : ℕ) × (u < shared npx w x0) × (c ≡ neg_part x0 + u) × (x ≡ pos_part x0 + u)
  unfolding ◌+ℤ◌ ◌-ℤ◌
  shared-column c x lc lx e = (c - neg_part x0, ground arith, ground arith, ground arith)

  pub shared-outside :
      (c : ℕ)
      → c ≤ w
      → (x0 +ℤ pos c <ℤ pos 0) ⊎ (pos npx ≤ℤ x0 +ℤ pos c)
      → (c < neg_part x0) ⊎ (neg_part x0 + shared npx w x0 ≤ c)
  unfolding ◌+ℤ◌ ◌-ℤ◌
  shared-outside c lc (inl lt) = inl (ground arith)
  shared-outside c lc (inr le) = inr (ground arith)

pub none_shared : (n : ℤ) → leb_ℤ n (pos 0) ≡ true → pos_part n ≡ 0
none_shared (pos n) h = ground arith
none_shared (negsuc n) h = refl

pub some_shared : (n : ℤ) → leb_ℤ n (pos 0) ≡ false → 0 < pos_part n
some_shared (pos n) h = ground arith
some_shared (negsuc n) h = absurd (ground arith)
