-- ===== src/Match/Rows.antt =====
-- `struct CatalogRow`, and what the program takes from libm.
use pwrake.Prelude.{ℕ, Option}

-- The fields `near` and `reject`, which nothing uses, are left out. `none` as `min_idx` is -1.
pub record CatalogRow (F : Type 0) : Type 0 where
  pub line : ℕ
  pub lon : F
  pub lat : F
  pub err : F
  pub min_ang : F
  pub min_idx : Option ℕ

-- Floating-point arithmetic and libm's functions. `d2r` and `half_turn` are D2R and 180.
pub record Trig (F : Type 0) : Type 0 where
  pub mul : F → F → F
  pub add : F → F → F
  pub cos : F → F
  pub sin : F → F
  pub acos : F → F
  pub d2r : F
  pub half_turn : F
