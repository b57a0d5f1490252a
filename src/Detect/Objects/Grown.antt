-- ===== src/Detect/Objects/Grown.antt =====
-- How the map grows with a flood.
use pwrake.Prelude.{ℕ, ◌≡◌, ◌≢◌, ap, ◌∙◌, ◌⊎◌, inl, inr, true, arith}
use pwrake.Prelude.Int.{ℤ, pos, ◌+ℤ◌, ◌-ℤ◌, eq_of_parts, +ℤ_parts, -ℤ_parts}
use pwrake.Sort.Order.{Ranked, gt}
use pwrake.Paint.Fill.{Canvas, passes}
use pwrake.Paint.Flood.{doflood3r, flood_greaterthan}
use pwrake.Paint.Flood.Marks.{IsMarked, untouched, marked, doflood3r-IsFlooded}

pub add_sub : (i : ℕ) (a : ℤ) → pos i +ℤ a -ℤ a ≡ pos i
add_sub i a = eq_of_parts _ _ (omega (arith, +ℤ_parts (pos i) a, -ℤ_parts (pos i +ℤ a) a))

module _ {F : Type 0} ⦃o : Ranked F⦄ (pix : ℕ → F) (npx npy : ℕ) (thres : F) where
  abbrev pub IsAbove : ℕ → Type 0
  IsAbove k = gt (pix k) thres ≡ true

  -- From one map to a later one: marks stay, and new ones stand above the threshold.
  pub record Grows (m m' : ℕ → ℕ) : Type 0 where
    pub stays : (k : ℕ) → m k ≢ 0 → m' k ≢ 0
    pub above : (k : ℕ) → m' k ≢ 0 → (m k ≢ 0) ⊎ IsAbove k

  pub Grows-refl : (m : ℕ → ℕ) → Grows m m
  Grows-refl m = record { stays = λ k h. h; above = λ k h. inl h }

  pub Grows-trans : {m1 m2 m3 : ℕ → ℕ} → Grows m1 m2 → Grows m2 m3 → Grows m1 m3
  Grows-trans g1 g2 = record {
    stays = λ k h. g2.stays k (g1.stays k h);
    above = λ k h. elim (g2.above k h) [ inl e ↦ g1.above k e | inr e ↦ inr e ];
  }

  module _ (m : ℕ → ℕ) (id : ℕ) (c : Canvas F) (k : ℕ) where
    marked-stays :
        IsMarked pix npx npy (flood_greaterthan thres) m id k c → id ≢ 0 → m k ≢ 0 → c.map k ≢ 0
    marked-stays (untouched old _) nonzero h = λ e. h (ground (arith, old, e))
    marked-stays (marked _ _ _ _ was _ _) nonzero h = λ e. h was

    marked-IsAbove :
        IsMarked pix npx npy (flood_greaterthan thres) m id k c
        → c.map k ≢ 0
        → (m k ≢ 0) ⊎ IsAbove k
    unfolding passes flood_greaterthan
    marked-IsAbove (untouched old _) h = inl (λ e. h (old ∙ e))
    marked-IsAbove (marked col row at hit _ _ _) h =
        inr (ground (arith, ap (λ j. gt (pix j) thres) at, hit))

  pub flood-Grows :
      (m : ℕ → ℕ) (id : ℕ) (x y : ℤ) (fuel : ℕ)
      → id ≢ 0
      → Grows m (doflood3r pix npx npy x y (flood_greaterthan thres) m id fuel).1.map
  flood-Grows m id x y fuel nonzero =
      let c = (doflood3r pix npx npy x y (flood_greaterthan thres) m id fuel).1 in
      let v = doflood3r-IsFlooded pix npx npy (flood_greaterthan thres) m id x y fuel nonzero in
      record {
        stays = λ k h. marked-stays m id c k (v.pixels k) nonzero h;
        above = λ k h. marked-IsAbove m id c k (v.pixels k) h;
      }
