-- ===== src/Paint/Flood/Alike.antt =====
-- `doflood2` does what `doflood3r` does with the value 1.
use pwrake.Prelude.{ℕ, ◌≤◌, ◌≡◌, refl, ap, Bool, arith}
use pwrake.Prelude.Int.{ℤ}
use pwrake.Paint.Fill.{Canvas, index, mark, mark2}
use pwrake.Paint.Fill.Alike.{flood-Alike}
use pwrake.Paint.Flood.{doflood3r, doflood2}

module _ {F : Type 0} (tmp : ℕ → F) (npx npy : ℕ) (check : F → Bool) where
  -- The same counts and the same maps, of zeros and ones.
  abbrev SameMarks : Canvas F → Canvas F → Type 0
  SameMarks c1 c2 = (c1.npix ≡ c2.npix) × ((k : ℕ) → (c1.map k ≡ c2.map k) × (c1.map k ≤ 1))

  mark-SameMarks :
      (idx : ℕ) (col row : ℤ) (v : F) (c1 c2 : Canvas F)
      → SameMarks c1 c2
      → SameMarks (mark 1 idx col row v c1) (mark2 idx col row v c2)
  unfolding mark mark2
  mark-SameMarks idx col row v c1 c2 (n, m) =
      (ground (arith, n, m idx), λ k. ground (arith, m k, m idx, ap c1.map))

  -- On a map of zeros and ones, after any number of turns, `doflood2` and `doflood3r` with the
  -- value 1 have counted the same number of pixels and have the same map and the same lists.
  pub doflood2-doflood3r :
      (x y : ℤ) (map : ℕ → ℕ) (fuel : ℕ)
      → ((k : ℕ) → map k ≤ 1)
      → let a = doflood3r tmp npx npy x y check map 1 fuel in
        let b = doflood2 tmp npx npy x y check map fuel in
        (a.0 ≡ b.0) × (a.1.npix ≡ b.1.npix) × ((k : ℕ) → a.1.map k ≡ b.1.map k)
  unfolding doflood3r doflood2
  doflood2-doflood3r x y map fuel small =
      let (lists, (n, m)) =
        flood-Alike tmp npx npy check (mark 1) mark2 SameMarks
          (λ col row c1 c2 _ r.
            mark-SameMarks (index npx col row) col row (tmp (index npx col row)) c1 c2 r)
          fuel x y map (refl, λ k. (refl, small k)) in
      (lists, n, λ k. (m k).0)
