-- ===== src/Stat/Spread.antt =====
-- The quartiles and the spread around the median in
-- demo/spcam/sdfred20100528/mosaic/libsrc/sub_stat.c.
use mathlib.Core.List.Perm
use pwrake.Prelude.{
  ℕ, zero, suc, ◌*◌, ◌/◌, ◌%◌, ◌≤◌, ◌<◌, ◌≡◌, ◌∙◌, true, List, map, Perm, arith, length, length-map,
  take, length-take, ltb, leb, Returns, returns, Returns-bind,
}
use pwrake.Prelude.Perms.{length-perm}
use pwrake.Sort.Order.{Ranked}
use pwrake.Sort.Select.{nth}
use pwrake.Sort.Select.Counts.{count-perm}
use pwrake.Sort.Select.Branches.{IsQuantile, map-IsQuantile, IsSelected}
use pwrake.Sort.Select.Places.{IsNth}
use pwrake.Sort.Select.Quantile.{nth-selects}
use pwrake.Stat.{place, quarters, quartile, float_mad}

module _ {F : Type 0} ⦃o : Ranked F⦄ (mix : F → F → ℕ → ℕ → F) where
  -- Of at least two entries, the place is before the last.
  quartile_place : (q last : ℕ) → q ≤ 3 → 1 ≤ last → last * q / 4 < last
  quartile_place zero last small some_left = omega arith
  quartile_place (suc zero) last small some_left = omega arith
  quartile_place (suc (suc zero)) last small some_left = omega arith
  quartile_place (suc (suc (suc zero))) last small some_left = omega arith
  quartile_place (suc (suc (suc (suc q)))) last small some_left = absurd (omega arith)

  nth-quartile :
      (q last : ℕ) (dat : List F)
      → q ≤ 3
      → 1 ≤ last
      → length dat ≡ suc last
      → Returns
          (IsSelected mix (last * q / 4) (last * q % 4) dat)
          (nth mix (suc last) dat (place q (suc last)) (quarters q (suc last)))
  nth-quartile q last dat small some_left size = rw size at (
      nth-selects mix (last * q / 4) (last * q % 4) dat
        (omega (arith, size, quartile_place q last small some_left)))

  -- A quantile is one of the entries in another order.
  IsNth-perm : (xs ys : List F) (k : ℕ) (x : F) → Perm xs ys → IsNth xs k x → IsNth ys k x
  IsNth-perm xs ys k x same (before, behind) =
      let less = count-perm (λ y. ltb (o.rank y) (o.rank x)) same in
      let upto = count-perm (λ y. leb (o.rank y) (o.rank x)) same in
      (omega (arith, before, less), omega (arith, behind, upto))

  IsQuantile-perm :
      (xs ys : List F) (k s : ℕ) (r : F)
      → Perm xs ys
      → IsQuantile mix k s xs r
      → IsQuantile mix k s ys r
  IsQuantile-perm xs ys k s r same h =
      map-IsQuantile mix k k s xs ys r (λ x. IsNth-perm xs ys k x same)
        (λ x. IsNth-perm xs ys (suc k) x same) h

  -- Of at least two entries `floatmedian`, `floatquartile0` and `floatquartile2` end with no access
  -- outside the array, and return the value at two, one and three quarters of the way from the first
  -- entry to the last in ascending order.
  pub quartile-IsQuantile :
      (q last : ℕ) (dat : List F)
      → q ≤ 3
      → 1 ≤ last
      → last < length dat
      → Returns
          (IsQuantile mix (last * q / 4) (last * q % 4) (take (suc last) dat))
          (quartile mix q (suc last) dat)
  unfolding quartile
  quartile-IsQuantile q last dat small some_left inside =
      let a : List F = take (suc last) dat in
      let size : length a ≡ suc last = length-take (suc last) dat (omega (arith, inside)) in
      let all : leb (suc last) (length dat) ≡ true = ground (arith, inside) in
      rw all (
        Returns-bind (nth-quartile q last a small some_left size)
          (λ (m, left) selected. returns selected.0))

  -- Of at least two entries `float_mad` ends with no access outside the array, and returns the median of
  -- the distances of the entries to their median.
  pub float_mad-IsQuantile :
      (apart : F → F → F) (last : ℕ) (dat : List F)
      → 1 ≤ last
      → last < length dat
      → Returns
          (λ mad.
            (med : F) × IsQuantile mix (last * 2 / 4) (last * 2 % 4) (take (suc last) dat) med
            × IsQuantile mix
                (last * 2 / 4)
                (last * 2 % 4)
                (map (λ x. apart x med) (take (suc last) dat))
                mad)
          (float_mad mix apart (suc last) dat)
  unfolding float_mad
  float_mad-IsQuantile apart last dat some_left inside =
      let a : List F = take (suc last) dat in
      let size : length a ≡ suc last = length-take (suc last) dat (omega (arith, inside)) in
      let all : leb (suc last) (length dat) ≡ true = ground (arith, inside) in
      rw all (
        Returns-bind (nth-quartile 2 last a (omega arith) some_left size)
          (λ (med, left) (middle, same).
            let far : List F = map (λ x. apart x med) left in
            let moved : Perm far (map (λ x. apart x med) a) = Perm.map (λ x. apart x med) same in
            let size' : length far ≡ suc last =
              length-map (λ x. apart x med) left ∙ length-perm same ∙ size in
            Returns-bind (nth-quartile 2 last far (omega arith) some_left size')
              (λ (mad, left') (spread, same'). returns (
                med,
                middle,
                IsQuantile-perm far (map (λ x. apart x med) a) (last * 2 / 4) (last * 2 % 4) mad
                    moved spread,
              ))))
