-- ===== src/Stat.antt =====
-- Medians and quartiles of demo/spcam/sdfred20100528/mosaic/libsrc/sub_stat.c. A place between the entries
-- of `ndat` is a number of quarters; `(float)(ndat-1)` is exact below 2^24 entries.
use pwrake.Prelude.{
  ℕ, zero, suc, ◌+◌, ◌-◌, ◌*◌, ◌/◌, ◌%◌, Bool, true, false, List, [], ◌∷◌, map, Option, none, some,
  length, get_elem?, take, ltb, leb, ◌==◌, if◌then◌else◌, ◌>>=◌,
}
use pwrake.Prelude.Int.{ℤ, pos, negsuc}
use pwrake.Sort.Order.{Ranked, gt}
use pwrake.Sort.Select.{nth, eq}
use pwrake.Sort.Heap.{heapsort2_pairs}
pub mod Doubles
pub mod Spread
pub mod Weighted
pub mod Tests

-- `memcpy(a,dat,sizeof(float)*ndat);`
abbrev pub copy : {A : Type 0} → ℕ → List A → Option (List A)
copy ndat dat = if leb ndat (length dat) then some (take ndat dat) else none

-- The integer part of `(ndat-1)*q/4`, and the quarters behind it.
abbrev pub place : ℕ → ℕ → ℤ
place q zero = negsuc 0
place q (suc last) = pos (last * q / 4)

abbrev pub quarters : ℕ → ℕ → ℕ
quarters q zero = 4 - q
quarters q (suc last) = last * q % 4

module _ {F : Type 0} ⦃o : Ranked F⦄ (mix : F → F → ℕ → ℕ → F) where
  unfoldable pub quartile : ℕ → ℕ → List F → Option F
  unfolding nth
  quartile q ndat dat = do
    a ← copy ndat dat
    (m, left) ← nth mix ndat a (place q ndat) (quarters q ndat)
    some m

  unfoldable pub floatmedian : ℕ → List F → Option F
  unfolding quartile
  floatmedian = quartile 2

  unfoldable pub floatquartile0 : ℕ → List F → Option F
  unfolding quartile
  floatquartile0 = quartile 1

  unfoldable pub floatquartile2 : ℕ → List F → Option F
  unfolding quartile
  floatquartile2 = quartile 3

  -- `apart x med` is `(float)fabs(x-med)`.
  module _ (apart : F → F → F) where
    unfoldable pub float_mad : ℕ → List F → Option F
    unfolding nth
    float_mad ndat dat = do
      a ← copy ndat dat
      (med, left) ← nth mix ndat a (place 2 ndat) (quarters 2 ndat)
      (mad, left') ← nth mix ndat (map (λ x. apart x med) left) (place 2 ndat) (quarters 2 ndat)
      some mad

module _ {F : Type 0} (plus : F → F → F) where
  -- `for(i=0;i<ndat;i++) sw+=w[i];` of pairs of an entry and its weight.
  unfoldable pub total : F → List (F × F) → F
  total sw [] = sw
  total sw ((a, w) ∷ rest) = total (plus sw w) rest

module _ {F : Type 0} ⦃o : Ranked F⦄ (zero_sum : F) (plus : F → F → F) (half : F → F) where
  -- The loop that looks for the middle; it may read the entry behind its own.
  unfoldable pub middle : F → F → List (F × F) → Option F
  middle mw sw [] = some zero_sum
  middle mw sw ((a, w) ∷ rest) =
      let here = plus sw w in
      if gt here mw
      then some a
      else if eq here mw
      then (do (b, v) ← get_elem? rest 0; some (half (plus a b)))
      else middle mw here rest

  unfoldable pub floatweightedmedian : ℕ → List (F × F) → Option F
  unfolding heapsort2_pairs total middle
  floatweightedmedian ndat dat =
      let sorted = (do
        a ← copy ndat dat
        b ← heapsort2_pairs ndat a
        middle (half (total plus zero_sum b)) zero_sum b) in
      if ndat == 1 then (do (x, w) ← get_elem? dat 0; some x) else sorted
