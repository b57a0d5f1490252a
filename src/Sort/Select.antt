-- ===== src/Sort/Select.antt =====
-- `nth` of demo/spcam/sdfred20100528/mosaic/libsrc/sub_sort.c and `nthd` of sub_sortd.c. The float
-- `n`, a place between the entries in ascending order, is an integer part `k` and a fraction `s`, which
-- is 0 for an integer; comparisons of `n` with an `int` and the subtraction of a smaller `int` are exact.
use pwrake.Prelude.{
  ℕ, zero, suc, ◌+◌, ◌-◌, Bool, ◌&&◌, ◌||◌, List, ◌++◌, Option, none, some, get_elem?, write, take,
  drop, ltb, leb, ◌==◌, if◌then◌else◌, ◌>>=◌,
}
use pwrake.Prelude.Int.{ℤ, pos, negsuc}
use pwrake.Sort.Order.{Ranked, gt, lt}
use pwrake.Sort.Extrema.{floatmin, floatmax}
pub mod Counts
pub mod Swapped
pub mod Split
pub mod Places
pub mod Branches
pub mod Quantile

-- The `n` entries from `dat+from` on.
abbrev pub slice : {A : Type 0} → ℕ → ℕ → List A → List A
slice from n dat = take n (drop from dat)

-- `temp=dat[i]; dat[i]=dat[j]; dat[j]=temp;`
unfoldable pub swap : {A : Type 0} → List A → ℕ → ℕ → Option (List A)
swap dat i j = do
  temp ← get_elem? dat i
  y ← get_elem? dat j
  moved ← write dat i y
  write moved j temp

module _ {F : Type 0} ⦃o : Ranked F⦄ where
  -- `dat[i]==a`
  abbrev pub eq : F → F → Bool
  eq x a = o.rank x == o.rank a

  -- `for(i=1;i<nmax;i++)`: `dat`, `nmax` and `nsame` at its end.
  unfoldable pub split : ℕ → F → ℕ → ℕ → ℕ → List F → Option (List F × ℕ × ℕ)
  unfolding swap
  split zero a i nmax nsame dat = none
  split (suc fuel) a i nmax nsame dat =
      let body = do
        x ← get_elem? dat i
        let up = swap dat i (nmax - 1) >>= split fuel a i (nmax - 1) nsame
        let level = swap dat i nsame >>= split fuel a (suc i) nmax (suc nsame)
        let down = split fuel a (suc i) nmax nsame dat
        if gt x a then up else if eq x a then level else down
      in if ltb i nmax then body else some (dat, nmax, nsame)

  -- `mix x y k s` is `x*(1.-n)+n*y` for the float `n` of integer part `k` and fraction `s`.
  module _ (mix : F → F → ℕ → ℕ → F) where
    -- `nth` at a place that is not negative: the value, and the array as it leaves it.
    unfoldable pub nth_from : ℕ → ℕ → List F → ℕ → ℕ → Option (F × List F)
    unfolding split floatmin floatmax
    nth_from zero ndat dat k s = none
    nth_from (suc fuel) zero dat k s = none
    nth_from (suc fuel) (suc last) dat k s =
        let ndat = suc last in
        let end = (do x ← get_elem? dat last; some (x, dat)) in
        let first = (do x ← get_elem? dat 0; some (x, dat)) in
        let pair = (do
          x ← get_elem? dat 0
          y ← get_elem? dat 1
          some (if lt x y then mix x y k s else mix y x k s, dat)) in
        let parted = (do
          a ← get_elem? dat 0
          (d, nmax, nsame) ← split (ndat + 1) a 1 ndat 1 dat
          let less = nmax - nsame
          let here = some (a, d)
          let left = (do
            (x, sub) ← nth_from fuel less (slice nsame less d) k s
            some (x, take nsame d ++ (sub ++ drop nmax d)))
          let below = (do
            x ← floatmax less (slice nsame less d)
            y ← get_elem? d 0
            some (mix x y (k - (less - 1)) s, d))
          let above = (do
            x ← get_elem? d 0
            y ← floatmin (ndat - nmax) (slice nmax (ndat - nmax) d)
            some (mix x y (k - (nmax - 1)) s, d))
          let right = (do
            (x, sub) ← nth_from fuel (ndat - nmax) (slice nmax (ndat - nmax) d) (k - nmax) s
            some (x, take nmax d ++ sub))
          let no_greater = if leb less k then here else if ltb (suc k) less then left else below
          if nmax == ndat
              then no_greater
              else if ltb (suc k) less
              then left
              else if ltb k less
              then below
              else if ltb k (nmax - 1) || (k == nmax - 1 && s == 0)
              then here
              else if ltb k nmax
              then above
              else right) in
        if leb last k then end else if ndat == 1 then first else if leb ndat 2 then pair else parted

    -- A negative place, with `-k-1` for its integer part, is before every entry.
    unfoldable pub nth : ℕ → List F → ℤ → ℕ → Option (F × List F)
    unfolding nth_from
    nth ndat dat (pos k) s = nth_from (ndat + 1) ndat dat k s
    nth ndat dat (negsuc k) s = do x ← get_elem? dat 0; some (x, dat)

    unfoldable pub nthd : ℕ → List F → ℤ → ℕ → Option (F × List F)
    unfolding nth
    nthd = nth
