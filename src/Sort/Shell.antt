-- ===== src/Sort/Shell.antt =====
-- `shellsort` of demo/spcam/sdfred20100528/mosaic/libsrc/sub_sort.c.
use mathlib.Core.List.Perm
use pwrake.Prelude.{
  ℕ, zero, suc, ◌+◌, ◌-◌, ◌*◌, ◌/◌, ◌≤◌, ◌<◌, ◌≡◌, refl, List, Perm, Option, none, some, arith,
  length, get_elem?, set, write, ltb, leb, if◌then◌else◌, ◌>>=◌,
}
use pwrake.Sort.Order.{Ranked, gt}
pub mod Gaps
pub mod Sorted

-- `while (h<=n) h=3*h+1;`
pub grow : ℕ → ℕ → ℕ → Option ℕ
grow zero n h = none
grow (suc fuel) n h = let rest = grow fuel n (3 * h + 1) in if leb h n then rest else some h

module _ {F : Type 0} ⦃o : Ranked F⦄ where
  -- `for (j=i-h; j>=0 && a[j]>x; j-=h) a[j+h]=a[j];  a[j+h]=x;` with `p` for `j + h`.
  pub shift : ℕ → ℕ → F → ℕ → List F → Option (List F)
  shift zero h x p a = none
  shift (suc fuel) h x p a =
      let inner = do
        y ← get_elem? a (p - h)
        let move = write a p y >>= shift fuel h x (p - h)
        if gt y x then move else write a p x
      in if ltb p h then write a p x else inner

  -- `for (i=h; i<n; i++)`, with the rounds that are left.
  pub pass : ℕ → ℕ → ℕ → List F → Option (List F)
  unfolding shift
  pass zero h i a = some a
  pass (suc left) h i a = do x ← get_elem? a i; b ← shift (suc i) h x i a; pass left h (i + 1) b

  -- `while (h>0) { ... h/=3; }`
  pub passes : ℕ → ℕ → ℕ → List F → Option (List F)
  unfolding pass
  passes zero n h a = none
  passes (suc fuel) n h a =
      let round = pass (n - h) h h a >>= passes fuel n (h / 3) in if ltb 0 h then round else some a

  unfoldable pub shellsort : ℕ → List F → Option (List F)
  unfolding grow passes
  shellsort n a = do h ← grow (n + 1) n 1; passes (h / 9 + 1) n (h / 9) a
