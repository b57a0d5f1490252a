-- ===== src/Sort/Select/Branches.antt =====
-- The branches of `nth` behind its partition.
use mathlib.Core.List.Perm
use pwrake.Prelude.{
  ℕ, zero, suc, ◌+◌, ◌-◌, ◌≤◌, ◌<◌, ◌≡◌, refl, sym, inl, inr, ◌⊎◌, [], ◌∷◌, Bool-cases, List, ◌++◌,
  Perm, some, arith, length, get_elem?, take, drop, take-length, take-append-drop, if◌then◌else◌,
  Returns, returns, Returns-bind, ◌>>=◌,
}
use pwrake.Sort.Order.{Ranked, lt}
use pwrake.Sort.Extrema.{floatmin, floatmax}
use pwrake.Sort.Select.{slice, nth_from}
use pwrake.Sort.Select.Counts.{count}
use pwrake.Sort.Select.Split.{IsSplit}
use pwrake.Sort.Select.Places.{
  IsNth, sizes, all_parts, lower-IsNth, upper-IsNth, here-IsNth, greatest-IsNth, least-IsNth,
}

module _ {F : Type 0} ⦃o : Ranked F⦄ where
  module _ (mix : F → F → ℕ → ℕ → F) where
    -- The value at the place of integer part `k` and fraction `s`: the entry there, or what lies
    -- between it and the next.
    abbrev pub IsQuantile : ℕ → ℕ → List F → F → Type 0
    IsQuantile k s dat r =
        ((x : F) × (y : F) × IsNth dat k x × IsNth dat (suc k) y × (r ≡ mix x y 0 s))
        ⊎ (IsNth dat k r × ((s ≡ 0) ⊎ IsNth dat (suc k) r))

    pub map-IsQuantile :
        (k k' s : ℕ) (xs ys : List F) (r : F)
        → ((x : F) → IsNth xs k x → IsNth ys k' x)
        → ((x : F) → IsNth xs (suc k) x → IsNth ys (suc k') x)
        → IsQuantile k s xs r
        → IsQuantile k' s ys r
    map-IsQuantile k k' s xs ys r now next (inl (x, y, hx, hy, e)) =
        inl (x, y, now x hx, next y hy, e)
    map-IsQuantile k k' s xs ys r now next (inr (hr, inl e)) = inr (now r hr, inl e)
    map-IsQuantile k k' s xs ys r now next (inr (hr, inr h)) = inr (now r hr, inr (next r h))

    pair-IsQuantile :
        (s : ℕ) (x y : F)
        → IsQuantile 0 s (x ∷ y ∷ []) (if lt x y then mix x y 0 s else mix y x 0 s)
    unfolding count
    pair-IsQuantile s x y = elim (Bool-cases (lt x y)) [
      | inl e ↦ rw e (inl (x, y, ground (arith, e), ground (arith, e), refl))
      | inr e ↦ rw e (inl (y, x, ground (arith, e), ground (arith, e), refl))
    ]

    -- The result of `nth`: a value at the place, and a rearrangement of the array.
    abbrev pub IsSelected : ℕ → ℕ → List F → F × List F → Type 0
    IsSelected k s dat (r, left) = IsQuantile k s dat r × Perm left dat

    pub pair-IsSelected :
        (k s : ℕ) (dat : List F)
        → length dat ≤ 2
        → suc k < length dat
        → Returns (IsSelected k s dat) (do
          x ← get_elem? dat 0
          y ← get_elem? dat 1
          some (if lt x y then mix x y k s else mix y x k s, dat))
    pair-IsSelected k s [] small inside = absurd (omega arith)
    pair-IsSelected k s (x ∷ []) small inside = absurd (omega arith)
    pair-IsSelected zero s (x ∷ y ∷ []) small inside =
        returns (pair-IsQuantile s x y, Perm.refl (x ∷ y ∷ []))
    pair-IsSelected (suc k) s (x ∷ y ∷ []) small inside = absurd (omega arith)
    pair-IsSelected k s (x ∷ y ∷ z ∷ dat) small inside = absurd (omega arith)

    -- The branches behind the partition.
    module _ (a : F) (dat : List F) (d : List F) (nmax nsame : ℕ)
        (parts : IsSplit a dat (d, nmax, nsame)) (k s : ℕ) (inside : suc k < length dat) where
      abbrev size : ℕ
      size = nmax - nsame

      abbrev low : List F
      low = slice nsame size d

      abbrev high : List F
      high = slice nmax (length dat - nmax) d

      high_is : drop nmax d ≡ high
      high_is =
          sym (
            take-length (drop nmax d) (length dat - nmax)
              (sym ((sizes a dat d nmax nsame parts).2)))

      pub here-IsSelected :
          size ≤ k → k < nmax → (s ≡ 0) ⊎ (suc k < nmax) → IsSelected k s dat (a, d)
      here-IsSelected le lt (inl e) =
          (inr (here-IsNth a dat d nmax nsame parts k le lt, inl e), parts.0)
      here-IsSelected le lt (inr next) = (
        inr (
          here-IsNth a dat d nmax nsame parts k le lt,
          inr (here-IsNth a dat d nmax nsame parts (suc k) (omega arith) next),
        ),
        parts.0,
      )

      pub left-IsSelected :
          suc k < size
          → (r : F × List F) → IsSelected k s low r
          → IsSelected k s dat (r.0, take nsame d ++ (r.1 ++ drop nmax d))
      left-IsSelected lt (r, sub) (found, perm) =
          let same = all_parts a dat d nmax nsame parts in
          let inner = Perm.append_left (take nsame d) (Perm.append_right (drop nmax d) perm) in
          (
            map-IsQuantile k k s low dat r
                (λ x h. lower-IsNth a dat d nmax nsame parts k x (omega arith) h)
                (λ x h. lower-IsNth a dat d nmax nsame parts (suc k) x lt h) found,
            Perm.trans (rw same at inner) parts.0,
          )

      pub right-IsSelected :
          nmax ≤ k
          → (r : F × List F) → IsSelected (k - nmax) s high r
          → IsSelected k s dat (r.0, take nmax d ++ r.1)
      right-IsSelected le (r, sub) (found, perm) =
          let place : nmax + (k - nmax) ≡ k = omega arith in
          let next : nmax + suc (k - nmax) ≡ suc k = omega arith in
          let up = upper-IsNth a dat d nmax nsame parts in
          let same = take-append-drop nmax d in
          let inner = Perm.append_left (take nmax d) (rw (← high_is) at perm) in
          (
            map-IsQuantile (k - nmax) k s high dat r
                (λ x h. rw place at (up (k - nmax) x (rw (← high_is) at h)))
                (λ x h. rw next at (up (suc (k - nmax)) x (rw (← high_is) at h))) found,
            Perm.trans (rw same at inner) parts.0,
          )

      pub below-IsSelected :
          suc k ≡ size
          → get_elem? d 0 ≡ some a
          → Returns
              (IsSelected k s dat)
              (do x ← floatmax size low; y ← get_elem? d 0; some (mix x y (k - (size - 1)) s, d))
      below-IsSelected e h =
          Returns-bind (greatest-IsNth a dat d nmax nsame parts (omega arith)) (λ m hm.
            let place : size - 1 ≡ k = omega arith in
            let none_left : k - (size - 1) ≡ 0 = omega arith in
            rw (h, none_left)
              (returns (
                inl (
                  m,
                  a,
                  rw place at hm,
                  here-IsNth a dat d nmax nsame parts (suc k) (omega arith)
                      (omega (arith, parts.2, parts.3)),
                  refl,
                ),
                parts.0,
              )))

      pub above-IsSelected :
          suc k ≡ nmax
          → get_elem? d 0 ≡ some a
          → Returns (IsSelected k s dat) (do
            x ← get_elem? d 0
            y ← floatmin (length dat - nmax) high
            some (mix x y (k - (nmax - 1)) s, d))
      above-IsSelected e h =
          let least = least-IsNth a dat d nmax nsame parts (omega arith) in
          rw h (
            Returns-bind (rw high_is at least) (λ m hm.
              let none_left : k - (nmax - 1) ≡ 0 = omega arith in
              rw none_left (
                returns (
                  inl (
                    a,
                    m,
                    here-IsNth a dat d nmax nsame parts k (omega (arith, parts.2)) (omega arith),
                    rw (← e) at hm,
                    refl,
                  ),
                  parts.0,
                ))))

      -- The calls on a part, and the choice among the branches.
      module _ (fuel : ℕ) (enough : length dat < suc fuel)
          (again : (k : ℕ) (sub : List F)
            → length sub < fuel
            → suc k < length sub
            → Returns (IsSelected k s sub) (nth_from mix fuel (length sub) sub k s)) where
        pub left-Returns :
            suc k < size
            → Returns (IsSelected k s dat) (do
              (x, sub) ← nth_from mix fuel size low k s
              some (x, take nsame d ++ (sub ++ drop nmax d)))
        left-Returns lt =
            let same = (sizes a dat d nmax nsame parts).1 in
            let found = again k low (omega (arith, same, parts.2, parts.5)) (omega (arith, same)) in
            Returns-bind (rw same at found) (λ r h. returns (left-IsSelected lt r h))

        pub right-Returns :
            nmax ≤ k
            → Returns (IsSelected k s dat) (do
              (x, sub) ← nth_from mix fuel (length dat - nmax) high (k - nmax) s
              some (x, take nmax d ++ sub))
        right-Returns le =
            let same : length high ≡ length dat - nmax =
              rw high_is at ((sizes a dat d nmax nsame parts).2) in
            let found =
              again (k - nmax) high (omega (arith, same, parts.2, parts.3)) (omega (arith, same)) in
            Returns-bind (rw same at found) (λ r h. returns (right-IsSelected le r h))
