-- ===== src/Sort/Select/Places.antt =====
-- The parts of a partitioned array, and where their entries stand in ascending order.
use pwrake.Prelude.{
  ℕ, ◌+◌, ◌-◌, ◌≤◌, ◌<◌, ◌≡◌, sym, ap, ◌∙◌, Bool, inl, inr, Bool-cases, List, ◌++◌, some, arith,
  length, get_elem?, lt→ltb, ltb→le, get_elem?-lt, get_elem?-take, get_elem?-drop, length-take,
  length-drop, three_parts, take, drop, ltb, leb, Returns, Returns-map,
}
use pwrake.Sort.Order.{Ranked, lt}
use pwrake.Sort.Extrema.{floatmin, floatmax, floatmin-least, floatmax-greatest}
use pwrake.Sort.Select.{slice}
use pwrake.Sort.Select.Counts.{
  count, count-append, count-perm, count-all, count-none, count-lt, count-pos,
}
use pwrake.Sort.Select.Split.{IsSplit}

module _ {F : Type 0} ⦃o : Ranked F⦄ where
  -- The entries below `x`, and those that are not above it.
  abbrev pub below : F → List F → ℕ
  below x dat = count (λ y. ltb (o.rank y) (o.rank x)) dat

  abbrev pub upto : F → List F → ℕ
  upto x dat = count (λ y. leb (o.rank y) (o.rank x)) dat

  -- In ascending order `x` stands at the place `k`, counted from 0.
  abbrev pub IsNth : List F → ℕ → F → Type 0
  IsNth dat k x = (below x dat ≤ k) × (k < upto x dat)

  -- The array in its three parts.
  module _ (a : F) (dat : List F) (d : List F) (nmax nsame : ℕ)
      (parts : IsSplit a dat (d, nmax, nsame)) where
    abbrev less : ℕ
    less = nmax - nsame

    abbrev equals : List F
    equals = take nsame d

    abbrev lower : List F
    lower = slice nsame less d

    abbrev upper : List F
    upper = drop nmax d

    equals_at : (j : ℕ) (x : F) → get_elem? equals j ≡ some x → o.rank x ≡ o.rank a
    equals_at j x h = let (at, lt) = get_elem?-take nsame d j h in (parts.6 j x at).0 lt

    lower_at : (j : ℕ) (x : F) → get_elem? lower j ≡ some x → o.rank x < o.rank a
    lower_at j x h =
        let (at, lt) = get_elem?-take less (drop nsame d) j h in
        (parts.6 (nsame + j) x (get_elem?-drop nsame d j at)).1 (omega arith) (omega arith)

    upper_at : (j : ℕ) (x : F) → get_elem? upper j ≡ some x → o.rank a < o.rank x
    upper_at j x h = (parts.6 (nmax + j) x (get_elem?-drop nmax d j h)).2 (omega arith)

    pub all_parts : equals ++ (lower ++ upper) ≡ d
    all_parts = three_parts nsame less nmax d (omega (arith, parts.3, parts.4))

    pub sizes : (length equals ≡ nsame) × (length lower ≡ less) × (length upper ≡ length dat - nmax)
    sizes =
        let rest = length-drop nsame d in
        (
          length-take nsame d (omega (arith, parts.1, parts.3, parts.5)),
          length-take less (drop nsame d) (omega (arith, rest, parts.1, parts.3, parts.5)),
          omega (arith, length-drop nmax d, parts.1),
        )

    counts : (p : F → Bool) → count p dat ≡ count p equals + (count p lower + count p upper)
    counts p =
        sym (count-perm p parts.0)
        ∙ ap (count p) (sym all_parts)
        ∙ omega (arith, count-append p equals (lower ++ upper), count-append p lower upper)

    -- A place in the lower part is that place of the array.
    pub lower-IsNth : (k : ℕ) (x : F) → k < less → IsNth lower k x → IsNth dat k x
    lower-IsNth k x lt (before, behind) =
        let inside : o.rank x < o.rank a = elim (Bool-cases (ltb (o.rank x) (o.rank a))) [
          | inl e ↦ ground (arith, e)
          | inr e ↦ absurd (
              omega (
                arith,
                before,
                sizes.1,
                count-all (λ y. ltb (o.rank y) (o.rank x)) lower
                    (λ j y h.
                      lt→ltb (o.rank y) (o.rank x)
                        (omega (arith, lower_at j y h, ltb→le (o.rank x) (o.rank a) e))),
              ))
        ] in
        (
          omega (
            arith,
            before,
            counts (λ y. ltb (o.rank y) (o.rank x)),
            count-none (λ y. ltb (o.rank y) (o.rank x)) equals
                (λ j y h. ground (arith, equals_at j y h, inside)),
            count-none (λ y. ltb (o.rank y) (o.rank x)) upper
                (λ j y h. ground (arith, upper_at j y h, inside)),
          ),
          omega (arith, behind, counts (λ y. leb (o.rank y) (o.rank x))),
        )

    -- A place in the upper part comes behind the other parts.
    pub upper-IsNth : (k : ℕ) (x : F) → IsNth upper k x → IsNth dat (nmax + k) x
    upper-IsNth k x (before, behind) =
        let inside : o.rank a < o.rank x = elim (Bool-cases (ltb (o.rank a) (o.rank x))) [
          | inl e ↦ ground (arith, e)
          | inr e ↦ absurd (
              omega (
                arith,
                behind,
                count-none (λ y. leb (o.rank y) (o.rank x)) upper
                    (λ j y h. ground (arith, upper_at j y h, e)),
              ))
        ] in
        (
          omega (
            arith,
            before,
            counts (λ y. ltb (o.rank y) (o.rank x)),
            sizes.0,
            sizes.1,
            parts.3,
            count-all (λ y. ltb (o.rank y) (o.rank x)) equals
                (λ j y h. ground (arith, equals_at j y h, inside)),
            count-all (λ y. ltb (o.rank y) (o.rank x)) lower
                (λ j y h. ground (arith, lower_at j y h, inside)),
          ),
          omega (
            arith,
            behind,
            counts (λ y. leb (o.rank y) (o.rank x)),
            sizes.0,
            sizes.1,
            parts.3,
            parts.4,
            count-all (λ y. leb (o.rank y) (o.rank x)) equals
                (λ j y h. ground (arith, equals_at j y h, inside)),
            count-all (λ y. leb (o.rank y) (o.rank x)) lower
                (λ j y h. ground (arith, lower_at j y h, inside)),
          ),
        )

    -- The places between are those of `a`.
    pub here-IsNth : (k : ℕ) → less ≤ k → k < nmax → IsNth dat k a
    here-IsNth k le lt = (
      omega (
        arith,
        le,
        counts (λ y. ltb (o.rank y) (o.rank a)),
        sizes.1,
        count-none (λ y. ltb (o.rank y) (o.rank a)) equals
            (λ j y h. ground (arith, equals_at j y h)),
        count-all (λ y. ltb (o.rank y) (o.rank a)) lower (λ j y h. ground (arith, lower_at j y h)),
        count-none (λ y. ltb (o.rank y) (o.rank a)) upper (λ j y h. ground (arith, upper_at j y h)),
      ),
      omega (
        arith,
        lt,
        counts (λ y. leb (o.rank y) (o.rank a)),
        sizes.0,
        sizes.1,
        parts.4,
        count-all (λ y. leb (o.rank y) (o.rank a)) equals
            (λ j y h. ground (arith, equals_at j y h)),
        count-all (λ y. leb (o.rank y) (o.rank a)) lower (λ j y h. ground (arith, lower_at j y h)),
      ),
    )

    pub greatest-IsNth : 0 < less → Returns (λ m. IsNth dat (less - 1) m) (floatmax less lower)
    greatest-IsNth some_lower =
        let found = floatmax-greatest lower (omega (arith, sizes.1)) in
        Returns-map (rw sizes.1 at found) (λ m h. greatest_is some_lower m h.0.0 h.0.1 h.1)
      where
        greatest_is :
            0 < less
            → (m : F) (p : ℕ) → get_elem? lower p ≡ some m
            → ((j : ℕ) (y : F) → get_elem? lower j ≡ some y → j < less → o.rank y ≤ o.rank m)
            → IsNth dat (less - 1) m
        greatest_is some_lower m p at top = lower-IsNth (less - 1) m (omega arith) (
          omega (
            arith,
            sizes.1,
            some_lower,
            count-lt (λ y. ltb (o.rank y) (o.rank m)) lower p m at (ground arith),
          ),
          omega (
            arith,
            sizes.1,
            some_lower,
            count-all (λ y. leb (o.rank y) (o.rank m)) lower
                (λ j y h.
                  ground (arith, top j y h (omega (arith, get_elem?-lt lower j h, sizes.1)))),
          ),
        )

    pub least-IsNth :
        nmax < length dat → Returns (λ m. IsNth dat nmax m) (floatmin (length dat - nmax) upper)
    least-IsNth some_upper =
        let found = floatmin-least upper (omega (arith, sizes.2)) in
        Returns-map (rw (sizes.2) at found) (λ m h. least_is some_upper m h.0.0 h.0.1 h.1)
      where
        least_is :
            nmax < length dat
            → (m : F) (p : ℕ) → get_elem? upper p ≡ some m
            → ((j : ℕ) (y : F)
                → get_elem? upper j ≡ some y
                → j < length dat - nmax
                → o.rank m ≤ o.rank y)
            → IsNth dat nmax m
        least_is some_upper m p at bottom =
            let e : nmax + 0 ≡ nmax = omega arith in
            rw e at (
              upper-IsNth 0 m (
                omega (
                  arith,
                  count-none (λ y. ltb (o.rank y) (o.rank m)) upper
                      (λ j y h.
                        ground
                          (arith, bottom j y h (omega (arith, get_elem?-lt upper j h, sizes.2)))),
                ),
                count-pos (λ y. leb (o.rank y) (o.rank m)) upper p m at (ground arith),
              ))
