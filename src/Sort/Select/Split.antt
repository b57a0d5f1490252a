-- ===== src/Sort/Select/Split.antt =====
-- The partition of `nth`: what `split` leaves of the array.
use mathlib.Core.List.Perm
use pwrake.Prelude.{
  ℕ, zero, suc, ◌+◌, ◌-◌, ◌≤◌, ◌<◌, ◌≡◌, ◌≢◌, ==→≢, get_elem?-lt, refl, sym, ap, ◌∙◌, inl, inr,
  Bool-cases, ==→≡, List, Perm, some, arith, length, get_elem?, get_elem?-Returns, ltb, ◌==◌,
  Returns, returns, Returns-bind, Returns-if, some-inj,
}
use pwrake.Sort.Order.{Ranked, gt}
use pwrake.Sort.Select.{split, eq}
use pwrake.Sort.Select.Swapped.{IsSwapped, swap-IsSwapped}

module _ {F : Type 0} ⦃o : Ranked F⦄ (a : F) (dat : List F) where
  -- The entries before `nsame` equal `a`, those from there to `i` are below it, those from `nmax` on
  -- above.
  abbrev IsParted : ℕ → List F × ℕ × ℕ → Type 0
  IsParted i (d, nmax, nsame) =
      Perm d dat
      × (length d ≡ length dat)
      × (1 ≤ nsame)
      × (nsame ≤ i)
      × (i ≤ nmax)
      × (nmax ≤ length dat)
      × ((j : ℕ) (x : F)
          → get_elem? d j ≡ some x
          → (j < nsame → o.rank x ≡ o.rank a)
            × (nsame ≤ j → j < i → o.rank x < o.rank a)
            × (nmax ≤ j → o.rank a < o.rank x))
      × (get_elem? d 0 ≡ some a)

  abbrev pub IsSplit : List F × ℕ × ℕ → Type 0
  IsSplit (d, nmax, nsame) = IsParted nmax (d, nmax, nsame)

  -- An entry before `suc i` is the one at `i` or before it.
  last :
      (i j : ℕ) (d : List F) (x z : F)
      → get_elem? d i ≡ some x
      → get_elem? d j ≡ some z
      → o.rank x < o.rank a
      → j < suc i
      → (j < i → o.rank z < o.rank a)
      → o.rank z < o.rank a
  last i j d x z hx hz low lj before = elim (Bool-cases (i == j)) [
    | inl e ↦
        let same : x ≡ z = some-inj (sym hx ∙ ap (get_elem? d) (==→≡ i j e) ∙ hz) in rw same at low
    | inr e ↦ before (ground (arith, e))
  ]

  swap_up :
      (i nmax nsame : ℕ) (d : List F) (x y : F) (b : List F)
      → get_elem? d i ≡ some x
      → get_elem? d (nmax - 1) ≡ some y
      → o.rank a < o.rank x
      → i < nmax
      → IsSwapped d i (nmax - 1) x y b
      → IsParted i (d, nmax, nsame)
      → IsParted i (b, nmax - 1, nsame)
  swap_up i nmax nsame d x y b hx hy up lt (bperm, blen, at_b)
        (perm, len, one, le, li, ln, at, fst) =
      (
        Perm.trans bperm perm,
        blen ∙ len,
        one,
        le,
        omega arith,
        omega arith,
        λ j z hz.
            let now = sym (at_b j) ∙ hz in
            elim (Bool-cases (nmax - 1 == j)) [
              | inl e ↦
                  let same : nmax - 1 ≡ j = ==→≡ (nmax - 1) j e in
                  let x_is : x ≡ z = some-inj (rw e at now) in
                  let high : o.rank a < o.rank z = rw x_is at up in
                  (λ l. absurd (omega arith), λ g l. absurd (omega arith), λ g. high)
              | inr e ↦ elim (Bool-cases (i == j)) [
                | inl e' ↦
                    let same : i ≡ j = ==→≡ i j e' in
                    let apart : nmax - 1 ≢ j = ==→≢ (nmax - 1) j e in
                    (
                      λ l. absurd (omega arith),
                      λ g l. absurd (omega arith),
                      λ g. absurd (omega arith),
                    )
                | inr e' ↦
                    let (equal, below, above) = at j z (rw (e, e') at now) in
                    let apart : nmax - 1 ≢ j = ==→≢ (nmax - 1) j e in
                    (equal, below, λ g. above (omega arith))
              ]
            ],
        ground (arith, at_b 0, fst),
      )

  swap_level :
      (i nmax nsame : ℕ) (d : List F) (x y : F) (b : List F)
      → get_elem? d i ≡ some x
      → get_elem? d nsame ≡ some y
      → o.rank x ≡ o.rank a
      → i < nmax
      → IsSwapped d i nsame x y b
      → IsParted i (d, nmax, nsame)
      → IsParted (suc i) (b, nmax, suc nsame)
  swap_level i nmax nsame d x y b hx hy level lt (bperm, blen, at_b)
        (perm, len, one, le, li, ln, at, fst) =
      (
        Perm.trans bperm perm,
        blen ∙ len,
        omega arith,
        omega arith,
        lt,
        ln,
        λ j z hz.
            let now = sym (at_b j) ∙ hz in
            elim (Bool-cases (nsame == j)) [
              | inl e ↦
                  let same : nsame ≡ j = ==→≡ nsame j e in
                  let x_is : x ≡ z = some-inj (rw e at now) in
                  let equal : o.rank z ≡ o.rank a = rw x_is at level in
                  (λ l. equal, λ g l. absurd (omega arith), λ g. absurd (omega arith))
              | inr e ↦
                  let apart : nsame ≢ j = ==→≢ nsame j e in
                  elim (Bool-cases (i == j)) [
                    | inl e' ↦
                        let same : i ≡ j = ==→≡ i j e' in
                        let y_is : y ≡ z = some-inj (rw (e, e') at now) in
                        let low : nsame < i → o.rank z < o.rank a =
                          rw y_is at ((at nsame y hy).1 (omega arith)) in
                        (
                          λ l. absurd (omega arith),
                          λ g l. low (omega arith),
                          λ g. absurd (omega arith),
                        )
                    | inr e' ↦
                        let apart' : i ≢ j = ==→≢ i j e' in
                        let (equal, below, above) = at j z (rw (e, e') at now) in
                        (λ l. equal (omega arith), λ g l. below (omega arith) (omega arith), above)
                  ]
            ],
        ground (arith, at_b 0, fst),
      )

  split-IsSplit :
      (fuel i nmax nsame : ℕ) (d : List F)
      → nmax < fuel + i
      → IsParted i (d, nmax, nsame)
      → Returns IsSplit (split fuel a i nmax nsame d)
  unfolding split
  split-IsSplit zero i nmax nsame d enough (perm, len, one, le, li, ln, at, fst) =
      absurd (omega arith)
  split-IsSplit (suc fuel) i nmax nsame d enough (perm, len, one, le, li, ln, at, fst) =
      Returns-if (ltb i nmax)
        (λ e.
          let lt : i < nmax = ground (arith, e) in
          Returns-bind (get_elem?-Returns d i (omega arith)) (λ x h.
            Returns-if (gt x a)
              (λ up.
                Returns-bind (swap-IsSwapped d i (nmax - 1) x h (omega arith) (omega arith))
                  (λ b (y, hy, moved). split-IsSplit fuel i (nmax - 1) nsame b (omega arith) (
                    swap_up i nmax nsame d x y b h hy (ground (arith, up)) lt moved
                      (perm, len, one, le, li, ln, at, fst))))
              (λ not_up.
                Returns-if (eq x a)
                  (λ level.
                    Returns-bind (swap-IsSwapped d i nsame x h (omega arith) (omega arith))
                      (λ b (y, hy, moved).
                        split-IsSplit fuel (suc i) nmax (suc nsame) b (omega arith) (
                          swap_level i nmax nsame d x y b h hy (ground (arith, level)) lt moved
                            (perm, len, one, le, li, ln, at, fst))))
                  (λ not_level.
                    let low : o.rank x < o.rank a = ground (arith, not_up, not_level) in
                    split-IsSplit fuel (suc i) nmax nsame d (omega arith) (
                      perm,
                      len,
                      one,
                      omega arith,
                      lt,
                      ln,
                      λ j z hz.
                          let (equal, below, above) = at j z hz in
                          (equal, λ g lj. last i j d x z h hz low lj (below g), above),
                      fst,
                    )))))
        (λ e.
          let end : i ≡ nmax = ground (arith, e) in
          returns (perm, len, one, omega arith, omega arith, ln, rw end at at, fst))

  pub split-parts :
      get_elem? dat 0 ≡ some a → Returns IsSplit (split (length dat + 1) a 1 (length dat) 1 dat)
  split-parts h =
      let some_entry = get_elem?-lt dat 0 h in
      split-IsSplit (length dat + 1) 1 (length dat) 1 dat (omega arith) (
        Perm.refl dat,
        refl,
        omega arith,
        omega arith,
        omega arith,
        omega arith,
        λ j x hx. (
          λ l. start j x h hx l,
          λ g l. absurd (omega arith),
          λ g. absurd (omega (arith, get_elem?-lt dat j hx)),
        ),
        h,
      )
    where
      start :
          (j : ℕ) (x : F)
          → get_elem? dat 0 ≡ some a
          → get_elem? dat j ≡ some x
          → j < 1
          → o.rank x ≡ o.rank a
      start zero x h hx l = ap o.rank (some-inj (sym hx ∙ h))
      start (suc j) x h hx l = absurd (omega arith)
