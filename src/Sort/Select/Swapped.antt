-- ===== src/Sort/Select/Swapped.antt =====
-- A swap of two entries in the partition of `nth`.
use mathlib.Core.List.Perm
use pwrake.Prelude.{
  ℕ, ◌<◌, ◌≡◌, refl, sym, ap, ◌∙◌, inl, inr, Bool-cases, ==→≡, List, Perm, some, arith, length,
  length-set, get_elem?, get_elem?-set, get_elem?-ok, set, write-ok, ◌==◌, if◌then◌else◌, Returns,
  returns,
}
use pwrake.Prelude.Perms.{set-get_elem?, hole-perm}
use pwrake.Sort.Select.{swap}

module _ {A : Type 0} where
  swap-perm :
      (a : List A) (i j : ℕ) (x y : A)
      → get_elem? a i ≡ some x
      → get_elem? a j ≡ some y
      → i < length a
      → Perm (set (set a i y) j x) a
  swap-perm a i j x y hx hy li = elim (Bool-cases (i == j)) [
    | inl e ↦
        let same : i ≡ j = ==→≡ i j e in
        let xy : y ≡ x = ground (arith, hx, hy, ap (get_elem? a) same) in
        let put : set a i y ≡ a = set-get_elem? a i y (hx ∙ ap some (sym xy)) in
        let both : set (set a i y) j x ≡ a = rw put (set-get_elem? a j x (hy ∙ ap some xy)) in
        rw both (Perm.refl a)
    | inr e ↦
        rw (set-get_elem? a i x hx) at (hole-perm a i j x y li hy (λ same. ground (arith, e, same)))
  ]

  -- What a swap leaves.
  abbrev pub IsSwapped : List A → ℕ → ℕ → A → A → List A → Type 0
  IsSwapped a i j x y b =
      Perm b a
      × (length b ≡ length a)
      × ((p : ℕ)
          → get_elem? b p ≡ (if j == p then some x else (if i == p then some y else get_elem? a p)))

  pub swap-IsSwapped :
      (a : List A) (i j : ℕ) (x : A)
      → get_elem? a i ≡ some x
      → i < length a
      → j < length a
      → Returns (λ b. (y : A) × (get_elem? a j ≡ some y) × IsSwapped a i j x y b) (swap a i j)
  unfolding swap
  swap-IsSwapped a i j x hx li lj =
      let (y, hy) = get_elem?-ok a j lj in
      let size = length-set a i y in
      let inside : j < length (set a i y) = omega (arith, size) in
      rw (hx, hy, write-ok a i y li, write-ok (set a i y) j x inside)
        (returns (
          y,
          refl,
          (
            swap-perm a i j x y hx hy li,
            omega (arith, size, length-set (set a i y) j x),
            λ p. ground (arith, get_elem?-set a i p y li, get_elem?-set (set a i y) j p x inside),
          ),
        ))
