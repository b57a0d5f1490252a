-- ===== src/Detect/Simple/Shrunk.antt =====
-- The loop that drops entries by swaps keeps exactly the others.
use mathlib.Core.List.{append_assoc, append-nil, perm_middle}
use mathlib.Core.List.Perm
use pwrake.Prelude.{
  ℕ, zero, suc, ◌-◌, ◌≤◌, ◌≡◌, refl, sym, ap, ◌∙◌, inl, inr, Bool, Bool-cases, false, List, [], ◌∷◌,
  ◌++◌, some, Perm, arith, length, length-append, get_elem?, set, take, lt→ltb, ltb, if◌then◌else◌,
  ◌>>=◌, Returns, returns, Returns-map,
}
use pwrake.Detect.Simple.{swap_out, shrink}

module _ {A : Type 0} where
  get_elem?-middle :
      (pre : List A) (x : A) (rest : List A) → get_elem? (pre ++ x ∷ rest) (length pre) ≡ some x
  get_elem?-middle [] x rest = refl
  get_elem?-middle (y ∷ pre) x rest = get_elem?-middle pre x rest

  set-middle :
      (pre : List A) (x : A) (rest : List A) (v : A)
      → set (pre ++ x ∷ rest) (length pre) v ≡ pre ++ v ∷ rest
  set-middle [] x rest v = refl
  set-middle (y ∷ pre) x rest v = ap (◌∷◌ y) (set-middle pre x rest v)

  take-prefix : (pre rest : List A) → take (length pre) (pre ++ rest) ≡ pre
  take-prefix [] rest = refl
  take-prefix (y ∷ pre) rest = ap (◌∷◌ y) (take-prefix pre rest)

  data EndsIn : List A → Type 0 where
    empty : EndsIn []
    snoc : (init : List A) (last : A) → EndsIn (init ++ last ∷ [])

  ends_in : (xs : List A) → EndsIn xs
  ends_in [] = empty
  ends_in (x ∷ xs) = add (ends_in xs)
    where
      add : {ys : List A} → EndsIn ys → EndsIn (x ∷ ys)
      add empty = snoc [] x
      add (snoc init last) = snoc (x ∷ init) last

  swap_out-last : (pre : List A) (x : A) → swap_out (length pre) (pre ++ x ∷ []) ≡ some pre
  unfolding swap_out
  swap_out-last pre x =
      let size : length (pre ++ x ∷ []) - 1 ≡ length pre =
        omega (arith, length-append pre (x ∷ [])) in
      rw (size, get_elem?-middle pre x [], set-middle pre x [] x, take-prefix pre (x ∷ [])) refl

  swap_out-inner :
      (pre : List A) (x : A) (init : List A) (last : A)
      → swap_out (length pre) (pre ++ x ∷ (init ++ last ∷ [])) ≡ some (pre ++ last ∷ init)
  unfolding swap_out
  swap_out-inner pre x init last =
      let whole = append_assoc pre (x ∷ init) (last ∷ []) in
      let size : length ((pre ++ x ∷ init) ++ last ∷ []) - 1 ≡ length (pre ++ x ∷ init) =
        omega (arith, length-append (pre ++ x ∷ init) (last ∷ [])) in
      let moved : set ((pre ++ x ∷ init) ++ last ∷ []) (length pre) last
          ≡ (pre ++ last ∷ init) ++ last ∷ [] =
        ap (λ a. set a (length pre) last) whole
        ∙ set-middle pre x (init ++ last ∷ []) last
        ∙ sym (append_assoc pre (last ∷ init) (last ∷ [])) in
      let same : length (pre ++ x ∷ init) ≡ length (pre ++ last ∷ init) =
        omega (arith, length-append pre (x ∷ init), length-append pre (last ∷ init)) in
      rw
        (
          ← whole,
          size,
          get_elem?-middle (pre ++ x ∷ init) last [],
          moved,
          same,
          take-prefix (pre ++ last ∷ init) (last ∷ []),
        )
        refl

module _ {A : Type 0} (drops : A → Bool) where
  -- The entries that are not dropped, in their order.
  unfoldable pub without : List A → List A
  without [] = []
  without (x ∷ xs) = if drops x then without xs else x ∷ without xs

  without-append : (xs ys : List A) → without (xs ++ ys) ≡ without xs ++ without ys
  unfolding without
  without-append [] ys = refl
  without-append (x ∷ xs) ys = elim (Bool-cases (drops x)) [
    | inl e ↦ rw e (without-append xs ys)
    | inr e ↦ rw e (ap (◌∷◌ x) (without-append xs ys))
  ]

  without-rotate :
      (init : List A) (last : A) → Perm (without (init ++ last ∷ [])) (without (last ∷ init))
  unfolding without
  without-rotate init last = rw (without-append init (last ∷ [])) (elim (Bool-cases (drops last)) [
    | inl e ↦ rw (e, append-nil (without init)) (Perm.refl (without init))
    | inr e ↦ rw e (rw (append-nil (without init)) at (perm_middle {a = last} (without init) []))
  ])

  abbrev Shrinks : ℕ → Type 0
  Shrinks fuel =
      (pre rest : List A)
      → length rest ≤ fuel
      → Returns (λ b. Perm b (pre ++ without rest)) (shrink drops fuel (length pre) (pre ++ rest))

  shrink-dropped :
      (fuel : ℕ) (pre : List A) (x : A) (rest : List A)
      → Shrinks fuel
      → length rest ≤ fuel
      → Returns
          (λ b. Perm b (pre ++ without rest))
          (swap_out (length pre) (pre ++ x ∷ rest) >>= shrink drops fuel (length pre))
  shrink-dropped fuel pre x rest again h = by_end (ends_in rest) h
    where
      by_end :
          {l : List A}
          → EndsIn l
          → length l ≤ fuel
          → Returns
              (λ b. Perm b (pre ++ without l))
              (swap_out (length pre) (pre ++ x ∷ l) >>= shrink drops fuel (length pre))
      by_end empty hl =
          rw (swap_out-last pre x) (rw (append-nil pre) at (again pre [] (omega arith)))
      by_end (snoc init last) hl = rw (swap_out-inner pre x init last) (
          Returns-map (again pre (last ∷ init) (omega (arith, hl, length-append init (last ∷ []))))
            λ b p. Perm.trans p (Perm.append_left pre (Perm.symm (without-rotate init last))))

  shrink-kept :
      (fuel : ℕ) (pre : List A) (x : A) (rest : List A)
      → Shrinks fuel
      → length rest ≤ fuel
      → Returns
          (λ b. Perm b (pre ++ x ∷ without rest))
          (shrink drops fuel (suc (length pre)) (pre ++ x ∷ rest))
  shrink-kept fuel pre x rest again h =
      let size : length (pre ++ x ∷ []) ≡ suc (length pre) =
        omega (arith, length-append pre (x ∷ [])) in
      rw (append_assoc pre (x ∷ []) rest, append_assoc pre (x ∷ []) (without rest), size) at
        (again (pre ++ x ∷ []) rest h)

  shrink-Shrinks : (fuel : ℕ) → Shrinks fuel
  unfolding shrink without
  shrink-Shrinks zero pre [] h =
      let stop : ltb (length pre) (length (pre ++ [])) ≡ false =
        ground (arith, length-append pre []) in
      rw stop (returns (Perm.refl _))
  shrink-Shrinks zero pre (x ∷ rest) h = absurd (omega arith)
  shrink-Shrinks (suc fuel) pre [] h =
      let stop : ltb (length pre) (length (pre ++ [])) ≡ false =
        ground (arith, length-append pre []) in
      rw stop (returns (Perm.refl _))
  shrink-Shrinks (suc fuel) pre (x ∷ rest) h =
      let go =
        lt→ltb (length pre) (length (pre ++ x ∷ rest))
          (omega (arith, length-append pre (x ∷ rest))) in
      rw (go, get_elem?-middle pre x rest)
        (elim (Bool-cases (drops x)) [
          | inl e ↦ rw e (shrink-dropped fuel pre x rest (shrink-Shrinks fuel) (omega arith))
          | inr e ↦ rw e (shrink-kept fuel pre x rest (shrink-Shrinks fuel) (omega arith))
        ])

  -- With a round for each entry the loop ends, with no access outside the array, and what is left
  -- is a rearrangement of the entries that are not dropped.
  pub shrink-without :
      (a : List A) → Returns (λ b. Perm b (without a)) (shrink drops (length a) 0 a)
  shrink-without a = shrink-Shrinks (length a) [] a (omega arith)
