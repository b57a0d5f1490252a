-- ===== src/Fit/Pass.antt =====
-- The loop over the points in `lsf`: it keeps those near the line and puts the others aside.
use mathlib.Core.List.Perm
use mathlib.Core.List.{perm_middle}
use pwrake.Prelude.{
  ℕ, zero, suc, ◌+◌, ◌-◌, ◌≤◌, ◌<◌, ◌≡◌, refl, sym, ap, ◌∙◌, ◌⊎◌, inl, inr, true, false, Bool-cases,
  List, [], ◌∷◌, ◌++◌, append_assoc, append-nil, Perm, some, arith, length, length-append, Bool,
  some-inj, get_elem?-snoc, get_elem?, get_elem?-append_right, get_elem?-lt, Returns-map, set,
  write-ok, ltb, Returns, returns, ◌>>=◌,
}
use pwrake.Prelude.Perms.{length-perm}
use pwrake.Fit.{Doubles, Sums, State, Passed, no_sums, add, within, pass}

module _ {A : Type 0} where
  pub set-append :
      (xs : List A) (x y : A) (ys : List A) → set (xs ++ (x ∷ ys)) (length xs) y ≡ xs ++ (y ∷ ys)
  set-append [] x y ys = refl
  set-append (z ∷ xs) x y ys = ap (◌∷◌ z) (set-append xs x y ys)

  -- The last entry of a list.
  last_cases : (xs : List A) → (xs ≡ []) ⊎ ((mid : List A) × (y : A) × (xs ≡ mid ++ (y ∷ [])))
  last_cases [] = inl refl
  last_cases (x ∷ xs) = elim (last_cases xs) [
    | inl e ↦ inr ([], x, ap (◌∷◌ x) e)
    | inr (mid, y, e) ↦ inr (x ∷ mid, y, ap (◌∷◌ x) e)
  ]

  at_place : (kept rest : List A) (x : A) → get_elem? (kept ++ (x ∷ rest)) (length kept) ≡ some x
  at_place kept rest x = get_elem?-append_right kept (x ∷ rest) (length kept) 0 (omega arith)

  -- Without its first entry, the rest of a list in whose place its last entry came.
  moved_last :
      (kept rest junk : List A) (x : A)
      → (y : A) × (rest' : List A) × (junk' : List A) × (get_elem?
            (kept ++ ((x ∷ rest) ++ junk))
            (length kept + length (x ∷ rest) - 1)
          ≡ some y)
        × (set (kept ++ ((x ∷ rest) ++ junk)) (length kept) y ≡ kept ++ (rest' ++ junk'))
        × Perm rest' rest
  moved_last kept rest junk x = elim (last_cases rest) [
    | inl e ↦ rw e (
      x,
      [],
      x ∷ junk,
      get_elem?-append_right kept (x ∷ junk) (length kept + 1 - 1) 0 (omega arith),
      set-append kept x x junk,
      Perm.refl [],
    )
    | inr (mid, y, e) ↦
        let size = length-append mid (y ∷ []) in
        let join : (mid ++ (y ∷ [])) ++ junk ≡ mid ++ (y ∷ junk) = append_assoc mid (y ∷ []) junk in
        let inner : get_elem? (x ∷ (mid ++ (y ∷ junk))) (suc (length mid)) ≡ some y =
          at_place mid junk y in
        rw e (
          y,
          y ∷ mid,
          y ∷ junk,
          rw join (
              get_elem?-append_right kept (x ∷ (mid ++ (y ∷ junk)))
                (length kept + suc (length (mid ++ (y ∷ []))) - 1) (suc (length mid))
                (omega (arith, size))
              ∙ inner),
          rw join (set-append kept x y (mid ++ (y ∷ junk))),
          rw (append-nil mid) at (Perm.symm (perm_middle {a = y} mid [])),
        )
  ]

-- Every entry of the list satisfies the test, or none does.
abbrev pub Each : {A : Type 0} → (A → Bool) → Bool → List A → Type 0
Each {A = A} test b l = (n : ℕ) (x : A) → get_elem? l n ≡ some x → test x ≡ b

Each-snoc :
    {A : Type 0} (test : A → Bool) (b : Bool) (l : List A) (x : A)
    → Each test b l
    → test x ≡ b
    → Each test b (l ++ (x ∷ []))
Each-snoc test b l x each new n y h = elim (get_elem?-snoc l x n h) [
  | inl (old, _) ↦ each n y old
  | inr (_, same) ↦ rw same at new
]

Each-cons :
    {A : Type 0} (test : A → Bool) (b : Bool) (x : A) (l : List A)
    → test x ≡ b
    → Each test b l
    → Each test b (x ∷ l)
Each-cons test b x l new each zero y h = ap test (sym (some-inj h)) ∙ new
Each-cons test b x l new each (suc n) y h = each n y h

module _ {F : Type 0} (o : Doubles F) where
  -- The sums of a list of points, one after the other.
  unfoldable pub gather : Sums F → List (F × F) → Sums F
  gather s [] = s
  gather s (x ∷ xs) = gather (add o s x) xs

  gather-snoc :
      (s : Sums F) (xs : List (F × F)) (x : F × F)
      → gather s (xs ++ (x ∷ [])) ≡ add o (gather s xs) x
  unfolding gather
  gather-snoc s [] x = refl
  gather-snoc s (y ∷ xs) x = gather-snoc (add o s y) xs x

  -- The points kept, those that were put aside and the arrays.
  abbrev pub IsPassed : State F → ℕ → List (F × F) → ℕ → Passed F → Type 0
  IsPassed st i all rej p =
      (kept : List (F × F)) × (gone : List (F × F)) × (junk : List (F × F)) × Perm (kept ++ gone)
        all
      × (p.points ≡ kept ++ junk)
      × (p.size ≡ length kept)
      × (p.rej ≡ rej + length gone)
      × (p.sums ≡ gather (no_sums o) kept)
      × Each (within o st i) true kept
      × Each (within o st i) false gone

  -- One more point is put aside.
  aside :
      (st : State F) (i : ℕ) (kept rest rest' : List (F × F)) (x : F × F) (rej : ℕ) (p : Passed F)
      → Perm rest' rest
      → within o st i x ≡ false
      → IsPassed st i (kept ++ rest') (suc rej) p
      → IsPassed st i (kept ++ (x ∷ rest)) rej p
  aside st i kept rest rest' x rej p moved outside
        (kept', gone, junk, same, held, size, more, sums, near, far) =
      let all : Perm (x ∷ (kept' ++ gone)) (x ∷ (kept ++ rest)) =
        Perm.cons x (Perm.trans same (Perm.append_left kept moved)) in
      (
        kept',
        x ∷ gone,
        junk,
        Perm.trans (perm_middle kept' gone) (Perm.trans all (Perm.symm (perm_middle kept rest))),
        held,
        size,
        omega (arith, more),
        sums,
        near,
        Each-cons (within o st i) false x gone outside far,
      )

  pass-stop :
      (rounds : ℕ) (st : State F) (i j : ℕ) (p : Passed F)
      → ltb j p.size ≡ false
      → pass o rounds st i j p ≡ some p
  unfolding pass
  pass-stop zero st i j p stop = rw (pass, stop) refl
  pass-stop (suc rounds) st i j p stop = rw (pass, stop) refl

  pub pass-IsPassed :
      (rounds : ℕ) (st : State F) (i : ℕ) (kept rest junk : List (F × F)) (sums : Sums F)
      (size rej : ℕ) (points : List (F × F))
      → length rest ≤ rounds
      → points ≡ kept ++ (rest ++ junk)
      → size ≡ length kept + length rest
      → sums ≡ gather (no_sums o) kept
      → Each (within o st i) true kept
      → Returns (IsPassed st i (kept ++ rest) rej) (
          pass o rounds st i
            (length kept)
            (record { sums = sums; size = size; rej = rej; points = points }))
  unfolding pass
  pass-IsPassed rounds st i kept [] junk sums size rej points enough held all sum near =
      let stop : ltb (length kept) size ≡ false = ground (arith, all) in
      let whole : Perm (kept ++ []) (kept ++ []) = Perm.refl (kept ++ []) in
      let p : Passed F = record { sums = sums; size = size; rej = rej; points = points } in
      rw (pass-stop rounds st i (length kept) p stop) (
        returns (
          kept,
          [],
          junk,
          whole,
          held,
          omega (arith, all),
          omega arith,
          sum,
          near,
          λ n q h. ground arith,
        ))
  pass-IsPassed zero st i kept (x ∷ rest) junk sums size rej points enough held all sum near =
      absurd (omega arith)
  pass-IsPassed (suc rounds) st i kept (x ∷ rest) junk sums size rej points enough held all sum
        near =
      let inside : ltb (length kept) size ≡ true = ground (arith, all) in
      let at : get_elem? points (length kept) ≡ some x =
        ap (λ a. get_elem? a (length kept)) held ∙ at_place kept (rest ++ junk) x in
      elim (Bool-cases (within o st i x)) [
        | inl e ↦
            let next : length (kept ++ (x ∷ [])) ≡ suc (length kept) =
              omega (arith, length-append kept (x ∷ [])) in
            let shift : (kept ++ (x ∷ [])) ++ rest ≡ kept ++ (x ∷ rest) =
              append_assoc kept (x ∷ []) rest in
            let rest_of =
              pass-IsPassed rounds st i (kept ++ (x ∷ [])) rest junk (add o sums x) size rej points
                (omega (arith, enough)) (held ∙ sym (append_assoc kept (x ∷ []) (rest ++ junk)))
                (omega (arith, next, all))
                (ap (λ s. add o s x) sum ∙ sym (gather-snoc (no_sums o) kept x))
                (Each-snoc (within o st i) true kept x near e) in
            rw (pass, inside, at) (rw (◌>>=◌, e) (rw (next, shift) at rest_of))
        | inr e ↦
            let (y, rest', junk', last, put, moved) = moved_last kept rest junk x in
            let last_at : get_elem? points (size - 1) ≡ some y = rw (held, all) last in
            let fits : length kept < length points = get_elem?-lt points (length kept) at in
            let count : length rest' ≡ length rest = length-perm moved in
            let rest_of =
              pass-IsPassed rounds st i kept rest' junk' sums (size - 1) (suc rej)
                (set points (length kept) y) (omega (arith, enough, count))
                (ap (λ a. set a (length kept) y) held ∙ put) (omega (arith, all, count)) sum near in
            rw (pass, inside, at)
              (rw (◌>>=◌, e)
                (rw (last_at, write-ok points (length kept) y fits)
                  (Returns-map rest_of (λ p h. aside st i kept rest rest' x rej p moved e h))))
      ]
