-- ===== src/Options/First.antt =====
-- An argument takes the first option whose name it begins with.
use mathlib.Core.Path.{ap₂}
use pwrake.Prelude.{
  ℕ, zero, suc, ◌+◌, ◌<◌, ◌≡◌, ◌≢◌, refl, sym, ap, ◌∙◌, Bool-cases, inl, inr, true, List, [], ◌∷◌,
  ◌++◌, none, some, Option-cases, arith, get_elem?, ◌==◌, ==→≡, some-inj,
}
use pwrake.Options.{getarg, find_option}

pub getarg-prefix : (argv key pt : List ℕ) → getarg argv key ≡ some pt → argv ≡ key ++ pt
unfolding getarg
getarg-prefix argv [] pt h = some-inj h
getarg-prefix [] (k ∷ key) pt h = ground arith
getarg-prefix (c ∷ argv) (k ∷ key) pt h = elim (Bool-cases (c == k)) [
  | inl e ↦ ap₂ (λ a l. a ∷ l) (==→≡ c k e) (getarg-prefix argv key pt (rw e at h))
  | inr e ↦ absurd (ground (arith, h, e))
]

getarg-append : (key pt : List ℕ) → getarg (key ++ pt) key ≡ some pt
unfolding getarg
getarg-append [] pt = refl
getarg-append (k ∷ key) pt =
    let same : (k == k) ≡ true = ground arith in rw same (getarg-append key pt)

-- If an argument finds an option, it is that option's name and the returned text, and it begins
-- with the name of no option before it.
pub find_option-first :
    (n : ℕ) (argp : List ℕ) (opts : List (List ℕ)) (i : ℕ) (pt : List ℕ)
    → find_option n argp opts ≡ some (i, pt)
    → (j : ℕ) × (name : List ℕ) × (i ≡ n + j)
      × (get_elem? opts j ≡ some name)
      × (argp ≡ name ++ pt)
      × ((j' : ℕ) (other rest : List ℕ)
          → j' < j
          → get_elem? opts j' ≡ some other
          → argp ≢ other ++ rest)
unfolding find_option
find_option-first n argp [] i pt h = ground arith
find_option-first n argp ([] ∷ opts) i pt h = ground arith
find_option-first n argp ((k ∷ name) ∷ opts) i pt h = elim (Option-cases (getarg argp (k ∷ name))) [
  | inr (rest, e) ↦
      let found = some-inj (rw (e, find_option) at h) in
      (
        0,
        k ∷ name,
        omega (arith, ap (λ p. p.0) found),
        refl,
        getarg-prefix argp (k ∷ name) pt (e ∙ ap (λ p. some p.1) found),
        λ j' other r lj at. absurd (omega arith),
      )
  | inl e ↦
      let (j, nm, at_i, at, same, before) =
        find_option-first (suc n) argp opts i pt (rw (e, find_option) at h) in
      (
        suc j,
        nm,
        omega (arith, at_i),
        at,
        same,
        λ j' other r lj at'. earlier e before j' other r lj at',
      )
]
  where
    earlier :
        {j : ℕ}
        → getarg argp (k ∷ name) ≡ none
        → ((j' : ℕ) (other rest : List ℕ)
            → j' < j
            → get_elem? opts j' ≡ some other
            → argp ≢ other ++ rest)
        → (j' : ℕ) (other rest : List ℕ) → j' < suc j
        → get_elem? ((k ∷ name) ∷ opts) j' ≡ some other
        → argp ≢ other ++ rest
    earlier e before zero other r lj at' same =
        let name_is : k ∷ name ≡ other = some-inj at' in
        let hit = getarg-append (k ∷ name) r in
        let here : argp ≡ (k ∷ name) ++ r = same ∙ ap (λ o. o ++ r) (sym name_is) in
        absurd (ground (arith, e, ap (λ a. getarg a (k ∷ name)) here, hit))
    earlier e before (suc j') other r lj at' same = before j' other r (omega arith) at' same
