-- ===== src/Match/Cross/Nearest.antt =====
-- `xmatch` finds the nearest source within the tolerance, the first of several.
use mathlib.Core.Path.{fun_ext, subst}
use mathlib.Core.List.{map-map, map-id}
use pwrake.Prelude.{
  ℕ, zero, suc, ◌≤◌, ◌<◌, ◌≡◌, refl, ◌∙◌, List, [], ◌∷◌, none, some, map, arith, get_elem?, length,
  length-map,
}
use pwrake.Sort.Order.{Ranked}
use pwrake.Match.Rows.{CatalogRow, Trig}
use pwrake.Match.Cross.{angle, clear_match, consider, match_row, match_rows, xmatch}
use pwrake.Match.Cross.Outcomes.{
  SameSource, consider_all, IsFirstLeast, Outcome, kept, better, consider-same, consider_all-same,
  consider_all-Outcome,
}

get_elem?-map :
    {A B : Type 0} (f : A → B) (xs : List A) (i : ℕ) {x : A}
    → get_elem? xs i ≡ some x
    → get_elem? (map f xs) i ≡ some (f x)
get_elem?-map f [] i h = ground arith
get_elem?-map f (x ∷ xs) zero h = ground arith
get_elem?-map f (x ∷ xs) (suc i) h = get_elem?-map f xs i h

module _ {F : Type 0} ⦃o : Ranked F⦄ (t : Trig F) (tol_ang : F) where
  angle-same :
      (a b c d : CatalogRow F) → SameSource a c → SameSource b d → angle t a b ≡ angle t c d
  unfolding angle
  angle-same a b c d (p, q, r, s) (p', q', r', s') = rw (q, r, q', r')

  angle-consider_left :
      (k : ℕ) (d : F) (a b : CatalogRow F) → angle t (consider t tol_ang k d a) b ≡ angle t a b
  angle-consider_left k d a b =
      angle-same _ _ _ _ (consider-same t tol_ang k d a) (refl, refl, refl, refl)

  angle-consider_right :
      (k : ℕ) (d : F) (a b : CatalogRow F) → angle t a (consider t tol_ang k d b) ≡ angle t a b
  angle-consider_right k d a b =
      angle-same _ _ _ _ (refl, refl, refl, refl) (consider-same t tol_ang k d b)

  match_row-eq :
      (i : ℕ) (c1 : CatalogRow F) (j : ℕ) (cat2 : List (CatalogRow F))
      → match_row t tol_ang i c1 j cat2 ≡ (
        consider_all t tol_ang j (map (angle t c1) cat2) c1,
        map (λ c2. consider t tol_ang i (angle t c1 c2) c2) cat2,
      )
  unfolding match_row consider_all
  match_row-eq i c1 j [] = refl
  match_row-eq i c1 j (c2 ∷ cat2) =
      rw (match_row-eq i (consider t tol_ang j (angle t c1 c2) c1) (suc j) cat2)
        (rw (fun_ext (angle-consider_left j (angle t c1 c2) c1)))

  match_rows-eq :
      (i : ℕ) (cat1 cat2 : List (CatalogRow F))
      → match_rows t tol_ang i cat1 cat2 ≡ (
        map (λ c1. consider_all t tol_ang 0 (map (angle t c1) cat2) c1) cat1,
        map (λ c2. consider_all t tol_ang i (map (λ c1. angle t c1 c2) cat1) c2) cat2,
      )
  unfolding match_rows consider_all
  match_rows-eq i [] cat2 = rw (map-id cat2)
  match_rows-eq i (c1 ∷ cat1) cat2 =
      let after = map (λ c2. consider t tol_ang i (angle t c1 c2) c2) cat2 in
      rw (match_row-eq i c1 0 cat2, match_rows-eq (suc i) cat1 after)
        (simp (map-map, angle-consider_right))

  -- No match, as all angles below the tolerance are at least 180; or the first of the least angles.
  pub data IsMatched (ds : List F) (c' : CatalogRow F) : Type 0 where
    nothing :
        c'.min_idx ≡ none
        → ((m : ℕ) (d : F)
            → get_elem? ds m ≡ some d
            → o.rank d < o.rank tol_ang
            → o.rank t.half_turn ≤ o.rank d)
        → IsMatched ds c'
    nearest :
        (m : ℕ)
        → c'.min_idx ≡ some m
        → IsFirstLeast t tol_ang ds m c'.min_ang
        → o.rank c'.min_ang < o.rank t.half_turn
        → IsMatched ds c'

  Outcome→IsMatched :
      {ds : List F} (c c' : CatalogRow F)
      → Outcome t tol_ang 0 ds (clear_match t c) c'
      → IsMatched ds c'
  unfolding clear_match
  Outcome→IsMatched c c' (kept e a far) = nothing e far
  Outcome→IsMatched c c' (better m i e j v l) =
      nearest m (let q : i ≡ m = omega arith in rw (← q) j) v l

  angles_left :
      (c : CatalogRow F) (cat : List (CatalogRow F))
      → map (angle t (clear_match t c)) (map (clear_match t) cat) ≡ map (λ c2. angle t c c2) cat
  unfolding angle clear_match
  angles_left c cat = map-map _ _ cat

  angles_right :
      (c : CatalogRow F) (cat : List (CatalogRow F))
      → map (λ c1. angle t c1 (clear_match t c)) (map (clear_match t) cat)
        ≡ map (λ c1. angle t c1 c) cat
  unfolding angle clear_match
  angles_right c cat = map-map _ _ cat

  abbrev pub MatchedAt : List (CatalogRow F) → ℕ → CatalogRow F → List F → Type 0
  MatchedAt out i c ds =
      (c' : CatalogRow F) × (get_elem? out i ≡ some c') × SameSource c' c × IsMatched ds c'

  matched_at :
      (f : CatalogRow F → List F) (cat : List (CatalogRow F)) (i : ℕ) (c : CatalogRow F)
      → get_elem? cat i ≡ some c
      → MatchedAt
          (map (λ r. consider_all t tol_ang 0 (f r) r) (map (clear_match t) cat))
          i
          c
          (f (clear_match t c))
  unfolding clear_match
  matched_at f cat i c h =
      let r = clear_match t c in
      (
        consider_all t tol_ang 0 (f r) r,
        get_elem?-map _ _ i (get_elem?-map (clear_match t) cat i h),
        consider_all-same t tol_ang 0 (f r) r,
        Outcome→IsMatched c _ (consider_all-Outcome t tol_ang 0 (f r) r),
      )

  -- After `xmatch` each row of either catalog describes the source that it did; its match is the
  -- first of the nearest sources of the other catalog below the tolerance and below 180, and it
  -- has none exactly when there is no such source.
  pub xmatch-nearest :
      (cat1 cat2 : List (CatalogRow F))
      → ((i : ℕ) (c : CatalogRow F)
          → get_elem? cat1 i ≡ some c
          → MatchedAt (xmatch t tol_ang cat1 cat2).0 i c (map (λ c2. angle t c c2) cat2))
        × ((j : ℕ) (c : CatalogRow F)
            → get_elem? cat2 j ≡ some c
            → MatchedAt (xmatch t tol_ang cat1 cat2).1 j c (map (λ c1. angle t c1 c) cat1))
  unfolding xmatch
  xmatch-nearest cat1 cat2 =
      let clear = clear_match t in
      rw (match_rows-eq 0 (map clear cat1) (map clear cat2)) (
        (λ i c h.
            subst (MatchedAt _ i c) (angles_left c cat2)
              (matched_at (λ r. map (angle t r) (map clear cat2)) cat1 i c h)),
        (λ j c h.
            subst (MatchedAt _ j c) (angles_right c cat1)
              (matched_at (λ r. map (λ c1. angle t c1 r) (map clear cat1)) cat2 j c h)),
      )

  pub xmatch_sizes :
      (cat1 cat2 : List (CatalogRow F))
      → (length (xmatch t tol_ang cat1 cat2).0 ≡ length cat1)
        × (length (xmatch t tol_ang cat1 cat2).1 ≡ length cat2)
  unfolding xmatch
  xmatch_sizes cat1 cat2 =
      let clear = clear_match t in
      rw (match_rows-eq 0 (map clear cat1) (map clear cat2)) (
        length-map _ (map clear cat1) ∙ length-map clear cat1,
        length-map _ (map clear cat2) ∙ length-map clear cat2,
      )
