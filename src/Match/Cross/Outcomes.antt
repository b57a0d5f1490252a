-- ===== src/Match/Cross/Outcomes.antt =====
-- What the rounds of `consider` make of one row.
use mathlib.Core.Path.{subst}
use pwrake.Prelude.{
  ℕ, zero, suc, ◌+◌, ◌≤◌, ◌<◌, ◌≡◌, refl, ◌∙◌, ◌⊎◌, inl, inr, List, [], ◌∷◌, some, arith, get_elem?,
}
use pwrake.Sort.Order.{Ranked}
use pwrake.Match.Rows.{CatalogRow, Trig}
use pwrake.Match.Cross.{consider}

-- Two rows describe one source.
abbrev pub SameSource : {F : Type 0} → CatalogRow F → CatalogRow F → Type 0
SameSource c d = (c.line ≡ d.line) × (c.lon ≡ d.lon) × (c.lat ≡ d.lat) × (c.err ≡ d.err)

-- What holds of the head and of each entry of the tail.
each_cons :
    {A : Type 0} (P : ℕ → A → Type 0) (x : A) (xs : List A)
    → P 0 x
    → ((m : ℕ) (y : A) → get_elem? xs m ≡ some y → P (suc m) y)
    → (m : ℕ) (y : A) → get_elem? (x ∷ xs) m ≡ some y
    → P m y
each_cons P x xs head tail zero y h = let e : x ≡ y = ground arith in subst (P 0) e head
each_cons P x xs head tail (suc m) y h = tail m y h

module _ {F : Type 0} ⦃o : Ranked F⦄ (t : Trig F) (tol_ang : F) where
  -- All rounds for one row, with the angles in their order.
  unfoldable pub consider_all : ℕ → List F → CatalogRow F → CatalogRow F
  consider_all k [] c = c
  consider_all k (d ∷ ds) c = consider_all (suc k) ds (consider t tol_ang k d c)

  -- `m` is the first of the least angles of `ds` that are below the tolerance, and `d` is that angle.
  pub record IsFirstLeast (ds : List F) (m : ℕ) (d : F) : Type 0 where
    pub found : get_elem? ds m ≡ some d
    pub close : o.rank d < o.rank tol_ang
    pub least :
        (m' : ℕ) (d' : F)
        → get_elem? ds m' ≡ some d'
        → o.rank d' < o.rank tol_ang
        → (o.rank d ≤ o.rank d') × (m' < m → o.rank d < o.rank d')

  abbrev IsFar : F → List F → Type 0
  IsFar bound ds =
      (m : ℕ) (d : F)
      → get_elem? ds m ≡ some d
      → o.rank d < o.rank tol_ang
      → o.rank bound ≤ o.rank d

  -- After the rounds of `ds`, from `c` with the index `k`.
  pub data Outcome (k : ℕ) (ds : List F) (c c' : CatalogRow F) : Type 0 where
    kept : c'.min_idx ≡ c.min_idx → c'.min_ang ≡ c.min_ang → IsFar c.min_ang ds → Outcome k ds c c'
    better :
        (m i : ℕ)
        → i ≡ k + m
        → c'.min_idx ≡ some i
        → IsFirstLeast ds m c'.min_ang
        → o.rank c'.min_ang < o.rank c.min_ang
        → Outcome k ds c c'

  pub consider-same : (k : ℕ) (d : F) (c : CatalogRow F) → SameSource (consider t tol_ang k d c) c
  unfolding consider
  consider-same k d c = ground arith

  pub consider_all-same :
      (k : ℕ) (ds : List F) (c : CatalogRow F) → SameSource (consider_all k ds c) c
  unfolding consider_all
  consider_all-same k [] c = (refl, refl, refl, refl)
  consider_all-same k (d ∷ ds) c =
      let (p, q, r, s) = consider-same k d c in
      let (p', q', r', s') = consider_all-same (suc k) ds (consider t tol_ang k d c) in
      (p' ∙ p, q' ∙ q, r' ∙ r, s' ∙ s)

  consider_cases :
      (k : ℕ) (d : F) (c : CatalogRow F)
      → (((consider t tol_ang k d c).min_ang ≡ d)
          × ((consider t tol_ang k d c).min_idx ≡ some k)
          × (o.rank d < o.rank tol_ang)
          × (o.rank d < o.rank c.min_ang))
        ⊎ (((consider t tol_ang k d c).min_ang ≡ c.min_ang)
            × ((consider t tol_ang k d c).min_idx ≡ c.min_idx)
            × (o.rank d < o.rank tol_ang → o.rank c.min_ang ≤ o.rank d))
  unfolding consider
  consider_cases k d c = ground arith

  module _ (k : ℕ) (d : F) (ds : List F) (c c1 c' : CatalogRow F) where
    took-Outcome :
        c1.min_ang ≡ d
        → c1.min_idx ≡ some k
        → o.rank d < o.rank tol_ang
        → o.rank d < o.rank c.min_ang
        → Outcome (suc k) ds c1 c'
        → Outcome k (d ∷ ds) c c'
    took-Outcome ang idx near less (kept e a far) =
        better 0 k (omega arith) (e ∙ idx)
          (record {
            found = ground arith;
            close = ground arith;
            least =
                each_cons
                  (λ m' d'.
                    o.rank d' < o.rank tol_ang
                    → (o.rank c'.min_ang ≤ o.rank d') × (m' < 0 → o.rank c'.min_ang < o.rank d'))
                  d ds (λ n. ground arith) (λ m' d' at n. ground (arith, far m' d' at n));
          })
          (ground arith)
    took-Outcome ang idx near less (better m i e j v l) =
        better (suc m) i (omega arith) j
          (record {
            found = v.found;
            close = v.close;
            least =
                each_cons
                  (λ m' d'.
                    o.rank d' < o.rank tol_ang
                    → (o.rank c'.min_ang ≤ o.rank d')
                      × (m' < suc m → o.rank c'.min_ang < o.rank d'))
                  d ds (λ n. ground arith) (λ m' d' at n. ground (arith, v.least m' d' at n));
          })
          (ground arith)

    left-Outcome :
        c1.min_ang ≡ c.min_ang
        → c1.min_idx ≡ c.min_idx
        → (o.rank d < o.rank tol_ang → o.rank c.min_ang ≤ o.rank d)
        → Outcome (suc k) ds c1 c'
        → Outcome k (d ∷ ds) c c'
    left-Outcome ang idx not_less (kept e a far) = kept (e ∙ idx) (a ∙ ang) (
        each_cons (λ m' d'. o.rank d' < o.rank tol_ang → o.rank c.min_ang ≤ o.rank d') d ds not_less
          λ m' d' at n. ground (arith, far m' d' at n))
    left-Outcome ang idx not_less (better m i e j v l) =
        better (suc m) i (omega arith) j
          (record {
            found = v.found;
            close = v.close;
            least =
                each_cons
                  (λ m' d'.
                    o.rank d' < o.rank tol_ang
                    → (o.rank c'.min_ang ≤ o.rank d')
                      × (m' < suc m → o.rank c'.min_ang < o.rank d'))
                  d ds (λ n. ground (arith, not_less n))
                  (λ m' d' at n. ground (arith, v.least m' d' at n));
          })
          (ground arith)

  pub consider_all-Outcome :
      (k : ℕ) (ds : List F) (c : CatalogRow F) → Outcome k ds c (consider_all k ds c)
  unfolding consider_all
  consider_all-Outcome k [] c = kept refl refl (λ m d at near. ground arith)
  consider_all-Outcome k (d ∷ ds) c =
      let ih = consider_all-Outcome (suc k) ds (consider t tol_ang k d c) in
      elim (consider_cases k d c) [
        | inl (a, i, n, l) ↦ took-Outcome k d ds c _ _ a i n l ih
        | inr (a, i, n) ↦ left-Outcome k d ds c _ _ a i n ih
      ]
