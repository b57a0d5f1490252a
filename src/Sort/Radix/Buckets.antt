-- ===== src/Sort/Radix/Buckets.antt =====
-- The entries of an array by bucket, each bucket in the array's order.
use mathlib.Core.List
use mathlib.Core.List.Perm
use mathlib.Core.Path.{ap₂}
use pwrake.Prelude.{
  ℕ, zero, suc, ◌+◌, ◌≤◌, ◌<◌, ◌≡◌, refl, sym, ap, ◌∙◌, inl, inr, true, ◌≢◌, Bool-cases, ==→≡,
  get_elem?-lt, get_elem?-append_left, get_elem?-append_right, get_elem?-append_cases, List, [],
  ◌∷◌, ◌++◌, Perm, some, some-inj, arith, length, length-append, get_elem?, take, ◌==◌,
  if◌then◌else◌,
}

module _ (f : ℕ → ℕ) where
  -- The entries of bucket `d`.
  unfoldable pub bucket : ℕ → List ℕ → List ℕ
  bucket d [] = []
  bucket d (x ∷ a) = let rest = bucket d a in if f x == d then x ∷ rest else rest

  -- The buckets below `D`, one after the other.
  unfoldable pub buckets : ℕ → List ℕ → List ℕ
  unfolding bucket
  buckets zero a = []
  buckets (suc D) a = buckets D a ++ bucket D a

  pub length-bucket-take :
      (d : ℕ) (a : List ℕ) (i x : ℕ)
      → get_elem? a i ≡ some x
      → length (bucket d (take (suc i) a))
        ≡ (if f x == d then 1 else 0) + length (bucket d (take i a))
  unfolding bucket
  length-bucket-take d [] i x h = ground arith
  length-bucket-take d (y ∷ a) zero x h = ground arith
  length-bucket-take d (y ∷ a) (suc i) x h = ground (arith, length-bucket-take d a i x h)

  get_elem?-bucket :
      (a : List ℕ) (i x : ℕ)
      → get_elem? a i ≡ some x
      → get_elem? (bucket (f x) a) (length (bucket (f x) (take i a))) ≡ some x
  unfolding bucket
  get_elem?-bucket [] i x h = ground arith
  get_elem?-bucket (y ∷ a) zero x h =
      let e : y ≡ x = some-inj h in
      let same : (f y == f x) ≡ true = ground (arith, ap f e) in rw (same, e) refl
  get_elem?-bucket (y ∷ a) (suc i) x h =
      let rest = get_elem?-bucket a i x h in
      elim (Bool-cases (f y == f x)) [ inl e ↦ rw e rest | inr e ↦ rw e rest ]

  bucket-has : (d : ℕ) (a : List ℕ) (q x : ℕ) → get_elem? (bucket d a) q ≡ some x → f x ≡ d
  unfolding bucket
  bucket-has d [] q x h = ground arith
  bucket-has d (y ∷ a) zero x h = elim (Bool-cases (f y == d)) [
    | inr e ↦ bucket-has d a zero x (rw e at h)
    | inl e ↦ ap f (sym (some-inj (rw e at h))) ∙ ==→≡ (f y) d e
  ]
  bucket-has d (y ∷ a) (suc q) x h = elim (Bool-cases (f y == d)) [
    | inr e ↦ bucket-has d a (suc q) x (rw e at h)
    | inl e ↦ bucket-has d a q x (rw e at h)
  ]

  pub length-buckets :
      (D : ℕ) (a : List ℕ) → length (buckets (suc D) a) ≡ length (buckets D a) + length (bucket D a)
  unfolding buckets
  length-buckets D a = length-append (buckets D a) (bucket D a)

  -- An entry stands behind the buckets below its own and the entries of its own bucket before it.
  pub buckets-place :
      (D : ℕ) (a : List ℕ) (i x : ℕ)
      → get_elem? a i ≡ some x
      → f x < D
      → get_elem? (buckets D a) (length (buckets (f x) a) + length (bucket (f x) (take i a)))
        ≡ some x
  unfolding buckets
  buckets-place zero a i x h lt = absurd (omega arith)
  buckets-place (suc D) a i x h lt =
      let there = get_elem?-bucket a i x h in
      let q : ℕ = length (bucket (f x) (take i a)) in
      elim (Bool-cases (f x == D)) [
        | inl e ↦
            let same : f x ≡ D = ==→≡ (f x) D e in
            let end : length (buckets (f x) a) + q ≡ length (buckets D a) + q =
              ap (λ d. length (buckets d a) + q) same in
            get_elem?-append_right (buckets D a) (bucket D a) _ q end
            ∙ ap (λ d. get_elem? (bucket d a) q) (sym same)
            ∙ there
        | inr e ↦
            let earlier = buckets-place D a i x h (ground arith) in
            get_elem?-append_left (buckets D a) (bucket D a) _
              (get_elem?-lt (buckets D a) _ earlier)
            ∙ earlier
      ]

  -- Each entry of the buckets lies in the range of its bucket.
  pub buckets-range :
      (D : ℕ) (a : List ℕ) (p x : ℕ)
      → get_elem? (buckets D a) p ≡ some x
      → (length (buckets (f x) a) ≤ p) × (p < length (buckets (suc (f x)) a))
  unfolding buckets
  buckets-range zero a p x h = ground arith
  buckets-range (suc D) a p x h = elim (get_elem?-append_cases (buckets D a) (bucket D a) p h) [
    | inl there ↦ buckets-range D a p x there
    | inr (q, at, there) ↦
        let same : f x ≡ D = bucket-has D a q x there in
        let inside = get_elem?-lt (bucket D a) q there in
        rw same (omega (arith, at), omega (arith, at, inside, length-buckets D a))
  ]

  bucket-cons : (d : ℕ) (x : ℕ) (a : List ℕ) → f x ≢ d → bucket d (x ∷ a) ≡ bucket d a
  unfolding bucket
  bucket-cons d x a ne = elim (Bool-cases (f x == d)) [
    | inl e ↦ absurd (ne (==→≡ (f x) d e))
    | inr e ↦ rw e refl
  ]

  buckets-cons : (D : ℕ) (x : ℕ) (a : List ℕ) → D ≤ f x → buckets D (x ∷ a) ≡ buckets D a
  unfolding buckets
  buckets-cons zero x a le = refl
  buckets-cons (suc D) x a le =
      ap₂ (λ b c. b ++ c) (buckets-cons D x a (omega arith)) (bucket-cons D x a (λ e. omega arith))

  cons-perm : (D : ℕ) (x : ℕ) (a : List ℕ) → f x < D → Perm (buckets D (x ∷ a)) (x ∷ buckets D a)
  unfolding buckets
  cons-perm zero x a lt = absurd (omega arith)
  cons-perm (suc D) x a lt = elim (Bool-cases (f x == D)) [
    | inl e ↦
        let same : f x ≡ D = ==→≡ (f x) D e in
        let earlier : buckets D (x ∷ a) ≡ buckets D a = buckets-cons D x a (omega (arith, same)) in
        rw (earlier, e) (List.perm_middle (buckets D a) (bucket D a))
    | inr e ↦ rw e (Perm.append_right (bucket D a) (cons-perm D x a (ground arith)))
  ]

  nil-buckets : (D : ℕ) → buckets D [] ≡ []
  unfolding buckets
  nil-buckets zero = refl
  nil-buckets (suc D) = rw (nil-buckets D) refl

  pub buckets-perm : (D : ℕ) (a : List ℕ) → ((x : ℕ) → f x < D) → Perm (buckets D a) a
  buckets-perm D [] small = rw (nil-buckets D) Perm.nil
  buckets-perm D (x ∷ a) small =
      Perm.trans (cons-perm D x a (small x)) (Perm.cons x (buckets-perm D a small))
