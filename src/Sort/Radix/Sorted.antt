-- ===== src/Sort/Radix/Sorted.antt =====
-- `mos_radixsort` sorts: a stable round on a higher byte keeps the order by the bytes below it.
use mathlib.Core.List.Perm
use pwrake.Prelude.{
  ℕ, zero, suc, ◌%◌, ◌^◌, ◌≤◌, ◌<◌, ◌≡◌, sym, ◌∙◌, inl, inr, List, [], ◌∷◌, ◌++◌, Perm, some, arith,
  length, get_elem?, ◌==◌, Bool-cases, ==→≡, some-inj, Returns, returns, Returns-bind, Returns-map,
}
use pwrake.Prelude.Perms.{length-perm, each_of_perm}
use pwrake.Sort.Radix.{byte_at, distribute, rounds, mos_radixsort}
use pwrake.Sort.Radix.Buckets.{bucket, buckets, buckets-perm}
use pwrake.Sort.Radix.Placed.{distribute-buckets}

module _ {A : Type 0} where
  -- `P` holds of all entries.
  unfoldable Each : (A → Type 0) → List A → Type 0
  Each P [] = Unit
  Each P (x ∷ a) = P x × Each P a

  Each-append : (P : A → Type 0) (xs ys : List A) → Each P xs → Each P ys → Each P (xs ++ ys)
  unfolding Each
  Each-append P [] ys hx hy = hy
  Each-append P (x ∷ xs) ys (h, hx) hy = (h, Each-append P xs ys hx hy)

  Each-imp : (P Q : A → Type 0) (xs : List A) → ((x : A) → P x → Q x) → Each P xs → Each Q xs
  unfolding Each
  Each-imp P Q [] imp h = tt
  Each-imp P Q (x ∷ xs) imp (h, hx) = (imp x h, Each-imp P Q xs imp hx)

  Each-get_elem? :
      (P : A → Type 0) (xs : List A) (p : ℕ) (x : A) → Each P xs → get_elem? xs p ≡ some x → P x
  unfolding Each
  Each-get_elem? P [] p x h at = ground arith
  Each-get_elem? P (y ∷ xs) zero x (h, hx) at = let e : y ≡ x = some-inj at in rw e at h
  Each-get_elem? P (y ∷ xs) (suc p) x (h, hx) at = Each-get_elem? P xs p x hx at

  -- The entries ascend by `v`.
  unfoldable Ascends : (A → ℕ) → List A → Type 0
  unfolding Each
  Ascends v [] = Unit
  Ascends v (x ∷ a) = Each (λ y. v x ≤ v y) a × Ascends v a

  Ascends-append :
      (v : A → ℕ) (xs ys : List A)
      → Ascends v xs
      → Ascends v ys
      → Each (λ x. Each (λ y. v x ≤ v y) ys) xs
      → Ascends v (xs ++ ys)
  unfolding Ascends
  Ascends-append v [] ys hx hy across = hy
  Ascends-append v (x ∷ xs) ys (first, hx) hy (over, across) =
      (Each-append (λ y. v x ≤ v y) xs ys first over, Ascends-append v xs ys hx hy across)

  Ascends-get_elem? :
      (v : A → ℕ) (a : List A) (j k : ℕ) (x y : A)
      → Ascends v a
      → j < k
      → get_elem? a j ≡ some x
      → get_elem? a k ≡ some y
      → v x ≤ v y
  unfolding Ascends
  Ascends-get_elem? v [] j k x y h lt hx hy = ground arith
  Ascends-get_elem? v (z ∷ a) j zero x y h lt hx hy = absurd (omega arith)
  Ascends-get_elem? v (z ∷ a) zero (suc k) x y (first, h) lt hx hy =
      let e : z ≡ x = some-inj hx in rw e at (Each-get_elem? (λ y. v z ≤ v y) a k y first hy)
  Ascends-get_elem? v (z ∷ a) (suc j) (suc k) x y (first, h) lt hx hy =
      Ascends-get_elem? v a j k x y h (omega arith) hx hy

module _ (f : ℕ → ℕ) where
  Each-bucket :
      (P : ℕ → Type 0) (d : ℕ) (a : List ℕ) → Each P a → Each (λ y. P y × (f y ≡ d)) (bucket f d a)
  unfolding Each bucket
  Each-bucket P d [] h = tt
  Each-bucket P d (x ∷ a) (hx, h) =
      let rest = Each-bucket P d a h in
      elim (Bool-cases (f x == d)) [ inl e ↦ rw e ((hx, ==→≡ (f x) d e), rest) | inr e ↦ rw e rest ]

  Each-true : (a : List ℕ) → Each (λ x. Unit) a
  unfolding Each
  Each-true [] = tt
  Each-true (x ∷ a) = (tt, Each-true a)

  Each-buckets : (D : ℕ) (a : List ℕ) → Each (λ x. f x < D) (buckets f D a)
  unfolding Each buckets
  Each-buckets zero a = tt
  Each-buckets (suc D) a =
      Each-append (λ x. f x < suc D) (buckets f D a) (bucket f D a)
        (Each-imp (λ x. f x < D) (λ x. f x < suc D) (buckets f D a) (λ x h. omega arith)
          (Each-buckets D a))
        (Each-imp (λ x. Unit × (f x ≡ D)) (λ x. f x < suc D) (bucket f D a)
          (λ x h. omega (arith, h.1)) (Each-bucket (λ x. Unit) D a (Each-true a)))

  -- The order by `w` is that by `f`, and by `v` where `f` is the same.
  module _ (v w : ℕ → ℕ) (lower : (x y : ℕ) → f x < f y → w x ≤ w y)
      (level : (x y : ℕ) → f x ≡ f y → v x ≤ v y → w x ≤ w y) where
    bucket-Ascends : (d : ℕ) (a : List ℕ) → Ascends v a → Ascends w (bucket f d a)
    unfolding Ascends bucket
    bucket-Ascends d [] h = tt
    bucket-Ascends d (x ∷ a) (first, h) =
        let rest = bucket-Ascends d a h in
        elim (Bool-cases (f x == d)) [
          | inr e ↦ rw e rest
          | inl e ↦
              let at_d = ==→≡ (f x) d e in
              rw e (
                Each-imp (λ y. (v x ≤ v y) × (f y ≡ d)) (λ y. w x ≤ w y) (bucket f d a)
                    (λ y h. level x y (at_d ∙ sym h.1) h.0)
                    (Each-bucket (λ y. v x ≤ v y) d a first),
                rest,
              )
        ]

    buckets-Ascends : (D : ℕ) (a : List ℕ) → Ascends v a → Ascends w (buckets f D a)
    unfolding Ascends buckets
    buckets-Ascends zero a h = tt
    buckets-Ascends (suc D) a h =
        Ascends-append w (buckets f D a) (bucket f D a) (buckets-Ascends D a h)
          (bucket-Ascends D a h)
          (Each-imp (λ x. f x < D) (λ x. Each (λ y. w x ≤ w y) (bucket f D a)) (buckets f D a)
            (λ x low.
              Each-imp (λ y. Unit × (f y ≡ D)) (λ y. w x ≤ w y) (bucket f D a)
                (λ y h. lower x y (omega (arith, h.1))) (Each-bucket (λ y. Unit) D a (Each-true a)))
            (Each-buckets D a))

-- What a round keeps.
abbrev IsRound : (ℕ → ℕ) → List ℕ → List ℕ × List ℕ × List ℕ → Type 0
IsRound v a (b, count, work) =
    Ascends v b × Perm b a × (length count ≡ 257) × (length work ≡ length a)

distribute-IsRound :
    (shift : ℕ) (v w : ℕ → ℕ)
    → ((x y : ℕ) → byte_at shift x < byte_at shift y → w x ≤ w y)
    → ((x y : ℕ) → byte_at shift x ≡ byte_at shift y → v x ≤ v y → w x ≤ w y)
    → (a b count work : List ℕ) → IsRound v a (b, count, work)
    → Returns (IsRound w a) (distribute shift (length a) b count work)
distribute-IsRound shift v w lower level a b count work (up, perm, lc, lw) =
    let size : length b ≡ length a = length-perm perm in
    rw (← size) (
      Returns-map (distribute-buckets shift b count work lc (omega (arith, lw, size))) (λ s h.
        let f : ℕ → ℕ = λ x. byte_at shift x in
        let same : s.0 ≡ buckets f 256 b = h.0 in
        rw same (
          buckets-Ascends f v w lower level 256 b up,
          Perm.trans (buckets-perm f 256 b (λ x. omega arith)) perm,
          h.1,
          omega (arith, h.2, size),
        )))

Ascends-start : (a : List ℕ) → Ascends (λ x. 0) a
unfolding Ascends
Ascends-start [] = tt
Ascends-start (x ∷ a) = (
  Each-imp (λ y. Unit) (λ y. 0 ≤ 0) a (λ y h. omega arith) (Each-true (λ y. y) a),
  Ascends-start a,
)

rounds-IsRound :
    (a count work : List ℕ)
    → length count ≡ 257
    → length work ≡ length a
    → Returns (IsRound (λ x. x % 4294967296) a) (rounds 4 0 (length a) a count work)
unfolding rounds
rounds-IsRound a count work lc lw =
    Returns-bind
      (distribute-IsRound 0 (λ x. 0) (λ x. x % 256) (λ x y h. omega arith) (λ x y h l. omega arith)
        a a count work (Ascends-start a, Perm.refl a, lc, lw))
      (λ s h.
        Returns-bind
          (distribute-IsRound 8 (λ x. x % 256) (λ x. x % 65536) (λ x y h. omega arith)
            (λ x y h l. omega arith) a s.0 s.1 s.2 h)
          (λ s h.
            Returns-bind
              (distribute-IsRound 16 (λ x. x % 65536) (λ x. x % 16777216) (λ x y h. omega arith)
                (λ x y h l. omega arith) a s.0 s.1 s.2 h)
              (λ s h.
                Returns-bind
                  (distribute-IsRound 24 (λ x. x % 16777216) (λ x. x % 4294967296)
                    (λ x y h. omega arith) (λ x y h l. omega arith) a s.0 s.1 s.2 h)
                  (λ s h. returns h))))

-- On words of 32 bits `mos_radixsort` ends without an access outside an array, whatever the static
-- `count` and the fresh `work` hold, and leaves a rearrangement of the array in ascending order.
pub mos_radixsort-sorts :
    (a count work : List ℕ)
    → ((i x : ℕ) → get_elem? a i ≡ some x → x < 2 ^ 32)
    → length count ≡ 257
    → length work ≡ length a
    → Returns
        (λ r.
          ((j k x y : ℕ) → j < k → get_elem? r.0 j ≡ some x → get_elem? r.0 k ≡ some y → x ≤ y)
          × Perm r.0 a
          × (length r.1 ≡ 257))
        (mos_radixsort (length a) a count work)
unfolding mos_radixsort
mos_radixsort-sorts a count work words lc lw =
    Returns-bind (rounds-IsRound a count work lc lw) (λ s (up, perm, len, size).
      let same = each_of_perm (λ x. x % 4294967296) (λ x. x) perm (λ p x h. word x (words p x h)) in
      returns (
        λ j k x y lt hx hy.
            ordered x y (same j x hx) (same k y hy)
              (Ascends-get_elem? (λ x. x % 4294967296) s.0 j k x y up lt hx hy),
        perm,
        len,
      ))
  where
    word : (x : ℕ) → x < 2 ^ 32 → x % 4294967296 ≡ x
    word x h = omega arith

    ordered :
        (x y : ℕ)
        → x % 4294967296 ≡ x
        → y % 4294967296 ≡ y
        → x % 4294967296 ≤ y % 4294967296
        → x ≤ y
    ordered x y hx hy le = omega (arith, hx, hy)
