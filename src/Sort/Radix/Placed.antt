-- ===== src/Sort/Radix/Placed.antt =====
-- A round of `mos_radixsort` puts the entries into their buckets: the counts before and behind it.
use pwrake.Prelude.{
  ℕ, zero, suc, ◌+◌, ◌-◌, ◌≤◌, ◌<◌, ◌≡◌, refl, sym, ap, ◌∙◌, List, [], ◌∷◌, ◌++◌, some, arith,
  length, length-append, length-set, get_elem?, get_elem?-set, get_elem?-ok, get_elem?-lt,
  get_elem?-append_left, set, write-ok, take, drop, replicate, length-replicate,
  get_elem?-replicate, take-length, drop-length, append-nil, length-drop, ◌==◌, if◌then◌else◌,
  Bool-cases, inl, inr, ==→≡, some-inj, Returns, returns, Returns-bind,
}
use pwrake.Prelude.Perms.{length-perm}
use pwrake.Sort.Radix.{byte_at, reset, tally, cumulate, scatter, distribute}
use pwrake.Sort.Radix.Buckets.{
  bucket, buckets, length-bucket-take, length-buckets, buckets-place, buckets-range, buckets-perm,
}

module _ {A : Type 0} where
  -- Arrays of one length with the same entries are the same.
  pub same_entries :
      (xs ys : List A)
      → length xs ≡ length ys
      → ((p : ℕ) (x : A) → get_elem? xs p ≡ some x → get_elem? ys p ≡ some x)
      → ys ≡ xs
  same_entries [] [] len same = refl
  same_entries [] (y ∷ ys) len same = absurd (omega arith)
  same_entries (x ∷ xs) [] len same = absurd (omega arith)
  same_entries (x ∷ xs) (y ∷ ys) len same =
      let head : y ≡ x = some-inj (same 0 x refl) in
      rw (head, same_entries xs ys (omega arith) (λ p z h. same (suc p) z h)) refl

module _ (shift : ℕ) (a : List ℕ) where
  abbrev pub byte : ℕ → ℕ
  byte x = byte_at shift x

  -- The counts of the first `i` entries.
  abbrev IsTallied : ℕ → List ℕ → Type 0
  IsTallied i count =
      (length count ≡ 257)
      × ((d : ℕ) → d < 256 → get_elem? count d ≡ some (length (bucket byte d (take i a))))

  reset-IsTallied : (count : List ℕ) → length count ≡ 257 → IsTallied 0 (reset count)
  unfolding reset bucket
  reset-IsTallied count size = (
    omega (
      arith,
      length-append (replicate 256 0) (drop 256 count),
      length-replicate {A = ℕ} 256 0,
      length-drop 256 count,
      size,
    ),
    λ d lt.
        get_elem?-append_left (replicate 256 0) (drop 256 count) d
          (omega (arith, length-replicate {A = ℕ} 256 0, lt))
        ∙ get_elem?-replicate 256 0 d lt,
  )

  tally-IsTallied :
      (left i : ℕ) (count : List ℕ)
      → i + left ≡ length a
      → IsTallied i count
      → Returns (IsTallied (length a)) (tally shift left i a count)
  unfolding tally
  tally-IsTallied zero i count size v = let e : i ≡ length a = omega arith in returns (rw e at v)
  tally-IsTallied (suc left) i count size (len, at) =
      let (x, h) = get_elem?-ok a i (omega arith) in
      let c : ℕ = length (bucket byte (byte x) (take i a)) in
      let small : byte x < 256 = omega arith in
      let inside : byte x < length count = omega arith in
      rw (h, at (byte x) small, write-ok count (byte x) (c + 1) inside)
        (tally-IsTallied left (suc i) (set count (byte x) (c + 1)) (omega arith) (
          omega (arith, length-set count (byte x) (c + 1), len),
          λ d lt. ground (
            arith,
            get_elem?-set count (byte x) d (c + 1) inside,
            at d lt,
            length-bucket-take byte d a i x h,
          ),
        ))

  -- The counts with those below `i` summed up.
  abbrev IsSummed : ℕ → List ℕ → Type 0
  IsSummed i count =
      (length count ≡ 257)
      × ((d : ℕ)
          → d < 256
          → (d < i → get_elem? count d ≡ some (length (buckets byte (suc d) a)))
            × (i ≤ d → get_elem? count d ≡ some (length (bucket byte d a))))

  tallied-IsSummed : (count : List ℕ) → IsTallied (length a) count → IsSummed 1 count
  unfolding buckets
  tallied-IsSummed count (len, at) = (
    len,
    λ d lt.
        let here : get_elem? count d ≡ some (length (bucket byte d a)) =
          rw (take-length a (length a) refl) at (at d lt) in
        (
          λ first.
              let zero_is : d ≡ 0 = omega arith in
              here ∙ ap some (rw zero_is (sym (length-buckets byte 0 a ∙ omega arith))),
          λ le. here,
        ),
  )

  cumulate-IsSummed :
      (left i : ℕ) (count : List ℕ)
      → i + left ≡ 257
      → 0 < i
      → IsSummed i count
      → Returns (IsSummed 257) (cumulate left i count)
  unfolding cumulate
  cumulate-IsSummed zero i count size pos v = let e : i ≡ 257 = omega arith in returns (rw e at v)
  cumulate-IsSummed (suc left) zero count size pos v = absurd (omega arith)
  cumulate-IsSummed (suc left) (suc i) count size pos (len, at) =
      let (c, h) = get_elem?-ok count (suc i) (omega arith) in
      let below : ℕ = length (buckets byte (suc i) a) in
      let hb : get_elem? count i ≡ some below = (at i (omega arith)).0 (omega arith) in
      let inside : suc i < length count = omega arith in
      let back : suc i - 1 ≡ i = omega arith in
      rw (back, h, hb, write-ok count (suc i) (c + below) inside)
        (cumulate-IsSummed left (suc (suc i)) (set count (suc i) (c + below)) (omega arith)
          (omega arith)
          (
            omega (arith, length-set count (suc i) (c + below), len),
            λ d lt.
                let now = get_elem?-set count (suc i) d (c + below) inside in
                let (summed, plain) = at d lt in
                (
                  λ ld. ground (arith, now, summed, plain, h, length-buckets byte (suc i) a),
                  λ ge. ground (arith, now, plain),
                ),
          ))

  -- The entries from `i` on stand in their places in `work`, and each bucket's count is the place of
  -- its entry before them.
  abbrev IsPlaced : ℕ → List ℕ × List ℕ → Type 0
  IsPlaced i (count, work) =
      (length count ≡ 257)
      × (length work ≡ length a)
      × ((d : ℕ)
          → d < 256
          → get_elem? count d
            ≡ some (length (buckets byte d a) + length (bucket byte d (take i a))))
      × ((p x : ℕ)
          → get_elem? (buckets byte 256 a) p ≡ some x
          → length (buckets byte (byte x) a) + length (bucket byte (byte x) (take i a)) ≤ p
          → get_elem? work p ≡ some x)

  length-buckets_all : length (buckets byte 256 a) ≡ length a
  length-buckets_all = length-perm (buckets-perm byte 256 a (λ x. omega arith))

  summed-IsPlaced :
      (count work : List ℕ)
      → length work ≡ length a
      → IsSummed 257 count
      → IsPlaced (length a) (count, work)
  summed-IsPlaced count work size (len, at) = (
    len,
    size,
    λ d lt.
        let all = take-length a (length a) refl in
        rw all ((at d lt).0 (omega arith) ∙ ap some (length-buckets byte d a)),
    λ p x h le.
        let all = take-length a (length a) refl in
        let range = buckets-range byte 256 a p x h in
        absurd (omega (arith, rw all at le, range.1, length-buckets byte (byte x) a)),
  )

  -- After a write at `p`, the place of the entry `i`, the entries from `i` on stand in their places.
  placed_at :
      (i x p : ℕ)
      → get_elem? a i ≡ some x
      → p ≡ length (buckets byte (byte x) a) + length (bucket byte (byte x) (take i a))
      → get_elem? (buckets byte 256 a) p ≡ some x
      → (after work : List ℕ) (q y : ℕ) → get_elem? (buckets byte 256 a) q ≡ some y
      → length (buckets byte (byte y) a) + length (bucket byte (byte y) (take i a)) ≤ q
      → get_elem? after q ≡ (if p == q then some x else get_elem? work q)
      → (length (buckets byte (byte y) a) + length (bucket byte (byte y) (take (suc i) a)) ≤ q
          → get_elem? work q ≡ some y)
      → get_elem? after q ≡ some y
  placed_at i x p h at_p place after work q y hy from now earlier = elim (Bool-cases (p == q)) [
    | inl e ↦
        let same = ap (get_elem? (buckets byte 256 a)) (==→≡ p q e) in
        (rw e at now) ∙ sym place ∙ same ∙ hy
    | inr e ↦
        let step = length-bucket-take byte (byte y) a i x h in
        (rw e at now)
        ∙ earlier (elim (Bool-cases (byte x == byte y)) [
          | inl s ↦
              let same = ==→≡ (byte x) (byte y) s in
              let at_q : p
                  ≡ length (buckets byte (byte y) a) + length (bucket byte (byte y) (take i a)) =
                rw same at at_p in
              ground (arith, step, s, at_q, e, from)
          | inr s ↦ ground (arith, step, s, from)
        ])
  ]

  scatter-IsPlaced :
      (i : ℕ) (count work : List ℕ)
      → i ≤ length a
      → IsPlaced i (count, work)
      → Returns (IsPlaced 0) (scatter shift i a count work)
  unfolding scatter
  scatter-IsPlaced zero count work le v = returns v
  scatter-IsPlaced (suc i) count work le (len, size, at, done) =
      let (x, h) = get_elem?-ok a i (omega arith) in
      let p : ℕ = length (buckets byte (byte x) a) + length (bucket byte (byte x) (take i a)) in
      let place : get_elem? (buckets byte 256 a) p ≡ some x =
        buckets-place byte 256 a i x h (omega arith) in
      let c : get_elem? count (byte x) ≡ some (suc p) =
        ground (arith, at (byte x) (omega arith), length-bucket-take byte (byte x) a i x h) in
      let within : byte x < length count = omega arith in
      let inside : p < length work =
        omega (arith, get_elem?-lt (buckets byte 256 a) p place, length-buckets_all) in
      rw (h, c, write-ok count (byte x) p within, write-ok work p x inside)
        (scatter-IsPlaced i (set count (byte x) p) (set work p x) (omega arith) (
          omega (arith, length-set count (byte x) p),
          omega (arith, length-set work p x),
          λ d lt. ground (
            arith,
            get_elem?-set count (byte x) d p within,
            at d lt,
            length-bucket-take byte d a i x h,
          ),
          λ q y hy from.
              placed_at i x p h refl place (set work p x) work q y hy from
                (get_elem?-set work p q x inside) (done q y hy),
        ))

-- A round of the loop ends without an access outside an array, whatever `count` and `work` hold at
-- its start, and leaves in `a` the 256 buckets one after the other, each in the order of `a`.
pub distribute-buckets :
    (shift : ℕ) (a count work : List ℕ)
    → length count ≡ 257
    → length work ≡ length a
    → Returns
        (λ s.
          (s.0 ≡ buckets (λ x. byte_at shift x) 256 a)
          × (length s.1 ≡ 257)
          × (length s.2 ≡ length a))
        (distribute shift (length a) a count work)
unfolding distribute bucket
distribute-buckets shift a count work lc lw =
    Returns-bind
      (tally-IsTallied shift a (length a) 0 (reset count) (omega arith)
        (reset-IsTallied shift a count lc))
      (λ tallied ht.
        Returns-bind
          (cumulate-IsSummed shift a 256 1 tallied (omega arith) (omega arith)
            (tallied-IsSummed shift a tallied ht))
          (λ summed hs.
            Returns-bind
              (scatter-IsPlaced shift a (length a) summed work (omega arith)
                (summed-IsPlaced shift a summed work lw hs))
              (λ (counts, placed) (len, size, at, done).
                returns (copied placed size done, len, size))))
  where
    copied :
        (placed : List ℕ)
        → length placed ≡ length a
        → ((p x : ℕ)
            → get_elem? (buckets (λ x. byte_at shift x) 256 a) p ≡ some x
            → length (buckets (λ x. byte_at shift x) (byte_at shift x) a)
                + length (bucket (λ x. byte_at shift x) (byte_at shift x) (take 0 a))
              ≤ p
            → get_elem? placed p ≡ some x)
        → take (length a) placed ++ drop (length a) a ≡ buckets (λ x. byte_at shift x) 256 a
    copied placed size done =
        let low : (p x : ℕ)
            → get_elem? (buckets (λ x. byte_at shift x) 256 a) p ≡ some x
            → get_elem? placed p ≡ some x =
          λ p x h.
            done p x h (omega (arith, (buckets-range (λ x. byte_at shift x) 256 a p x h).0)) in
        let same =
          same_entries (buckets (λ x. byte_at shift x) 256 a) placed
            (omega (arith, length-buckets_all shift a)) low in
        rw (take-length placed (length a) (sym size), drop-length a (length a) refl)
          (append-nil placed ∙ same)
