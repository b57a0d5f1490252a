-- ===== src/Sort/Heap/Sifted.antt =====
-- What one sift does: the heap order below an entry, and the contents.
use mathlib.Core.List.Perm
use pwrake.Prelude.{
  ℕ, zero, suc, ◌+◌, ◌-◌, ◌*◌, ◌/◌, ◌≤◌, ◌<◌, ◌≡◌, ◌≢◌, ◌⊎◌, inl, inr, refl, Bool, Bool-cases, List,
  Perm, some, arith, length, get_elem?, set, ltb, leb, ltb→lt, ltb→le, write-ok, get_elem?-ok,
  length-set, Returns, returns, Returns-if, Returns-bind, Returns-map,
}
use pwrake.Prelude.Perms.{hole-perm}
use pwrake.Sort.Order.{Ranked, key, key-get_elem?, key-set}
use pwrake.Sort.Heap.{larger_child, sift_down}

abbrev pub parent : ℕ → ℕ
parent c = (c - 1) / 2

child_cases : (c i : ℕ) → 0 < c → parent c ≡ i → (c ≡ 2 * i + 1) ⊎ (c ≡ 2 * i + 2)
child_cases c i p e = ground arith

module _ {E : Type 0} ⦃o : Ranked E⦄ where
  -- Every edge of the first `n` entries whose parent is at `lo` or later is in order.
  abbrev pub IsHeapFrom : ℕ → ℕ → List E → Type 0
  IsHeapFrom lo n a = (c : ℕ) → 0 < c → c < n → lo ≤ parent c → key a c ≤ key a (parent c)

  -- The order with `x` in the hole `i`, but for the edges below the hole.
  pub record IsHoled (lo n i : ℕ) (x : E) (a : List E) : Type 0 where
    pub edges :
        (c : ℕ) → 0 < c → c < n → lo ≤ parent c → parent c ≢ i → c ≢ i → key a c ≤ key a (parent c)
    pub above : 0 < i → lo ≤ parent i → o.rank x ≤ key a (parent i)
    pub bridged :
        (c : ℕ) → 0 < c → c < n → parent c ≡ i → 0 < i → lo ≤ parent i → key a c ≤ key a (parent i)

  pub record IsSifted (lo n i : ℕ) (x : E) (a b : List E) : Type 0 where
    pub heap : IsHeapFrom lo n b
    pub tail : (k : ℕ) → n ≤ k → key b k ≡ key a k
    pub bounded :
        (m : ℕ) → o.rank x ≤ m → ((k : ℕ) → k < n → key a k ≤ m) → (k : ℕ) → k < n → key b k ≤ m
    pub same : Perm b (set a i x)

  record IsLarger (n i j : ℕ) (a : List E) : Type 0 where
    inside : j < n
    child : (j ≡ 2 * i + 1) ⊎ (j ≡ 2 * i + 2)
    largest : (c : ℕ) → 0 < c → c < n → parent c ≡ i → key a c ≤ key a j

  put-IsSifted :
      (lo n i : ℕ) (x : E) (a : List E)
      → i < n
      → n ≤ length a
      → IsHoled lo n i x a
      → ((c : ℕ) → 0 < c → c < n → parent c ≡ i → key a c ≤ o.rank x)
      → IsSifted lo n i x a (set a i x)
  put-IsSifted lo n i x a inside size v below = record {
    heap = λ c p q l.
        ground (arith, key-set a i c x, key-set a i (parent c) x, v.edges c, v.above, below c);
    tail = λ k h. ground (arith, key-set a i k x);
    bounded = λ m h all k kn. ground (arith, key-set a i k x, all k);
    same = Perm.rfl;
  }

  module _ (lo n i j : ℕ) (x y : E) (a : List E) where
    -- The child `y` at `j` goes up into the hole.
    move-IsHoled :
        i < n
        → n ≤ length a
        → IsHoled lo n i x a
        → IsLarger n i j a
        → key a j ≡ o.rank y
        → o.rank x ≤ o.rank y
        → IsHoled lo n j x (set a i y)
    move-IsHoled inside size v s ky up = record {
      edges = λ c p q l nj nc. ground (
        arith,
        key-set a i c y,
        key-set a i (parent c) y,
        v.edges c,
        v.bridged j,
        s.largest c,
        s.child,
      );
      above = λ p l. ground (arith, key-set a i (parent j) y, s.child);
      bridged = λ c p q e pj l.
          ground (arith, key-set a i c y, key-set a i (parent j) y, v.edges c, s.child);
    }

    move-IsSifted :
        (b : List E)
        → i < n
        → n ≤ length a
        → IsLarger n i j a
        → get_elem? a j ≡ some y
        → key a j ≡ o.rank y
        → IsSifted lo n j x (set a i y) b
        → IsSifted lo n i x a b
    move-IsSifted b inside size s read ky t = record {
      heap = t.heap;
      tail = λ k h. ground (arith, t.tail k, key-set a i k y);
      bounded = λ m xm all.
          t.bounded m xm λ k kn. ground (arith, key-set a i k y, all k, all j, s.inside);
      same = Perm.trans t.same (hole-perm a i j x y (omega arith) read (ground (arith, s.child)));
    }

  module _ (less settled : E → E → Bool)
      (less_lem : (a b : E) → less a b ≡ ltb (o.rank a) (o.rank b))
      (settled_lem : (a b : E) → settled a b ≡ leb (o.rank b) (o.rank a)) where
    larger_child-IsLarger :
        (n i : ℕ) (a : List E)
        → 2 * i + 1 < n
        → n ≤ length a
        → Returns (λ j. IsLarger n i j a) (larger_child less settled n (2 * i + 1) a)
    unfolding larger_child
    larger_child-IsLarger n i a h size =
        Returns-if (ltb (2 * i + 1 + 1) n)
          (λ e.
            let both = ltb→lt _ _ e in
            let (y, ry) = get_elem?-ok a (2 * i + 1) (omega arith) in
            let (z, rz) = get_elem?-ok a (2 * i + 1 + 1) (omega arith) in
            let ky = key-get_elem? a (2 * i + 1) y ry in
            let kz = key-get_elem? a (2 * i + 1 + 1) z rz in
            rw (ry, rz)
              (returns (elim (Bool-cases (less y z)) [
                | inl up ↦ rw up (record {
                  inside = omega arith;
                  child = inr (omega arith);
                  largest = λ c p q e'. ground (arith, child_cases c i p e', less_lem y z);
                })
                | inr low ↦ rw low (record {
                  inside = omega arith;
                  child = inl refl;
                  largest = λ c p q e'. ground (arith, child_cases c i p e', less_lem y z);
                })
              ])))
          λ e. returns (record {
            inside = h;
            child = inl refl;
            largest = λ c p q e'. ground (arith, child_cases c i p e', ltb→le _ _ e);
          })

    pub sift_down-IsSifted :
        (fuel lo n i : ℕ) (x : E) (a : List E)
        → n - i < fuel
        → i < n
        → n ≤ length a
        → IsHoled lo n i x a
        → Returns (λ b. IsSifted lo n i x a b) (sift_down less settled fuel n i x a)
    unfolding sift_down
    sift_down-IsSifted zero lo n i x a f inside size v = absurd (omega arith)
    sift_down-IsSifted (suc fuel) lo n i x a f inside size v =
        Returns-if (ltb (2 * i + 1) n)
          (λ e.
            let two = ltb→lt _ _ e in
            Returns-bind (larger_child-IsLarger n i a two size) λ j s.
              let (y, read) = get_elem?-ok a j (omega (arith, s.inside)) in
              let ky = key-get_elem? a j y read in
              rw (read, write-ok a i x (omega arith), write-ok a i y (omega arith))
                (Returns-if (settled x y)
                  (λ done. returns (
                    put-IsSifted lo n i x a inside size v
                      λ c p q e'. ground (arith, s.largest c, settled_lem x y)))
                  (λ more.
                    let above : o.rank x ≤ o.rank y = ground (arith, settled_lem x y) in
                    Returns-map
                      (sift_down-IsSifted fuel lo n j x (set a i y)
                        (omega (arith, s.child, s.inside)) s.inside (rw length-set size)
                        (move-IsHoled lo n i j x y a inside size v s ky above))
                      λ b t. move-IsSifted lo n i j x y a b inside size s read ky t)))
          λ e. rw (write-ok a i x (omega arith)) (
            returns (
              put-IsSifted lo n i x a inside size v
                λ c p q e'. absurd (ground (arith, child_cases c i p e', ltb→le _ _ e))))
