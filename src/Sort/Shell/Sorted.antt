-- ===== src/Sort/Shell/Sorted.antt =====
-- `shellsort` sorts from four entries on, and leaves shorter arrays as they are.
use mathlib.Core.List.Perm
use native.Mathlib.Decide.{dec_le}
use pwrake.Prelude.{
  ℕ, zero, suc, ◌+◌, ◌-◌, ◌/◌, ◌≤◌, ◌<◌, ◌≡◌, ◌≢◌, refl, List, Perm, some, arith, length, set, ltb,
  [], ◌∷◌, ltb→le, ltb→lt, lt→ltb, ◌∙◌, ◌>>=◌, write-ok, get_elem?-ok, length-set, Returns, returns,
  Returns-if, Returns-bind, Returns-map, Returns-both,
}
use pwrake.Prelude.Perms.{hole-perm, length-perm, set-get_elem?}
use pwrake.Sort.Order.{Ranked, gt, key, IsSortedTo, key-get_elem?, key-set}
use pwrake.Sort.Shell.{grow, shift, pass, passes, shellsort}
use pwrake.Sort.Shell.Gaps.{IsGap, first, next, IsGap-div, grow-Grown}

module _ {F : Type 0} ⦃o : Ranked F⦄ where
  shift-perm :
      (fuel h : ℕ) (x : F) (p : ℕ) (a : List F)
      → 0 < h
      → p < fuel
      → p < length a
      → Returns (λ b. Perm b (set a p x)) (shift fuel h x p a)
  unfolding shift
  shift-perm zero h x p a pos f inside = absurd (omega arith)
  shift-perm (suc fuel) h x p a pos f inside =
      Returns-if (ltb p h) (λ e. rw (write-ok a p x inside) (returns Perm.rfl))
        λ e.
          let apart = ltb→le p h e in
          let (y, read) = get_elem?-ok a (p - h) (omega arith) in
          rw (read, write-ok a p x inside, write-ok a p y inside)
            (Returns-if (gt y x)
              (λ _.
                Returns-map
                  (shift-perm fuel h x (p - h) (set a p y) pos (omega arith)
                    (rw length-set (omega arith)))
                  λ b same. Perm.trans same (hole-perm a p (p - h) x y inside read (omega arith)))
              (λ _. returns Perm.rfl))

  pass-perm :
      (left h i : ℕ) (a : List F)
      → 0 < h
      → i + left ≤ length a
      → Returns (λ b. Perm b a) (pass left h i a)
  unfolding pass
  pass-perm zero h i a pos room = returns Perm.rfl
  pass-perm (suc left) h i a pos room =
      let (x, read) = get_elem?-ok a i (omega arith) in
      rw read (
        Returns-bind (shift-perm (suc i) h x i a pos (omega arith) (omega arith)) λ b same.
          let same' = rw (set-get_elem? a i x read) at same in
          Returns-map (pass-perm left h (i + 1) b pos (omega (arith, length-perm same')))
            λ c t. Perm.trans t same')

  passes-perm :
      (fuel n h : ℕ) (a : List F)
      → h < fuel
      → n ≤ length a
      → Returns (λ b. Perm b a) (passes fuel n h a)
  unfolding passes
  passes-perm zero n h a f size = absurd (omega arith)
  passes-perm (suc fuel) n h a f size =
      Returns-if (ltb 0 h)
        (λ e.
          let pos = ltb→lt 0 h e in
          elim (dec_le h n) [
            | yes fits ↦ Returns-bind (pass-perm (n - h) h h a pos (omega arith)) λ b same.
                Returns-map
                  (passes-perm fuel n (h / 3) b (omega arith) (omega (arith, length-perm same)))
                  λ c t. Perm.trans t same
            | no wide ↦
                let none_left : n - h ≡ 0 = omega arith in
                rw (none_left, pass) (passes-perm fuel n (h / 3) a (omega arith) size)
          ])
        (λ _. returns Perm.rfl)

  -- The entries before `i + 1` ascend but for the hole, and the moved ones exceed `x`.
  record IsShifted (i : ℕ) (x : F) (p : ℕ) (a : List F) : Type 0 where
    inside : p ≤ i
    rest : (j k : ℕ) → j < k → k ≤ i → j ≢ p → k ≢ p → key a j ≤ key a k
    above : (k : ℕ) → p < k → k ≤ i → o.rank x ≤ key a k

  shift-sorted :
      (fuel : ℕ) (x : F) (p i : ℕ) (a : List F)
      → p < fuel
      → i < length a
      → IsShifted i x p a
      → Returns (λ b. IsSortedTo b (i + 1)) (shift fuel 1 x p a)
  unfolding shift
  shift-sorted zero x p i a f size v = absurd (omega arith)
  shift-sorted (suc fuel) x p i a f size v =
      let inside : p < length a = omega (arith, v.inside) in
      Returns-if (ltb p 1)
        (λ e. rw (write-ok a p x inside) (
          returns
            (λ j k jk ki. ground (arith, key-set a p j x, key-set a p k x, v.rest j k, v.above k))))
        λ e.
          let apart = ltb→le p 1 e in
          let (y, read) = get_elem?-ok a (p - 1) (omega arith) in
          rw (read, write-ok a p x inside, write-ok a p y inside)
            (Returns-if (gt y x)
              (λ up.
                shift-sorted fuel x (p - 1) i (set a p y) (omega arith) (rw length-set size)
                  (record {
                    inside = omega (arith, v.inside);
                    rest = λ j k jk ki nj nk. ground (
                      arith,
                      key-set a p j y,
                      key-set a p k y,
                      v.rest j k,
                      v.rest j (p - 1),
                      v.rest (p - 1) k,
                      key-get_elem? a (p - 1) y read,
                    );
                    above = λ k pk ki. ground (
                      arith,
                      key-set a p k y,
                      v.above k,
                      v.rest (p - 1) k,
                      key-get_elem? a (p - 1) y read,
                    );
                  }))
              (λ low. returns (λ j k jk ki. ground (
                arith,
                key-set a p j x,
                key-set a p k x,
                v.rest j k,
                v.above k,
                v.rest j (p - 1),
                key-get_elem? a (p - 1) y read,
              ))))

  pass-sorted :
      (left i : ℕ) (a : List F)
      → i + left ≡ length a
      → 0 < i
      → IsSortedTo a i
      → Returns (λ b. IsSortedTo b (length a)) (pass left 1 i a)
  unfolding pass
  pass-sorted zero i a size pos s = returns (λ j k jk ki. s j k jk (omega arith))
  pass-sorted (suc left) i a size pos s =
      let (x, read) = get_elem?-ok a i (omega arith) in
      let start : IsShifted i x i a = record {
        inside = omega arith;
        rest = λ j k jk ki nj nk. s j k jk (omega arith);
        above = λ k pk ki. absurd (omega arith);
      } in
      rw read (
        Returns-bind
          (Returns-both (shift-perm (suc i) 1 x i a (omega arith) (omega arith) (omega arith))
            (shift-sorted (suc i) x i i a (omega arith) (omega arith) start))
          λ b (same, sorted).
            let size' : length b ≡ length a = length-perm (rw (set-get_elem? a i x read) at same) in
            rw (← size') (pass-sorted left (i + 1) b (omega arith) (omega arith) sorted))

  passes_round :
      (fuel n h : ℕ) (a : List F)
      → 0 < h
      → passes (suc fuel) n h a ≡ (pass (n - h) h h a >>= passes fuel n (h / 3))
  unfolding passes
  passes_round fuel n h a pos = rw (lt→ltb 0 h pos)

  passes_stop : (fuel n : ℕ) (a : List F) → 0 < fuel → passes fuel n 0 a ≡ some a
  unfolding passes
  passes_stop zero n a f = absurd (omega arith)
  passes_stop (suc fuel) n a f = refl

  passes-sorted :
      (fuel n h : ℕ) (a : List F)
      → IsGap h
      → h < fuel
      → h ≤ n
      → length a ≡ n
      → Returns (λ b. IsSortedTo b n) (passes fuel n h a)
  passes-sorted zero n h a g f fits size = absurd (omega arith)
  passes-sorted (suc fuel) n h a (first e) f fits size =
      rw (passes_round fuel n h a (omega arith)) (
        rw e (
          Returns-bind
            (pass-sorted (n - 1) 1 a (omega arith) (omega arith)
              (λ j k jk k1. absurd (omega arith)))
            λ b s. rw (passes_stop fuel n b (omega arith)) (returns (rw size at s))))
  passes-sorted (suc fuel) n h a (next g s e) f fits size =
      let third : h / 3 ≡ g = omega arith in
      rw (passes_round fuel n h a (omega arith)) (
        rw third (
          Returns-bind (pass-perm (n - h) h h a (omega arith) (omega arith)) λ b same.
            passes-sorted fuel n g b s (omega arith) (omega arith) (length-perm same ∙ size)))

  -- Enough fuel is given for any array; the result is a rearrangement, and no access is outside.
  pub shellsort-perm : (a : List F) → Returns (λ b. Perm b a) (shellsort (length a) a)
  unfolding shellsort
  shellsort-perm a =
      let n = length a in
      Returns-bind (grow-Grown (n + 1) n 1 (omega arith) (first refl) (omega arith))
        λ h g. passes-perm (h / 9 + 1) n (h / 9) a (omega arith) (omega arith)

  -- From four entries on `shellsort` ends with no access outside the array, and its result is
  -- ascending and a rearrangement of the input.
  pub shellsort-sorts :
      (a : List F)
      → 4 ≤ length a
      → Returns (λ b. IsSortedTo b (length a) × Perm b a) (shellsort (length a) a)
  unfolding shellsort
  shellsort-sorts a big =
      let n = length a in
      Returns-bind (grow-Grown (n + 1) n 1 (omega arith) (first refl) (omega arith)) λ h g.
        Returns-both
          (passes-sorted (h / 9 + 1) n (h / 9) a (IsGap-div g.0 (omega arith)) (omega arith)
            (omega arith) refl)
          (passes-perm (h / 9 + 1) n (h / 9) a (omega arith) (omega arith))

  -- An array of fewer than four entries comes back unchanged, sorted or not.
  pub shellsort_short : (a : List F) → length a < 4 → shellsort (length a) a ≡ some a
  unfolding shellsort grow
  shellsort_short [] h = refl
  shellsort_short (x ∷ []) h = refl
  shellsort_short (x ∷ y ∷ []) h = refl
  shellsort_short (x ∷ y ∷ z ∷ []) h = refl
  shellsort_short (x ∷ y ∷ z ∷ w ∷ a) h = absurd (omega arith)
