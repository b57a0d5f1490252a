-- ===== src/Sort/Heap/Zipped.antt =====
-- Two arrays of one length as one array of pairs.
use mathlib.Core.List.{zip}
use pwrake.Prelude.{
  ℕ, zero, suc, ◌≡◌, refl, ap, inl, inr, Bool, true, false, Bool-cases, List, [], ◌∷◌, Option, none,
  some, arith, length, length-set, get_elem?, set, write, ltb, if◌then◌else◌, ◌>>=◌,
}

module _ {A B : Type 0} where
  -- Two arrays of one length and the array of their pairs, or a fault on both sides.
  pub data Agrees : Option (List A × List B) → Option (List (A × B)) → Type 0 where
    faults : Agrees none none
    agrees : {a : List A} {b : List B} → length a ≡ length b → Agrees (some (a, b)) (some (zip a b))

  pub Agrees-bind :
      {r : Option (List A × List B)} {s : Option (List (A × B))}
      (f : List A × List B → Option (List A × List B)) (g : List (A × B) → Option (List (A × B)))
      → Agrees r s
      → ((a : List A) (b : List B) → length a ≡ length b → Agrees (f (a, b)) (g (zip a b)))
      → Agrees (r >>= f) (s >>= g)
  Agrees-bind f g faults step = faults
  Agrees-bind f g (agrees same) step = step _ _ same

  pub Agrees-if :
      {r r' : Option (List A × List B)} {s s' : Option (List (A × B))} (c : Bool)
      → Agrees r s
      → Agrees r' s'
      → Agrees (if c then r else r') (if c then s else s')
  Agrees-if true first other = first
  Agrees-if false first other = other

  -- An entry of both arrays, or of none.
  pub data Entry : Option A → Option B → Option (A × B) → Type 0 where
    outside : Entry none none none
    inside : (x : A) (v : B) → Entry (some x) (some v) (some (x, v))

  pub get_elem?-zip :
      (a : List A) (b : List B) (i : ℕ)
      → length a ≡ length b
      → Entry (get_elem? a i) (get_elem? b i) (get_elem? (zip a b) i)
  unfolding zip
  get_elem?-zip [] [] i same = outside
  get_elem?-zip [] (v ∷ b) i same = absurd (omega (arith, same))
  get_elem?-zip (x ∷ a) [] i same = absurd (omega (arith, same))
  get_elem?-zip (x ∷ a) (v ∷ b) zero same = inside x v
  get_elem?-zip (x ∷ a) (v ∷ b) (suc i) same = get_elem?-zip a b i (omega (arith, same))

  pub length-zip : (a : List A) (b : List B) → length a ≡ length b → length (zip a b) ≡ length a
  unfolding zip
  length-zip [] b same = refl
  length-zip (x ∷ a) [] same = absurd (omega (arith, same))
  length-zip (x ∷ a) (v ∷ b) same = ap suc (length-zip a b (omega (arith, same)))

  set-zip :
      (a : List A) (b : List B) (i : ℕ) (x : A) (v : B)
      → length a ≡ length b
      → set (zip a b) i (x, v) ≡ zip (set a i x) (set b i v)
  unfolding zip
  set-zip [] [] i x v same = refl
  set-zip [] (w ∷ b) i x v same = absurd (omega (arith, same))
  set-zip (y ∷ a) [] i x v same = absurd (omega (arith, same))
  set-zip (y ∷ a) (w ∷ b) zero x v same = refl
  set-zip (y ∷ a) (w ∷ b) (suc i) x v same =
      ap (◌∷◌ (y, w)) (set-zip a b i x v (omega (arith, same)))

  pub write-zip :
      (a : List A) (b : List B) (i : ℕ) (x : A) (v : B)
      → length a ≡ length b
      → Agrees (do a' ← write a i x; b' ← write b i v; some (a', b')) (write (zip a b) i (x, v))
  write-zip a b i x v same =
      let size = length-zip a b same in
      let kept : length (set a i x) ≡ length (set b i v) =
        omega (arith, same, length-set a i x, length-set b i v) in
      rw (size, ← same)
        (elim (Bool-cases (ltb i (length a))) [
          | inl e ↦ rw (e, ◌>>=◌) (rw (set-zip a b i x v same) (agrees kept))
          | inr e ↦ rw (e, ◌>>=◌) faults
        ])
