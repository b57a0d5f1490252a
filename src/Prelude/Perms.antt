-- ===== src/Prelude/Perms.antt =====
-- Rearrangements of an array by writes: what a sort with a hole does to the contents.
use mathlib.Core.Logic.{∥∥₁_elim}
use native.Mathlib.Nat.{ℕ_set}
use mathlib.Core.List.{Permᴰ}
use mathlib.Core.List.Perm
use Prim.Native.Nat.{ℕ, zero, suc, ◌<◌}
use mathlib.Core.Path.{◌≡◌, refl, sym, ap, ◌∙◌}
use mathlib.Core.Logic.{◌≢◌}
use mathlib.Core.List.{List, [], ◌∷◌, Perm}
use mathlib.Core.Option.{some}
use native.Mathlib.Omega.{arith}
use pwrake.Prelude.Arrays.{length, get_elem?, set, get_elem?-set, get_elem?-ok}

module _ {ℓ} {A : Type ℓ} where
  length-Permᴰ : {xs ys : List A} → Permᴰ xs ys → length xs ≡ length ys
  length-Permᴰ (Permᴰ.trans before after) = length-Permᴰ before ∙ length-Permᴰ after
  length-Permᴰ (Permᴰ.swap x y) = refl
  length-Permᴰ (Permᴰ.cons x rest) = ap suc (length-Permᴰ rest)
  length-Permᴰ Permᴰ.nil = refl

  pub length-perm : {xs ys : List A} → Perm xs ys → length xs ≡ length ys
  length-perm same = ∥∥₁_elim same (ℕ_set _ _) length-Permᴰ

  -- A write trades the old entry for the new one.
  pub set-perm :
      (a : List A) (i : ℕ) (u v : A) → get_elem? a i ≡ some u → Perm (u ∷ set a i v) (v ∷ a)
  set-perm [] i u v h = ground arith
  set-perm (x ∷ a) zero u v h = let e : x ≡ u = ground arith in rw (← e) (Perm.swap v x a)
  set-perm (x ∷ a) (suc i) u v h =
      Perm.trans (Perm.swap x u _) (Perm.trans (Perm.cons x (set-perm a i u v h)) (Perm.swap v x a))

  -- Writing back what is there changes nothing.
  pub set-get_elem? : (a : List A) (i : ℕ) (v : A) → get_elem? a i ≡ some v → set a i v ≡ a
  set-get_elem? [] i v h = refl
  set-get_elem? (x ∷ a) zero v h = ground arith
  set-get_elem? (x ∷ a) (suc i) v h = ap (◌∷◌ x) (set-get_elem? a i v h)

  -- The hole at `p` takes the entry at `q`, and the hole moves to `q`.
  pub hole-perm :
      (a : List A) (p q : ℕ) (x y : A)
      → p < length a
      → get_elem? a q ≡ some y
      → p ≢ q
      → Perm (set (set a p y) q x) (set a p x)
  hole-perm a p q x y hp hq ne =
      let (w, hw) = get_elem?-ok a p hp in
      let c = set a p y in
      let kept : get_elem? c q ≡ some y = ground (arith, get_elem?-set a p q y) in
      let moved = set-perm c q y x kept in
      let left = Perm.trans (Perm.swap w y _) (Perm.cons w moved) in
      let mid =
        Perm.trans left (Perm.trans (Perm.swap x w _) (Perm.cons x (set-perm a p w y hw))) in
      let right = Perm.cons y (Perm.symm (set-perm a p w x hw)) in
      Perm.cons_inv (Perm.cons_inv (Perm.trans mid (Perm.trans (Perm.swap y x _) right)))

module _ {E : Type 0} (f g : E → ℕ) where
  -- What holds of each entry of a list holds of each entry of its rearrangements.
  each_of_Permᴰ :
      {xs ys : List E}
      → Permᴰ xs ys
      → ((p : ℕ) (e : E) → get_elem? ys p ≡ some e → f e ≡ g e)
      → (p : ℕ) (e : E) → get_elem? xs p ≡ some e
      → f e ≡ g e
  each_of_Permᴰ Permᴰ.nil all p e h = ground arith
  each_of_Permᴰ (Permᴰ.cons {a} {b} same rest) all zero e h = all zero e (ap some (sym same) ∙ h)
  each_of_Permᴰ (Permᴰ.cons {a} {b} same rest) all (suc p) e h =
      each_of_Permᴰ rest (λ q. all (suc q)) p e h
  each_of_Permᴰ (Permᴰ.swap same same') all zero e h = all 1 e (ap some (sym same) ∙ h)
  each_of_Permᴰ (Permᴰ.swap same same') all (suc zero) e h = all 0 e (ap some (sym same') ∙ h)
  each_of_Permᴰ (Permᴰ.swap same same') all (suc (suc p)) e h = all (suc (suc p)) e h
  each_of_Permᴰ (Permᴰ.trans before after) all p e h =
      each_of_Permᴰ before (each_of_Permᴰ after all) p e h

  pub each_of_perm :
      {xs ys : List E}
      → Perm xs ys
      → ((p : ℕ) (e : E) → get_elem? ys p ≡ some e → f e ≡ g e)
      → (p : ℕ) (e : E) → get_elem? xs p ≡ some e
      → f e ≡ g e
  each_of_perm same all p e h = ∥∥₁_elim same (ℕ_set _ _) (λ d. each_of_Permᴰ d all p e h)
