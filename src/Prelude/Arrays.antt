-- ===== src/Prelude/Arrays.antt =====
-- Arrays as lists with native indices; an access outside is a fault.
use Prim.Native.Nat.{ℕ, zero, suc, ◌+◌, ◌-◌, ◌*◌, ◌≤◌, ◌<◌}
use mathlib.Core.Logic.{◌≢◌, ◌⊎◌, inl, inr}
use mathlib.Core.Path.{◌≡◌, refl, sym, ap, ◌∙◌}
use mathlib.Core.List.{List, [], ◌∷◌, ◌++◌, map}
use mathlib.Core.Option.{Option, none, some}
use native.Mathlib.Omega.{arith}
use pwrake.Prelude.Tests.{ltb, ◌==◌, if◌then◌else◌, Returns, returns}

module _ {ℓ} {A : Type ℓ} where
  abbrev pub length : List A → ℕ
  length [] = 0
  length (x ∷ xs) = suc (length xs)

  -- A read of `a[i]`.
  abbrev pub get_elem? : List A → ℕ → Option A
  get_elem? [] i = none
  get_elem? (x ∷ xs) zero = some x
  get_elem? (x ∷ xs) (suc i) = get_elem? xs i

  abbrev pub set : List A → ℕ → A → List A
  set [] i v = []
  set (x ∷ xs) zero v = v ∷ xs
  set (x ∷ xs) (suc i) v = x ∷ set xs i v

  -- A write to `a[i]`.
  abbrev pub write : List A → ℕ → A → Option (List A)
  write a i v = if ltb i (length a) then some (set a i v) else none

  abbrev pub replicate : ℕ → A → List A
  replicate zero v = []
  replicate (suc n) v = v ∷ replicate n v

  abbrev pub take : ℕ → List A → List A
  take zero xs = []
  take (suc n) [] = []
  take (suc n) (x ∷ xs) = x ∷ take n xs

  abbrev pub drop : ℕ → List A → List A
  drop zero xs = xs
  drop (suc n) [] = []
  drop (suc n) (x ∷ xs) = drop n xs

  pub take-append-drop : (n : ℕ) (xs : List A) → take n xs ++ drop n xs ≡ xs
  take-append-drop zero xs = refl
  take-append-drop (suc n) [] = refl
  take-append-drop (suc n) (x ∷ xs) = ap (◌∷◌ x) (take-append-drop n xs)

  pub length-append : (xs ys : List A) → length (xs ++ ys) ≡ length xs + length ys
  length-append [] ys = omega arith
  length-append (x ∷ xs) ys = omega (arith, length-append xs ys)

  pub take-length : (xs : List A) (n : ℕ) → n ≡ length xs → take n xs ≡ xs
  take-length [] zero e = refl
  take-length [] (suc n) e = refl
  take-length (x ∷ xs) zero e = absurd (omega arith)
  take-length (x ∷ xs) (suc n) e = ap (◌∷◌ x) (take-length xs n (omega arith))

  pub drop-length : (xs : List A) (n : ℕ) → n ≡ length xs → drop n xs ≡ []
  drop-length [] zero e = refl
  drop-length [] (suc n) e = refl
  drop-length (x ∷ xs) zero e = absurd (omega arith)
  drop-length (x ∷ xs) (suc n) e = drop-length xs n (omega arith)

  pub append-nil : (xs : List A) → xs ++ [] ≡ xs
  append-nil [] = refl
  append-nil (x ∷ xs) = ap (◌∷◌ x) (append-nil xs)

  pub length-drop : (n : ℕ) (xs : List A) → length (drop n xs) ≡ length xs - n
  length-drop zero xs = omega arith
  length-drop (suc n) [] = omega arith
  length-drop (suc n) (x ∷ xs) = omega (arith, length-drop n xs)

  pub get_elem?-take :
      (n : ℕ) (xs : List A) (j : ℕ) {x : A}
      → get_elem? (take n xs) j ≡ some x
      → (get_elem? xs j ≡ some x) × (j < n)
  get_elem?-take zero xs j h = ground arith
  get_elem?-take (suc n) [] j h = ground arith
  get_elem?-take (suc n) (y ∷ xs) zero h = (h, omega arith)
  get_elem?-take (suc n) (y ∷ xs) (suc j) h =
      let (at, lt) = get_elem?-take n xs j h in (at, omega arith)

  pub get_elem?-drop :
      (n : ℕ) (xs : List A) (j : ℕ) {x : A}
      → get_elem? (drop n xs) j ≡ some x
      → get_elem? xs (n + j) ≡ some x
  get_elem?-drop zero xs j h = let e : 0 + j ≡ j = omega arith in rw e h
  get_elem?-drop (suc n) [] j h = ground arith
  get_elem?-drop (suc n) (y ∷ xs) j h =
      let e : suc n + j ≡ suc (n + j) = omega arith in rw e (get_elem?-drop n xs j h)

  pub length-take : (n : ℕ) (xs : List A) → n ≤ length xs → length (take n xs) ≡ n
  length-take zero xs h = refl
  length-take (suc n) [] h = absurd (omega arith)
  length-take (suc n) (y ∷ xs) h = ap suc (length-take n xs (omega arith))

  pub drop-drop : (m n : ℕ) (xs : List A) → drop n (drop m xs) ≡ drop (m + n) xs
  drop-drop zero n xs = let e : 0 + n ≡ n = omega arith in rw e refl
  drop-drop (suc m) zero [] = let e : suc m + 0 ≡ suc m = omega arith in rw e refl
  drop-drop (suc m) (suc n) [] = let e : suc m + suc n ≡ suc (m + suc n) = omega arith in rw e refl
  drop-drop (suc m) n (x ∷ xs) =
      let e : suc m + n ≡ suc (m + n) = omega arith in rw e (drop-drop m n xs)

  -- An array in three parts.
  pub three_parts :
      (m n k : ℕ) (xs : List A) → m + n ≡ k → take m xs ++ (take n (drop m xs) ++ drop k xs) ≡ xs
  three_parts m n k xs e =
      let rest : take n (drop m xs) ++ drop k xs ≡ drop m xs =
        ap (λ j. take n (drop m xs) ++ drop j xs) (sym e)
        ∙ ap (λ t. take n (drop m xs) ++ t) (sym (drop-drop m n xs))
        ∙ take-append-drop n (drop m xs) in
      rw rest (take-append-drop m xs)

  pub get_elem?-append_left :
      (xs ys : List A) (p : ℕ) → p < length xs → get_elem? (xs ++ ys) p ≡ get_elem? xs p
  get_elem?-append_left [] ys p h = absurd (omega arith)
  get_elem?-append_left (x ∷ xs) ys zero h = refl
  get_elem?-append_left (x ∷ xs) ys (suc p) h = get_elem?-append_left xs ys p (omega arith)

  pub get_elem?-append_right :
      (xs ys : List A) (p q : ℕ) → p ≡ length xs + q → get_elem? (xs ++ ys) p ≡ get_elem? ys q
  get_elem?-append_right [] ys p q h = let e : p ≡ q = omega arith in ap (get_elem? ys) e
  get_elem?-append_right (x ∷ xs) ys zero q h = absurd (omega arith)
  get_elem?-append_right (x ∷ xs) ys (suc p) q h = get_elem?-append_right xs ys p q (omega arith)

  -- Where an entry of a concatenation is.
  pub get_elem?-append_cases :
      (xs ys : List A) (p : ℕ) {x : A}
      → get_elem? (xs ++ ys) p ≡ some x
      → (get_elem? xs p ≡ some x) ⊎ ((q : ℕ) × (p ≡ length xs + q) × (get_elem? ys q ≡ some x))
  get_elem?-append_cases [] ys p h = inr (p, omega arith, h)
  get_elem?-append_cases (z ∷ xs) ys zero h = inl h
  get_elem?-append_cases (z ∷ xs) ys (suc p) h = elim (get_elem?-append_cases xs ys p h) [
    | inl there ↦ inl there
    | inr (q, e, there) ↦ inr (q, omega (arith, e), there)
  ]

  pub length-replicate : (n : ℕ) (v : A) → length (replicate n v) ≡ n
  length-replicate zero v = refl
  length-replicate (suc n) v = ap suc (length-replicate n v)

  pub get_elem?-replicate : (n : ℕ) (v : A) (i : ℕ) → i < n → get_elem? (replicate n v) i ≡ some v
  get_elem?-replicate zero v i h = absurd (omega arith)
  get_elem?-replicate (suc n) v zero h = refl
  get_elem?-replicate (suc n) v (suc i) h = get_elem?-replicate n v i (omega arith)

  pub length-set : (xs : List A) (i : ℕ) (v : A) → length (set xs i v) ≡ length xs
  length-set [] i v = refl
  length-set (x ∷ xs) zero v = refl
  length-set (x ∷ xs) (suc i) v = ap suc (length-set xs i v)

  pub write-ok : (a : List A) (i : ℕ) (v : A) → i < length a → write a i v ≡ some (set a i v)
  write-ok a i v h = ground arith

  pub get_elem?-ok : (a : List A) (i : ℕ) → i < length a → (v : A) × (get_elem? a i ≡ some v)
  get_elem?-ok [] i h = absurd (omega arith)
  get_elem?-ok (x ∷ a) zero h = (x, refl)
  get_elem?-ok (x ∷ a) (suc i) h = get_elem?-ok a i (omega arith)

  pub get_elem?-lt : (a : List A) (i : ℕ) {v : A} → get_elem? a i ≡ some v → i < length a
  get_elem?-lt [] i h = ground arith
  get_elem?-lt (x ∷ a) zero h = omega arith
  get_elem?-lt (x ∷ a) (suc i) h = omega (arith, get_elem?-lt a i h)

  pub get_elem?-set :
      (a : List A) (i j : ℕ) (v : A)
      → i < length a
      → get_elem? (set a i v) j ≡ (if i == j then some v else get_elem? a j)
  get_elem?-set [] i j v h = absurd (omega arith)
  get_elem?-set (x ∷ a) zero zero v h = refl
  get_elem?-set (x ∷ a) zero (suc j) v h = ground arith
  get_elem?-set (x ∷ a) (suc i) zero v h = ground arith
  get_elem?-set (x ∷ a) (suc i) (suc j) v h = ground (arith, get_elem?-set a i j v)

pub get_elem?-snoc :
    {A : Type 0} (xs : List A) (x : A) (k : ℕ) {y : A}
    → get_elem? (xs ++ x ∷ []) k ≡ some y
    → ((get_elem? xs k ≡ some y) × (k < length xs)) ⊎ ((k ≡ length xs) × (x ≡ y))
get_elem?-snoc [] x zero h = ground arith
get_elem?-snoc [] x (suc k) h = ground arith
get_elem?-snoc (z ∷ xs) x zero h = ground arith
get_elem?-snoc (z ∷ xs) x (suc k) h = ground (arith, get_elem?-snoc xs x k h)

pub length-map : {A B : Type 0} (f : A → B) (xs : List A) → length (map f xs) ≡ length xs
length-map f [] = refl
length-map f (x ∷ xs) = ap suc (length-map f xs)

pub map-append :
    {A B : Type 0} (f : A → B) (xs ys : List A) → map f (xs ++ ys) ≡ map f xs ++ map f ys
map-append f [] ys = refl
map-append f (x ∷ xs) ys = ap (◌∷◌ (f x)) (map-append f xs ys)

-- A column and a row inside an image give an index inside it.
pub grid_bound : (w h dx dy : ℕ) → dx < w → dy < h → dx + w * dy < w * h
grid_bound w zero dx dy hx hy = absurd (omega arith)
grid_bound w (suc h) dx zero hx hy = omega arith
grid_bound w (suc h) dx (suc dy) hx hy = omega (arith, grid_bound w h dx dy hx (omega arith))

pub append_assoc : {A : Type 0} (a b c : List A) → (a ++ b) ++ c ≡ a ++ (b ++ c)
append_assoc [] b c = refl
append_assoc (x ∷ a) b c = ap (◌∷◌ x) (append_assoc a b c)

pub replicate-append :
    {A : Type 0} (m n : ℕ) (c : A) → replicate m c ++ replicate n c ≡ replicate (m + n) c
replicate-append zero n c = let e : 0 + n ≡ n = omega arith in rw e refl
replicate-append (suc m) n c =
    let e : suc m + n ≡ suc (m + n) = omega arith in rw e (ap (◌∷◌ c) (replicate-append m n c))

-- A read inside an array.
pub get_elem?-Returns :
    {A : Type 0} (a : List A) (i : ℕ)
    → i < length a
    → Returns (λ x. get_elem? a i ≡ some x) (get_elem? a i)
get_elem?-Returns a i h = let (x, e) = get_elem?-ok a i h in rw e (returns refl)

-- A write inside an array.
pub write-Returns :
    {A : Type 0} (a : List A) (i : ℕ) (v : A)
    → i < length a
    → Returns
        (λ b.
          (length b ≡ length a)
          × (get_elem? b i ≡ some v)
          × ((p : ℕ) → i ≢ p → get_elem? b p ≡ get_elem? a p))
        (write a i v)
write-Returns a i v h = rw (write-ok a i v h) (
    returns (
      length-set a i v,
      ground (arith, get_elem?-set a i i v h),
      λ p ne. ground (arith, get_elem?-set a i p v h, ne),
    ))

pub mul_mono : (a b n : ℕ) → a ≤ b → a * n ≤ b * n
mul_mono zero b n h = omega arith
mul_mono (suc a) zero n h = absurd (omega arith)
mul_mono (suc a) (suc b) n h = omega (arith, mul_mono a b n (omega arith))
