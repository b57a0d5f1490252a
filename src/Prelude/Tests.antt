-- ===== src/Prelude/Tests.antt =====
-- Boolean tests on the native numbers, the conditional, and chains of fallible steps.
use Prim.Native.Nat.{ℕ, ◌≤◌, ◌<◌, compare, Ordering}
use mathlib.Core.Path.{◌≡◌, refl}
use mathlib.Core.Logic.{◌≢◌, ◌⊎◌, inl, inr}
use mathlib.Core.Bool.{Bool, true, false}
use mathlib.Core.Option.{Option, none, some}
use native.Mathlib.Omega.{arith}

abbrev pub ltb : ℕ → ℕ → Bool
ltb a b = elim (compare a b) [ Ordering.lt ↦ true | _ ↦ false ]

abbrev pub leb : ℕ → ℕ → Bool
leb a b = elim (compare a b) [ Ordering.gt ↦ false | _ ↦ true ]

infix 50 ◌==◌
abbrev pub ◌==◌ : ℕ → ℕ → Bool
a == b = elim (compare a b) [ Ordering.eq ↦ true | _ ↦ false ]

infix 1 if◌then◌else◌
abbrev pub if◌then◌else◌ {ℓ} : {A : Type ℓ} → Bool → A → A → A
if true then x else y = x
if false then x else y = y

-- `none` is a fault: an access outside an array, a null pointer followed, or fuel run out.
infixl 5 ◌>>=◌
abbrev pub ◌>>=◌ {ℓ κ} : {A : Type ℓ} {B : Type κ} → Option A → (A → Option B) → Option B
none >>= f = none
some a >>= f = f a

pub ltb→lt : (a b : ℕ) → ltb a b ≡ true → a < b
ltb→lt a b h = ground arith

pub lt→ltb : (a b : ℕ) → a < b → ltb a b ≡ true
lt→ltb a b h = ground arith

pub ltb→le : (a b : ℕ) → ltb a b ≡ false → b ≤ a
ltb→le a b h = ground arith

pub leb→le : (a b : ℕ) → leb a b ≡ true → a ≤ b
leb→le a b h = ground arith

pub le→leb : (a b : ℕ) → a ≤ b → leb a b ≡ true
le→leb a b h = ground arith

pub leb→lt : (a b : ℕ) → leb a b ≡ false → b < a
leb→lt a b h = ground arith

pub ==→≡ : (a b : ℕ) → (a == b) ≡ true → a ≡ b
==→≡ a b h = ground arith

pub ==→≢ : (a b : ℕ) → (a == b) ≡ false → a ≢ b
==→≢ a b h = ground arith

pub ruleset tests = (arith, ltb→lt, lt→ltb, ltb→le, leb→le, le→leb, leb→lt)

pub Bool-cases : (b : Bool) → (b ≡ true) ⊎ (b ≡ false)
Bool-cases true = inl refl
Bool-cases false = inr refl

pub Option-cases {ℓ} : {A : Type ℓ} (o : Option A) → (o ≡ none) ⊎ ((a : A) × (o ≡ some a))
Option-cases none = inl refl
Option-cases (some a) = inr (a, refl)

pub some-inj {ℓ} : {A : Type ℓ} {a b : A} → some a ≡ some b → a ≡ b
some-inj e = ground arith

pub >>=-inv {ℓ κ} :
    {A : Type ℓ} {B : Type κ} (m : Option A) (f : A → Option B) {b : B}
    → (m >>= f) ≡ some b
    → (a : A) × (m ≡ some a) × (f a ≡ some b)
>>=-inv none f h = ground arith
>>=-inv (some a) f h = (a, refl, h)

-- The run ends without a fault, with a value that satisfies `P`.
pub data Returns {ℓ κ} {A : Type ℓ} (P : A → Type κ) : Option A → Type (ℓ ⊔ κ) where
  returns : {a : A} → P a → Returns P (some a)

module _ {ℓ κ} {A : Type ℓ} {P : A → Type κ} where
  pub Returns-inv : {m : Option A} → Returns P m → (x : A) × (m ≡ some x) × P x
  Returns-inv (returns holds) = (_, refl, holds)

  pub Returns-some : {m : Option A} {a : A} → Returns P m → m ≡ some a → P a
  Returns-some (returns holds) h = rw (some-inj h) at holds

  pub Returns-both {κ'} :
      {Q : A → Type κ'} {m : Option A} → Returns P m → Returns Q m → Returns (λ x. P x × Q x) m
  Returns-both (returns holds) (returns also) = returns (holds, also)

  pub Returns-map {κ'} :
      {Q : A → Type κ'} {m : Option A} → Returns P m → ((x : A) → P x → Q x) → Returns Q m
  Returns-map (returns holds) weaken = returns (weaken _ holds)

  pub Returns-if :
      {m n : Option A} (b : Bool)
      → (b ≡ true → Returns P m)
      → (b ≡ false → Returns P n)
      → Returns P (if b then m else n)
  Returns-if false on_true on_false = on_false refl
  Returns-if true on_true on_false = on_true refl

  pub Returns-bind {ℓ' κ'} :
      {B : Type ℓ'} {Q : B → Type κ'} {m : Option A} {next : A → Option B}
      → Returns P m
      → ((x : A) → P x → Returns Q (next x))
      → Returns Q (m >>= next)
  Returns-bind (returns holds) step = step _ holds

-- The run ends without a fault, with a value that satisfies `P`, or it faults and `L` is the reason.
pub data ReturnsUnless {ℓ κ} (L : Type κ) {A : Type ℓ} (P : A → Type κ)
    : Option A → Type (ℓ ⊔ κ) where
  lost : L → ReturnsUnless L P none
  found : {a : A} → P a → ReturnsUnless L P (some a)

module _ {ℓ κ} {L : Type κ} {A : Type ℓ} {P : A → Type κ} where
  pub ReturnsUnless-some : {m : Option A} {a : A} → ReturnsUnless L P m → m ≡ some a → P a
  ReturnsUnless-some (lost l) h = ground arith
  ReturnsUnless-some (found p) h = rw (some-inj h) at p

  pub ReturnsUnless-of : {m : Option A} → Returns P m → ReturnsUnless L P m
  ReturnsUnless-of (returns p) = found p

  pub ReturnsUnless-map :
      {Q : A → Type κ} {m : Option A}
      → ReturnsUnless L P m
      → ((x : A) → P x → Q x)
      → ReturnsUnless L Q m
  ReturnsUnless-map (lost l) weaken = lost l
  ReturnsUnless-map (found p) weaken = found (weaken _ p)

  pub ReturnsUnless-if :
      {m n : Option A} (b : Bool)
      → (b ≡ true → ReturnsUnless L P m)
      → (b ≡ false → ReturnsUnless L P n)
      → ReturnsUnless L P (if b then m else n)
  ReturnsUnless-if false on_true on_false = on_false refl
  ReturnsUnless-if true on_true on_false = on_true refl

  pub ReturnsUnless-reason :
      {L' : Type κ} {m : Option A} → (L → L') → ReturnsUnless L P m → ReturnsUnless L' P m
  ReturnsUnless-reason f (lost l) = lost (f l)
  ReturnsUnless-reason f (found p) = found p

-- Both runs have a reason of their own.
pub ReturnsUnless-bind {ℓ κ ℓ'} :
    {L L0 : Type κ} {A : Type ℓ} {P : A → Type κ} {L1 : A → Type κ} {B : Type ℓ'} {Q : B → Type κ}
    {m : Option A} {next : A → Option B}
    → ReturnsUnless L0 P m
    → (L0 → L)
    → ((x : A) → m ≡ some x → L1 x → L)
    → ((x : A) → P x → ReturnsUnless (L1 x) Q (next x))
    → ReturnsUnless L Q (m >>= next)
ReturnsUnless-bind (lost l) first second step = lost (first l)
ReturnsUnless-bind (found p) first second step = ReturnsUnless-reason (second _ refl) (step _ p)

-- If the run ends without a fault, its value satisfies `P`.
pub record Ensures {ℓ κ} {A : Type ℓ} (P : A → Type κ) (r : Option A) : Type (ℓ ⊔ κ) where
  pub post : (a : A) → r ≡ some a → P a

pub Ensures-bind {ℓ κ ℓ'} :
    {A : Type ℓ} {B : Type ℓ'} {Q : B → Type κ} (r : Option A) {f : A → Option B}
    → ((a : A) → r ≡ some a → Ensures Q (f a))
    → Ensures Q (r >>= f)
Ensures-bind none k = record { post = λ b h. ground arith }
Ensures-bind (some a) k = k a refl
