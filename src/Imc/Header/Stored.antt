-- ===== src/Imc/Header/Stored.antt =====
-- Words in the bytes `void_2` of demo/spcam/sdfred20100528/mosaic/imc.
use pwrake.Prelude.{
  ℕ, zero, suc, ◌+◌, ◌-◌, ◌/◌, ◌%◌, ◌^◌, ◌≤◌, ◌<◌, ◌≡◌, ◌≢◌, refl, ◌∙◌, ◌⊎◌, inl, inr, List, [],
  ◌∷◌, ◌++◌, some, arith, length, get_elem?, Returns, returns, Returns-bind, Returns-map, some-inj,
  >>=-inv, write-Returns,
}
use pwrake.Imc.Header.{word, store, fetch}

pub word-bytes :
    (w : ℕ) → w < 2 ^ 32 → word (w % 256) (w / 256 % 256) (w / 65536 % 256) (w / 16777216 % 256) ≡ w
word-bytes w h = omega arith

-- A byte of an array; 0 outside.
unfoldable pub entry : List ℕ → ℕ → ℕ
entry [] p = 0
entry (x ∷ v) zero = x
entry (x ∷ v) (suc p) = entry v p

pub get_elem?-entry : (v : List ℕ) (p : ℕ) → p < length v → get_elem? v p ≡ some (entry v p)
unfolding entry
get_elem?-entry [] p h = absurd (omega arith)
get_elem?-entry (x ∷ v) zero h = refl
get_elem?-entry (x ∷ v) (suc p) h = get_elem?-entry v p (omega arith)

unfoldable pub entries : ℕ → ℕ → List ℕ → List ℕ
entries base zero v = []
entries base (suc n) v = entry v base ∷ entries (base - 1) n v

pub fetch-entries :
    (base n : ℕ) (v : List ℕ) → base < length v → fetch base n v ≡ some (entries base n v)
unfolding fetch entries
fetch-entries base zero v h = refl
fetch-entries base (suc n) v h =
    rw (get_elem?-entry v base h, fetch-entries (base - 1) n v (omega arith)) refl

pub fetch-append :
    (base m n k : ℕ) (v xs ys : List ℕ)
    → m + n ≡ k
    → fetch base m v ≡ some xs
    → fetch (base - m) n v ≡ some ys
    → fetch base k v ≡ some (xs ++ ys)
unfolding fetch
fetch-append base zero n k v xs ys total hx hy =
    let same : n ≡ k = omega arith in
    let here : base - 0 ≡ base = omega arith in
    let empty : [] ≡ xs = some-inj hx in rw (← empty, ← same) (rw here at hy)
fetch-append base (suc m) n zero v xs ys total hx hy = absurd (omega arith)
fetch-append base (suc m) n (suc k) v xs ys total hx hy =
    let (b, at, h') = >>=-inv (get_elem? v base) _ hx in
    let (bs, rest, end) = >>=-inv (fetch (base - 1) m v) _ h' in
    let place : base - suc m ≡ base - 1 - m = omega arith in
    let more = fetch-append (base - 1) m n k v bs ys (omega arith) rest (rw place at hy) in
    let whole : b ∷ bs ≡ xs = some-inj end in rw (at, more, ← whole) refl

-- Where `store` writes nothing.
abbrev pub IsBeside : ℕ → ℕ → ℕ → Type 0
IsBeside base n p = (base < p) ⊎ (p + n ≤ base)

pub fetch-cong :
    (base n : ℕ) (v w : List ℕ)
    → n ≤ suc base
    → ((p : ℕ) → p ≤ base → base < p + n → get_elem? v p ≡ get_elem? w p)
    → fetch base n v ≡ fetch base n w
unfolding fetch
fetch-cong base zero v w le same = refl
fetch-cong base (suc n) v w le same =
    let here = same base (omega arith) (omega arith) in
    let rest =
      fetch-cong (base - 1) n v w (omega arith) (λ p lp lb. same p (omega arith) (omega arith)) in
    rw (here, rest) refl

pub IsBeside-below : (base n : ℕ) → suc n ≤ suc base → IsBeside (base - 1) n base
IsBeside-below zero n h = inr (omega arith)
IsBeside-below (suc base) n h = inl (omega arith)

abbrev pub IsStored : ℕ → List ℕ → List ℕ → List ℕ → Type 0
IsStored base bs v w =
    (length w ≡ length v)
    × (fetch base (length bs) w ≡ some bs)
    × ((p : ℕ) → IsBeside base (length bs) p → get_elem? w p ≡ get_elem? v p)

pub store-IsStored :
    (base : ℕ) (bs v : List ℕ)
    → length bs ≤ suc base
    → base < length v
    → Returns (IsStored base bs v) (store base bs v)
unfolding store fetch
store-IsStored base [] v fits inside = returns (refl, refl, λ p out. refl)
store-IsStored base (b ∷ bs) v fits inside =
    Returns-bind (write-Returns v base b inside) (λ m (len, put, keep).
      Returns-map (store-IsStored (base - 1) bs m (omega arith) (omega arith))
        (λ w (len', read, out).
          let here : get_elem? w base ≡ some b =
            out base (IsBeside-below base (length bs) fits) ∙ put in
          (
            len' ∙ len,
            rw (here, read) refl,
            λ p beside. out p (narrow (length bs) p beside) ∙ keep p (apart (length bs) p beside),
          )))
  where
    narrow : (n p : ℕ) → IsBeside base (suc n) p → IsBeside (base - 1) n p
    narrow n p (inl lt) = inl (omega arith)
    narrow n p (inr le) = inr (omega arith)

    apart : (n p : ℕ) → IsBeside base (suc n) p → base ≢ p
    apart n p (inl lt) e = omega arith
    apart n p (inr le) e = omega arith
