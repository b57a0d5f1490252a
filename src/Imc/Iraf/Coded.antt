-- ===== src/Imc/Iraf/Coded.antt =====
-- `imdecs` undoes `imencs`, and `imencs` in place loses the string.
use pwrake.Prelude.{
  ℕ, zero, suc, ◌+◌, ◌*◌, ◌≤◌, ◌<◌, ◌≡◌, ◌≢◌, refl, sym, ap, ◌∙◌, ◌⊎◌, false, inl, inr, Bool-cases,
  ==→≡, List, some, arith, length, get_elem?, get_elem?-lt, get_elem?-Returns, write-Returns, ◌==◌,
  Returns, returns, Returns-bind, Returns-map, ◌>>=◌,
}
use pwrake.Imc.Iraf.{end_of, spread, imencs, gather, imdecs}

-- The string of `n` characters at `s`, and the NUL behind it.
abbrev pub IsString : List ℕ → ℕ → ℕ → Type 0
IsString mem s n =
    ((k : ℕ) → k < n → (c : ℕ) × (get_elem? mem (s + k) ≡ some c) × (c ≢ 0))
    × (get_elem? mem (s + n) ≡ some 0)

end_of-string :
    (mem : List ℕ) (s n left i : ℕ)
    → IsString mem s n
    → i ≤ n
    → n < i + left
    → end_of left i s mem ≡ some n
unfolding end_of
end_of-string mem s n zero i str le lt = absurd (omega arith)
end_of-string mem s n (suc left) i str le lt = elim (Bool-cases (i == n)) [
  | inl e ↦
      let same : i ≡ n = ==→≡ i n e in
      let nul : get_elem? mem (s + i) ≡ some 0 = rw same str.1 in rw nul (ap some same)
  | inr e ↦
      let before : i < n = ground (arith, e, le) in
      let (c, at, nonzero) = str.0 i before in
      let not_nul : (c == 0) ≡ false = ground (arith, nonzero) in
      rw (at, not_nul) (end_of-string mem s n left (suc i) str before (omega arith))
]

-- Regions that do not meet.
abbrev pub AreApart : ℕ → ℕ → ℕ → ℕ → Type 0
AreApart s m t n = (s + m ≤ t) ⊎ (t + n ≤ s)

outside : (s m t n k j : ℕ) → AreApart s m t n → k < m → j < n → t + j ≢ s + k
outside s m t n k j (inl le) lk lj e = omega arith
outside s m t n k j (inr le) lk lj e = omega arith

-- What `spread` leaves: the characters at the odd places of `ims`, NULs at the even ones.
abbrev IsSpread : ℕ → ℕ → ℕ → List ℕ → List ℕ → Type 0
IsSpread ims s n mem after =
    (length after ≡ length mem)
    × ((k : ℕ)
        → k < n
        → (get_elem? after (ims + 2 * k) ≡ some 0)
          × (get_elem? after (ims + 2 * k + 1) ≡ get_elem? mem (s + k)))
    × ((p : ℕ) → (p < ims) ⊎ (ims + 2 * n ≤ p) → get_elem? after p ≡ get_elem? mem p)

spread-IsSpread :
    (ims s n : ℕ) (mem : List ℕ)
    → ims + 2 * n ≤ length mem
    → s + n ≤ length mem
    → AreApart s n ims (2 * n)
    → Returns (IsSpread ims s n mem) (spread ims s n mem)
unfolding spread
spread-IsSpread ims s zero mem hi hs apart =
    returns (refl, λ k lt. absurd (omega arith), λ p out. refl)
spread-IsSpread ims s (suc j) mem hi hs apart =
    Returns-bind (write-Returns mem (ims + 2 * j) 0 (omega arith)) (λ m1 (len1, at1, keep1).
      Returns-bind (get_elem?-Returns m1 (s + j) (omega arith)) (λ c hc.
        Returns-bind (write-Returns m1 (ims + 2 * j + 1) c (omega arith)) (λ m2 (len2, at2, keep2).
          Returns-map (spread-IsSpread ims s j m2 (omega arith) (omega arith) (shrink apart))
            (λ m3 (len3, in3, out3). (
              len3 ∙ len2 ∙ len1,
              λ k lt. elim (Bool-cases (k == j)) [
                | inl e ↦
                    let same : k ≡ j = ==→≡ k j e in
                    rw same (
                      out3 (ims + 2 * j) (inr (omega arith))
                          ∙ keep2 (ims + 2 * j) (λ e. omega arith)
                          ∙ at1,
                      out3 (ims + 2 * j + 1) (inr (omega arith))
                          ∙ at2
                          ∙ sym hc
                          ∙ keep1 (s + j) (
                              outside s (suc j) ims (2 * suc j) j (2 * j) apart (omega arith)
                                (omega arith)),
                    )
                | inr e ↦
                    let before : k < j = ground (arith, e, lt) in
                    let far = outside s (suc j) ims (2 * suc j) k in
                    (
                      (in3 k before).0,
                      (in3 k before).1
                          ∙ keep2 (s + k) (λ e.
                            far (2 * j + 1) apart (omega arith) (omega arith) (omega (arith, e)))
                          ∙ keep1 (s + k) (far (2 * j) apart (omega arith) (omega arith)),
                    )
              ],
              λ p out.
                  out3 p (weaken p out) ∙ keep2 p (not_second p out) ∙ keep1 p (not_first p out),
            )))))
  where
    shrink : AreApart s (suc j) ims (2 * suc j) → AreApart s j ims (2 * j)
    shrink (inl le) = inl (omega arith)
    shrink (inr le) = inr (omega arith)

    weaken : (p : ℕ) → (p < ims) ⊎ (ims + 2 * suc j ≤ p) → (p < ims) ⊎ (ims + 2 * j ≤ p)
    weaken p (inl lt) = inl lt
    weaken p (inr le) = inr (omega arith)

    not_second : (p : ℕ) → (p < ims) ⊎ (ims + 2 * suc j ≤ p) → ims + 2 * j + 1 ≢ p
    not_second p (inl lt) e = omega arith
    not_second p (inr le) e = omega arith

    not_first : (p : ℕ) → (p < ims) ⊎ (ims + 2 * suc j ≤ p) → ims + 2 * j ≢ p
    not_first p (inl lt) e = omega arith
    not_first p (inr le) e = omega arith

-- What `gather` leaves of `n` characters at the odd places of `ims`.
IsGathered : ℕ → ℕ → ℕ → List ℕ → List ℕ → Type 0
IsGathered ims t n mem after =
    (length after ≡ length mem)
    × ((k : ℕ) → k < n → get_elem? after (t + k) ≡ get_elem? mem (ims + 2 * k + 1))
    × (get_elem? after (t + n) ≡ some 0)
    × ((p : ℕ) → (p < t) ⊎ (t + n < p) → get_elem? after p ≡ get_elem? mem p)

gather-IsGathered :
    (left ims t n : ℕ) (mem : List ℕ)
    → n < left
    → t + n < length mem
    → AreApart t (suc n) ims (2 * suc n)
    → ((k : ℕ) → k < n → (c : ℕ) × (get_elem? mem (ims + 2 * k + 1) ≡ some c) × (c ≢ 0))
    → get_elem? mem (ims + 2 * n + 1) ≡ some 0
    → Returns (IsGathered ims t n mem) (gather left ims t mem)
unfolding gather IsGathered
gather-IsGathered zero ims t n mem enough inside apart chars end = absurd (omega arith)
gather-IsGathered (suc left) ims t zero mem enough inside apart chars end =
    let at : suc ims ≡ ims + 2 * 0 + 1 = omega arith in
    let here : get_elem? mem (suc ims) ≡ some 0 = ap (get_elem? mem) at ∙ end in
    let base : t + 0 ≡ t = omega arith in
    rw here (
      Returns-map (write-Returns mem t 0 (omega arith)) (λ b (len, put, keep). (
        len,
        λ k lt. absurd (omega arith),
        ap (get_elem? b) base ∙ put,
        λ p out. keep p (apart_from p out),
      )))
  where
    apart_from : (p : ℕ) → (p < t) ⊎ (t + 0 < p) → t ≢ p
    apart_from p (inl lt) e = omega arith
    apart_from p (inr lt) e = omega arith
gather-IsGathered (suc left) ims t (suc n) mem enough inside apart chars end =
    let (c, at, nonzero) = chars 0 (omega arith) in
    let place : suc ims ≡ ims + 2 * 0 + 1 = omega arith in
    let here : get_elem? mem (suc ims) ≡ some c = ap (get_elem? mem) place ∙ at in
    let not_nul : (c == 0) ≡ false = ground (arith, nonzero) in
    let next : (k : ℕ) → ims + 2 + 2 * k + 1 ≡ ims + 2 * suc k + 1 = λ k. omega arith in
    rw (here, not_nul)
      (Returns-bind (write-Returns mem t c (omega arith)) (λ m1 (len1, put, keep).
        let kept : (k : ℕ)
            → k < suc n
            → get_elem? m1 (ims + 2 + 2 * k + 1) ≡ get_elem? mem (ims + 2 * suc k + 1) =
          λ k lt. ap (get_elem? m1) (next k) ∙ keep (ims + 2 * suc k + 1) (not_here k lt) in
        Returns-map
          (gather-IsGathered left (ims + 2) (suc t) n m1 (omega arith) (omega arith) (shrink apart)
            (λ k lt.
              let (d, at_d, nonzero_d) = chars (suc k) (omega arith) in
              (d, kept k (omega arith) ∙ at_d, nonzero_d))
            (kept n (omega arith) ∙ end))
          (λ m2 (len2, in2, end2, out2). (
            len2 ∙ len1,
            λ k lt. entry m1 m2 c at put kept in2 (out2 t (inl (omega arith))) k lt,
            ap (get_elem? m2) last ∙ end2,
            λ p out. out2 p (weaken p out) ∙ keep p (apart_from p out),
          ))))
  where
    last : t + suc n ≡ suc t + n
    last = omega arith

    apart_from : (p : ℕ) → (p < t) ⊎ (t + suc n < p) → t ≢ p
    apart_from p (inl lt) e = omega arith
    apart_from p (inr lt) e = omega arith

    weaken : (p : ℕ) → (p < t) ⊎ (t + suc n < p) → (p < suc t) ⊎ (suc t + n < p)
    weaken p (inl lt) = inl (omega arith)
    weaken p (inr lt) = inr (omega arith)

    shrink :
        AreApart t (suc (suc n)) ims (2 * suc (suc n))
        → AreApart (suc t) (suc n) (ims + 2) (2 * suc n)
    shrink (inl le) = inl (omega arith)
    shrink (inr le) = inr (omega arith)

    not_here : (k : ℕ) → k < suc n → t ≢ ims + 2 * suc k + 1
    not_here k lt e =
        outside t (suc (suc n)) ims (2 * suc (suc n)) 0 (2 * suc k + 1) apart (omega arith)
          (omega arith) (omega (arith, e))

    entry :
        (m1 m2 : List ℕ) (c : ℕ)
        → get_elem? mem (ims + 2 * 0 + 1) ≡ some c
        → get_elem? m1 t ≡ some c
        → ((k : ℕ)
            → k < suc n
            → get_elem? m1 (ims + 2 + 2 * k + 1) ≡ get_elem? mem (ims + 2 * suc k + 1))
        → ((k : ℕ) → k < n → get_elem? m2 (suc t + k) ≡ get_elem? m1 (ims + 2 + 2 * k + 1))
        → get_elem? m2 t ≡ get_elem? m1 t
        → (k : ℕ) → k < suc n
        → get_elem? m2 (t + k) ≡ get_elem? mem (ims + 2 * k + 1)
    entry m1 m2 c at put kept in2 out2 zero lt =
        let base : t + 0 ≡ t = omega arith in ap (get_elem? m2) base ∙ out2 ∙ put ∙ sym at
    entry m1 m2 c at put kept in2 out2 (suc k) lt =
        let step : t + suc k ≡ suc t + k = omega arith in
        ap (get_elem? m2) step ∙ in2 k (omega arith) ∙ kept k (omega arith)

-- The string at `t` is the string of `n` characters that was at `s`.
abbrev pub IsCopied : List ℕ → ℕ → ℕ → ℕ → List ℕ → Type 0
IsCopied mem s t n after =
    ((k : ℕ) → k < n → get_elem? after (t + k) ≡ get_elem? mem (s + k))
    × (get_elem? after (t + n) ≡ some 0)

-- Encoded by `imencs` to a place apart from it and decoded by `imdecs` to a place apart from the code,
-- a string of at most 78 characters comes out as it was.
pub imdecs-imencs :
    (mem : List ℕ) (s ims t n : ℕ)
    → IsString mem s n
    → n < 79
    → ims + 2 * suc n ≤ length mem
    → t + n < length mem
    → AreApart s (suc n) ims (2 * suc n)
    → AreApart t (suc n) ims (2 * suc n)
    → Returns (IsCopied mem s t n) (imencs ims s mem >>= imdecs ims t)
unfolding imencs imdecs IsGathered
imdecs-imencs mem s ims t n str short code_fits text_fits apart_s apart_t =
    let found = end_of-string mem s n 79 0 str (omega arith) (omega arith) in
    let end = get_elem?-lt mem (s + n) str.1 in
    rw found (
      Returns-bind (spread-IsSpread ims s (suc n) mem code_fits (omega arith) apart_s)
        (λ coded (len, odd, _).
          Returns-map
            (gather-IsGathered 80 ims t n coded (omega arith) (omega arith) apart_t
              (λ k lt.
                let (c, at, nonzero) = str.0 k lt in (c, (odd k (omega arith)).1 ∙ at, nonzero))
              ((odd n (omega arith)).1 ∙ str.1))
            (λ after (_, chars, nul, _). (λ k lt. chars k lt ∙ (odd k (omega arith)).1, nul))))
