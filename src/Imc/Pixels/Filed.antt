-- ===== src/Imc/Pixels/Filed.antt =====
-- What a write to a file leaves for a read.
use native.Mathlib.Nat.{mul_assoc, mul_comm}
use pwrake.Prelude.{
  mul_mono, ◌*◌, ℕ, zero, suc, ◌+◌, ◌-◌, ◌≤◌, ◌<◌, ◌≡◌, ◌≢◌, refl, ap, ◌∙◌, ◌⊎◌, inl, inr,
  Bool-cases, List, [], ◌∷◌, ◌++◌, some, arith, length, length-append, length-set, length-replicate,
  get_elem?, get_elem?-set, get_elem?-lt, get_elem?-append_left, get_elem?-append_right, replicate,
  ltb, >>=-inv,
}
use pwrake.Imc.Pixels.{put_byte, fwrite, fread}

-- A byte at its place, the others kept, and the file no shorter.
abbrev IsPut : ℕ → ℕ → List ℕ → List ℕ → Type 0
IsPut p b file after =
    (get_elem? after p ≡ some b)
    × ((q : ℕ) → q < length file → p ≢ q → get_elem? after q ≡ get_elem? file q)
    × (length file ≤ length after)

put_byte-IsPut : (p b : ℕ) (file : List ℕ) → IsPut p b file (put_byte p b file)
unfolding put_byte
put_byte-IsPut p b file = elim (Bool-cases (ltb p (length file))) [
  | inl e ↦
      let inside : p < length file = ground (arith, e) in
      rw (put_byte, e)
        (
          ground (arith, get_elem?-set file p p b inside),
          λ q lq ne. ground (arith, get_elem?-set file p q b inside, ne),
          omega (arith, length-set file p b),
        )
  | inr e ↦
      let past : length file ≤ p = ground (arith, e) in
      let gap : List ℕ = replicate (p - length file) 0 in
      let size : length (file ++ gap) ≡ p =
        omega (arith, length-append file gap, length-replicate {A = ℕ} (p - length file) 0, past) in
      let base : p ≡ length (file ++ gap) + 0 = omega (arith, size) in
      let at : get_elem? ((file ++ gap) ++ (b ∷ [])) p ≡ some b =
        get_elem?-append_right (file ++ gap) (b ∷ []) p 0 base in
      rw (put_byte, e)
        (
          at,
          λ q lq ne.
              get_elem?-append_left (file ++ gap) (b ∷ []) q (omega (arith, size, past, lq))
              ∙ get_elem?-append_left file gap q lq,
          omega (arith, length-append (file ++ gap) (b ∷ []), size, past),
        )
]

-- Where a write does not reach.
abbrev pub IsBeside : ℕ → ℕ → ℕ → Type 0
IsBeside offset n q = (q < offset) ⊎ (offset + n ≤ q)

abbrev IsWritten : ℕ → List ℕ → List ℕ → List ℕ → Type 0
IsWritten offset bs file after =
    (fread offset (length bs) after ≡ some bs)
    × ((q : ℕ)
        → q < length file
        → IsBeside offset (length bs) q
        → get_elem? after q ≡ get_elem? file q)
    × (length file ≤ length after)

pub fwrite-IsWritten :
    (offset : ℕ) (bs file : List ℕ) → IsWritten offset bs file (fwrite offset bs file)
unfolding fwrite fread
fwrite-IsWritten offset [] file = (refl, λ q lq out. refl, omega arith)
fwrite-IsWritten offset (b ∷ bs) file =
    let (at, keep, longer) = put_byte-IsPut offset b file in
    let (read, out, longer') = fwrite-IsWritten (suc offset) bs (put_byte offset b file) in
    let first : get_elem? (fwrite (suc offset) bs (put_byte offset b file)) offset ≡ some b =
      out offset (get_elem?-lt (put_byte offset b file) offset at) (inl (omega arith)) ∙ at in
    (
      rw (first, read) refl,
      λ q lq beside.
          out q (omega (arith, longer, lq)) (narrow (length bs) q beside)
          ∙ keep q lq (apart (length bs) q beside),
      omega (arith, longer, longer'),
    )
  where
    narrow : (n q : ℕ) → IsBeside offset (suc n) q → IsBeside (suc offset) n q
    narrow n q (inl lt) = inl (omega arith)
    narrow n q (inr le) = inr (omega arith)

    apart : (n q : ℕ) → IsBeside offset (suc n) q → offset ≢ q
    apart n q (inl lt) e = omega arith
    apart n q (inr le) e = omega arith

-- A read that does not meet the write.
pub fread-cong :
    (offset n : ℕ) (file after xs : List ℕ)
    → ((q : ℕ)
        → offset ≤ q
        → q < offset + n
        → q < length file
        → get_elem? after q ≡ get_elem? file q)
    → fread offset n file ≡ some xs
    → fread offset n after ≡ some xs
unfolding fread
fread-cong offset zero file after xs same h = h
fread-cong offset (suc n) file after xs same h =
    let (b, at, h') = >>=-inv (get_elem? file offset) _ h in
    let (bs, rest, end) = >>=-inv (fread (suc offset) n file) _ h' in
    let here : get_elem? after offset ≡ some b =
      same offset (omega arith) (omega arith) (get_elem?-lt file offset at) ∙ at in
    let more : fread (suc offset) n after ≡ some bs =
      fread-cong (suc offset) n file after bs
        (λ q lo hi lq. same q (omega arith) (omega (arith, hi)) lq) rest in
    rw (here, more) end

-- Lines of one size do not meet.
other-IsBeside :
    (base i j n q : ℕ)
    → i ≢ j
    → base + i * n ≤ q
    → q < base + i * n + n
    → IsBeside (base + j * n) n q
other-IsBeside base i j n q ne lo hi = elim (Bool-cases (ltb i j)) [
  | inl e ↦
      let lt : suc i ≤ j = ground (arith, e) in inl (omega (arith, hi, mul_mono (suc i) j n lt))
  | inr e ↦
      let lt : suc j ≤ i = ground (arith, e, ne) in inr (omega (arith, lo, mul_mono (suc j) i n lt))
]

-- Two spellings of the place of a line.
place : (i b n : ℕ) → i * b * n ≡ i * (n * b)
place i b n = mul_assoc i b n ∙ ap (λ m. i * m) (mul_comm b n)

pub line-IsBeside :
    (base i j b n q : ℕ)
    → i ≢ j
    → base + i * b * n ≤ q
    → q < base + i * b * n + n * b
    → IsBeside (base + j * b * n) (n * b) q
line-IsBeside base i j b n q ne lo hi =
    rw (place j b n)
      (other-IsBeside base i j (n * b) q ne (rw (place i b n) at lo) (rw (place i b n) at hi))
