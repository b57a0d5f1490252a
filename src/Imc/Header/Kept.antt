-- ===== src/Imc/Header/Kept.antt =====
-- The type of a FITS file in `void_2` of demo/spcam/sdfred20100528/mosaic/imc keeps its value.
use pwrake.Prelude.{
  ℕ, ◌+◌, ◌^◌, ◌≤◌, ◌<◌, ◌≡◌, refl, sym, ap, ◌∙◌, ◌⊎◌, inl, inr, true, false, List, some, arith,
  length, get_elem?, Returns, returns, Returns-bind, some-inj,
}
use pwrake.Imc.Header.{
  bytes, word, fetch, is_dtype, is_zero, FitsType, imc_fits_set_dtype, imc_fits_get_dtype,
  imget_pixignr, imget_u2off,
}
use pwrake.Imc.Header.Stored.{
  word-bytes, entry, entries, fetch-entries, fetch-append, IsBeside, fetch-cong, store-IsStored,
}

-- The fields read from the entries of an array of at least 996 bytes.
abbrev type_in : List ℕ → ℕ → FitsType
type_in v pixoff = record {
  dtype = word (entry v 988) (entry v 987) (entry v 986) (entry v 985);
  bzero = word (entry v 984) (entry v 983) (entry v 982) (entry v 981);
  bscale = word (entry v 980) (entry v 979) (entry v 978) (entry v 977);
  pixoff = pixoff;
}

abbrev pixoff_in : List ℕ → ℕ
pixoff_in v = word (entry v 976) (entry v 975) (entry v 974) (entry v 973)

imc_fits_get_dtype-entries :
    (v : List ℕ) → 988 < length v → imc_fits_get_dtype v ≡ some (type_in v (pixoff_in v))
unfolding imc_fits_get_dtype entries
imc_fits_get_dtype-entries v h = rw (fetch-entries 988 16 v h) refl

pub imget_pixignr-cong :
    (v w : List ℕ)
    → ((p : ℕ) → 967 ≤ p → p ≤ 971 → get_elem? w p ≡ get_elem? v p)
    → imget_pixignr w ≡ imget_pixignr v
unfolding imget_pixignr
imget_pixignr-cong v w same =
    rw
      (
        same 967 (omega arith) (omega arith),
        same 968 (omega arith) (omega arith),
        same 969 (omega arith) (omega arith),
        same 970 (omega arith) (omega arith),
        same 971 (omega arith) (omega arith),
      )
      refl

pub imget_u2off-cong :
    (v w : List ℕ)
    → ((p : ℕ) → 992 ≤ p → p ≤ 995 → get_elem? w p ≡ get_elem? v p)
    → imget_u2off w ≡ imget_u2off v
unfolding imget_u2off
imget_u2off-cong v w same =
    rw
      (
        same 992 (omega arith) (omega arith),
        same 993 (omega arith) (omega arith),
        same 994 (omega arith) (omega arith),
        same 995 (omega arith) (omega arith),
      )
      refl

pub imc_fits_get_dtype-cong :
    (v w : List ℕ)
    → ((p : ℕ) → 973 ≤ p → p ≤ 988 → get_elem? w p ≡ get_elem? v p)
    → imc_fits_get_dtype w ≡ imc_fits_get_dtype v
unfolding imc_fits_get_dtype
imc_fits_get_dtype-cong v w same =
    rw (fetch-cong 988 16 w v (omega arith) (λ p hi lo. same p (omega arith) hi)) refl

is_dtype-lt : (dtype : ℕ) → is_dtype dtype ≡ true → dtype < 2 ^ 32
is_dtype-lt dtype h = ground (arith, h)

-- The type read from four words in the bytes.
imc_fits_get_dtype-bytes :
    (c v : List ℕ) (dtype bzero bscale : ℕ)
    → dtype < 2 ^ 32
    → bzero < 2 ^ 32
    → bscale < 2 ^ 32
    → fetch 988 4 c ≡ some (bytes dtype)
    → fetch 984 4 c ≡ some (bytes bzero)
    → fetch 980 4 c ≡ some (bytes bscale)
    → fetch 976 4 c ≡ some (entries 976 4 v)
    → imc_fits_get_dtype c
      ≡ some (record { dtype = dtype; bzero = bzero; bscale = bscale; pixoff = pixoff_in v })
unfolding imc_fits_get_dtype entries
imc_fits_get_dtype-bytes c v dtype bzero bscale hd hz hs at_dtype at_bzero at_bscale at_pixoff =
    let low = fetch-append 980 4 4 8 c (bytes bscale) (entries 976 4 v) refl at_bscale at_pixoff in
    let mid = fetch-append 984 4 8 12 c (bytes bzero) _ refl at_bzero low in
    let all = fetch-append 988 4 12 16 c (bytes dtype) _ refl at_dtype mid in
    rw (all, word-bytes dtype hd, word-bytes bzero hz, word-bytes bscale hs) refl

-- Beside all three words.
IsBeside-words :
    (p : ℕ) → (988 < p) ⊎ (p + 12 ≤ 988) → IsBeside 980 4 p × IsBeside 984 4 p × IsBeside 988 4 p
IsBeside-words p (inl lt) = (inl (omega arith), inl (omega arith), inl (omega arith))
IsBeside-words p (inr le) = (inr (omega arith), inr (omega arith), inr (omega arith))

-- Of a type of the FITS standard and a `bscale` that is not 0, `imc_fits_set_dtype` returns 1, and
-- then `imc_fits_get_dtype` reads what it was given and the old `pixoff`; the value of pixels to
-- ignore and the offset of unsigned shorts are kept.
pub imc_fits_get_dtype-imc_fits_set_dtype :
    (void_2 : List ℕ) (dtype bzero bscale : ℕ) (old : FitsType)
    → length void_2 ≡ 1000
    → is_dtype dtype ≡ true
    → is_zero bscale ≡ false
    → bzero < 2 ^ 32
    → bscale < 2 ^ 32
    → imc_fits_get_dtype void_2 ≡ some old
    → Returns
        (λ r.
          (r.0 ≡ 1)
          × (imc_fits_get_dtype r.1
              ≡ some
                  (record { dtype = dtype; bzero = bzero; bscale = bscale; pixoff = old.pixoff }))
          × (imget_pixignr r.1 ≡ imget_pixignr void_2)
          × (imget_u2off r.1 ≡ imget_u2off void_2))
        (imc_fits_set_dtype dtype bzero bscale void_2)
unfolding imc_fits_set_dtype
imc_fits_get_dtype-imc_fits_set_dtype void_2 dtype bzero bscale old size known nonzero wz ws was =
    rw (known, nonzero)
      (Returns-bind (store-IsStored 988 (bytes dtype) void_2 (omega arith) (omega arith))
        (λ a (len_a, read_a, out_a).
          Returns-bind (store-IsStored 984 (bytes bzero) a (omega arith) (omega arith))
            (λ b (len_b, read_b, out_b).
              Returns-bind (store-IsStored 980 (bytes bscale) b (omega arith) (omega arith))
                (λ c (len_c, read_c, out_c).
                  let kept : (p : ℕ)
                      → (988 < p) ⊎ (p + 12 ≤ 988)
                      → get_elem? c p ≡ get_elem? void_2 p =
                    λ p out.
                      let (low, mid, high) = IsBeside-words p out in
                      out_c p low ∙ out_b p mid ∙ out_a p high in
                  let at_dtype =
                    fetch-cong 988 4 c a (omega arith)
                      (λ p hi lo. out_c p (inl (omega arith)) ∙ out_b p (inl (omega arith)))
                    ∙ read_a in
                  let at_bzero =
                    fetch-cong 984 4 c b (omega arith) (λ p hi lo. out_c p (inl (omega arith)))
                    ∙ read_b in
                  let at_pixoff =
                    fetch-cong 976 4 c void_2 (omega arith) (λ p hi lo. kept p (inr (omega arith)))
                    ∙ fetch-entries 976 4 void_2 (omega arith) in
                  let before : type_in void_2 (pixoff_in void_2) ≡ old =
                    some-inj (sym (imc_fits_get_dtype-entries void_2 (omega arith)) ∙ was) in
                  let got =
                    imc_fits_get_dtype-bytes c void_2 dtype bzero bscale (is_dtype-lt dtype known)
                      wz ws at_dtype at_bzero read_c at_pixoff in
                  returns (
                    refl,
                    rw (ap (λ r. r.pixoff) before) at got,
                    imget_pixignr-cong void_2 c (λ p lo hi. kept p (inr (below_type p hi))),
                    imget_u2off-cong void_2 c (λ p lo hi. kept p (inl (above_type p lo))),
                  )))))
  where
    below_type : (p : ℕ) → p ≤ 971 → p + 12 ≤ 988
    below_type p h = omega arith

    above_type : (p : ℕ) → 992 ≤ p → 988 < p
    above_type p h = omega arith
