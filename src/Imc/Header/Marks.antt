-- ===== src/Imc/Header/Marks.antt =====
-- The value of pixels to ignore and the offset of unsigned shorts in `void_2` of
-- demo/spcam/sdfred20100528/mosaic/imc keep their values.
use pwrake.Prelude.{
  ℕ, ◌+◌, ◌*◌, ◌/◌, ◌%◌, ◌^◌, ◌≤◌, ◌<◌, ◌≡◌, ◌≢◌, refl, ap, ◌∙◌, ◌⊎◌, inl, inr, ◌&&◌, Bool-cases,
  ==→≡, List, some, arith, length, get_elem?, write, ◌==◌, Returns, returns, Returns-bind,
  Returns-if, Returns-map, ◌>>=◌, write-Returns,
}
use pwrake.Imc.Header.{imc_fits_get_dtype, put_pixignr, imget_pixignr, imget_u2off, put_u2off}
use pwrake.Imc.Header.Stored.{word-bytes, entry, get_elem?-entry}
use pwrake.Imc.Header.Kept.{imget_pixignr-cong, imget_u2off-cong, imc_fits_get_dtype-cong}

-- The bytes from `from` to `to` are changed at most.
abbrev IsChanged : ℕ → ℕ → List ℕ → List ℕ → Type 0
IsChanged from to v w = (p : ℕ) → (p < from) ⊎ (to < p) → get_elem? w p ≡ get_elem? v p

past : (from to p q : ℕ) → (p < from) ⊎ (to < p) → from ≤ q → q ≤ to → q ≢ p
past from to p q (inl lt) lo hi e = omega arith
past from to p q (inr lt) lo hi e = omega arith

put_pixignr-IsChanged :
    (void_2 : List ℕ) (pixignr : ℕ)
    → length void_2 ≡ 1000
    → pixignr < 2 ^ 32
    → Returns
        (λ v. (imget_pixignr v ≡ some pixignr) × IsChanged 967 971 void_2 v)
        (put_pixignr pixignr void_2)
unfolding put_pixignr imget_pixignr
put_pixignr-IsChanged void_2 w size hw =
    Returns-bind (write-Returns void_2 967 170 (omega arith)) (λ v0 (l0, p0, k0).
      Returns-bind (write-Returns v0 968 (w / 16777216 % 256) (omega arith)) (λ v1 (l1, p1, k1).
        Returns-bind (write-Returns v1 969 (w / 65536 % 256) (omega arith)) (λ v2 (l2, p2, k2).
          Returns-bind (write-Returns v2 970 (w / 256 % 256) (omega arith)) (λ v3 (l3, p3, k3).
            Returns-map (write-Returns v3 971 (w % 256) (omega arith)) (λ v4 (l4, p4, k4).
              let at3 = k4 970 (λ e. omega arith) ∙ p3 in
              let at2 = k4 969 (λ e. omega arith) ∙ k3 969 (λ e. omega arith) ∙ p2 in
              let at1 =
                k4 968 (λ e. omega arith)
                ∙ k3 968 (λ e. omega arith)
                ∙ k2 968 (λ e. omega arith)
                ∙ p1 in
              let at0 =
                k4 967 (λ e. omega arith)
                ∙ k3 967 (λ e. omega arith)
                ∙ k2 967 (λ e. omega arith)
                ∙ k1 967 (λ e. omega arith)
                ∙ p0 in
              let far = past 967 971 in
              (
                rw (at0, at1, at2, at3, p4) (ap some (word-bytes w hw)),
                λ p out.
                    k4 p (far p 971 out (omega arith) (omega arith))
                    ∙ k3 p (far p 970 out (omega arith) (omega arith))
                    ∙ k2 p (far p 969 out (omega arith) (omega arith))
                    ∙ k1 p (far p 968 out (omega arith) (omega arith))
                    ∙ k0 p (far p 967 out (omega arith) (omega arith)),
              ))))))

imget_u2off-Returns :
    (void_2 : List ℕ)
    → length void_2 ≡ 1000
    → Returns (λ old. imget_u2off void_2 ≡ some old) (imget_u2off void_2)
unfolding imget_u2off
imget_u2off-Returns void_2 size =
    let key1 = get_elem?-entry void_2 992 (omega arith) in
    let key2 = get_elem?-entry void_2 993 (omega arith) in
    let high = get_elem?-entry void_2 994 (omega arith) in
    let low = get_elem?-entry void_2 995 (omega arith) in
    rw (key1, key2, high, low)
      (elim (Bool-cases (entry void_2 992 == 51 && entry void_2 993 == 85)) [
        | inl e ↦ rw e (returns refl)
        | inr e ↦ rw e (returns refl)
      ])

u2off_is :
    (v : List ℕ) (u : ℕ)
    → u < 65536
    → get_elem? v 992 ≡ some 51
    → get_elem? v 993 ≡ some 85
    → get_elem? v 994 ≡ some (u / 256 % 256)
    → get_elem? v 995 ≡ some (u % 256)
    → imget_u2off v ≡ some u
unfolding imget_u2off
u2off_is v u hu h1 h2 h3 h4 =
    let whole : 256 * (u / 256 % 256) + u % 256 ≡ u = omega arith in
    rw (h1, h2, h3, h4) (ap some whole)

put_u2off-IsChanged :
    (void_2 : List ℕ) (u2off : ℕ)
    → length void_2 ≡ 1000
    → u2off < 65536
    → Returns
        (λ v. (imget_u2off v ≡ some u2off) × IsChanged 992 995 void_2 v)
        (put_u2off u2off void_2)
unfolding put_u2off
put_u2off-IsChanged void_2 u size hu = Returns-bind (imget_u2off-Returns void_2 size) (λ old is_old.
    Returns-if (old == u) (λ e. returns (is_old ∙ ap some (==→≡ old u e), λ p out. refl))
      (λ _. written))
  where
    written :
        Returns
          (λ v. (imget_u2off v ≡ some u) × IsChanged 992 995 void_2 v)
          (do
            a ← write void_2 992 51
            b ← write a 993 85
            c ← write b 994 (u / 256 % 256)
            write c 995 (u % 256))
    written = Returns-bind (write-Returns void_2 992 51 (omega arith)) (λ v1 (l1, p1, k1).
        Returns-bind (write-Returns v1 993 85 (omega arith)) (λ v2 (l2, p2, k2).
          Returns-bind (write-Returns v2 994 (u / 256 % 256) (omega arith)) (λ v3 (l3, p3, k3).
            Returns-map (write-Returns v3 995 (u % 256) (omega arith)) (λ v4 (l4, p4, k4).
              let far = past 992 995 in
              (
                u2off_is v4 u hu
                    (k4 992 (λ e. omega arith)
                      ∙ k3 992 (λ e. omega arith)
                      ∙ k2 992 (λ e. omega arith)
                      ∙ p1)
                    (k4 993 (λ e. omega arith) ∙ k3 993 (λ e. omega arith) ∙ p2)
                    (k4 994 (λ e. omega arith) ∙ p3) p4,
                λ p out.
                    k4 p (far p 995 out (omega arith) (omega arith))
                    ∙ k3 p (far p 994 out (omega arith) (omega arith))
                    ∙ k2 p (far p 993 out (omega arith) (omega arith))
                    ∙ k1 p (far p 992 out (omega arith) (omega arith)),
              )))))

-- A value of pixels to ignore of 32 bits and an offset of 16 bits are read back as they were set; each
-- setting keeps the other field and the type of the file.
pub put_pixignr-put_u2off_kept :
    (void_2 : List ℕ) (pixignr u2off : ℕ)
    → length void_2 ≡ 1000
    → pixignr < 2 ^ 32
    → u2off < 65536
    → Returns
        (λ v.
          (imget_pixignr v ≡ some pixignr)
          × (imget_u2off v ≡ imget_u2off void_2)
          × (imc_fits_get_dtype v ≡ imc_fits_get_dtype void_2))
        (put_pixignr pixignr void_2)
      × Returns
          (λ v.
            (imget_u2off v ≡ some u2off)
            × (imget_pixignr v ≡ imget_pixignr void_2)
            × (imc_fits_get_dtype v ≡ imc_fits_get_dtype void_2))
          (put_u2off u2off void_2)
put_pixignr-put_u2off_kept void_2 pixignr u2off size wide narrow = (
  Returns-map (put_pixignr-IsChanged void_2 pixignr size wide) (λ v (got, kept). (
    got,
    imget_u2off-cong void_2 v (λ p lo hi. kept p (inr (omega arith))),
    imc_fits_get_dtype-cong void_2 v (λ p lo hi. kept p (inr (omega arith))),
  )),
  Returns-map (put_u2off-IsChanged void_2 u2off size narrow) (λ v (got, kept). (
    got,
    imget_pixignr-cong void_2 v (λ p lo hi. kept p (inl (omega arith))),
    imc_fits_get_dtype-cong void_2 v (λ p lo hi. kept p (inl (omega arith))),
  )),
)
