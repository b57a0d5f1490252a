-- ===== src/Detect/Simple/Chained.antt =====
-- The chain of records that `detect_simple_array` makes.
use pwrake.Prelude.{
  ℕ, zero, suc, ◌+◌, ◌≤◌, ◌≡◌, refl, sym, ap, ◌∙◌, inl, inr, Bool, Bool-cases, List, [], ◌∷◌, ◌++◌,
  Option, none, some, arith, length, get_elem?, Perm, Returns, returns, Returns-inv, some-inj,
  Returns-bind, Returns-map, ReturnsUnless-some, ◌>>=◌,
}
use pwrake.Prelude.Int.{pos}
use pwrake.Prelude.Perms.{each_of_perm}
use pwrake.Sort.Order.{Ranked}
use pwrake.Detect.Pixels.{Pixlist}
use pwrake.Detect.Objects.{Detected, detect_new3}
use pwrake.Detect.Objects.Found.{IsObject}
use pwrake.Detect.Objects.Whole.{detect_new3-whole}
use pwrake.Detect.Convert.{Arith, Objrec, convert_pixlist}
use pwrake.Detect.Convert.Inside.{Pixel}
use pwrake.Detect.Convert.Recorded.{convert_pixlist-npix}
use pwrake.Detect.Simple.{is_small, convert_all, detect_simple_array}
use pwrake.Detect.Simple.Shrunk.{without, shrink-without}

module _ {A : Type 0} where
  get_elem?-append :
      (P : A → Type 0) (a b : List A)
      → ((i : ℕ) (x : A) → get_elem? a i ≡ some x → P x)
      → ((i : ℕ) (x : A) → get_elem? b i ≡ some x → P x)
      → (i : ℕ) (x : A) → get_elem? (a ++ b) i ≡ some x
      → P x
  get_elem?-append P [] b left right i x h = right i x h
  get_elem?-append P (y ∷ a) b left right zero x h = left 0 x h
  get_elem?-append P (y ∷ a) b left right (suc i) x h =
      get_elem?-append P a b (λ j z e. left (suc j) z e) right i x h

  get_elem?-without :
      (drops : A → Bool) (l : List A) (i : ℕ) (x : A)
      → get_elem? (without drops l) i ≡ some x
      → (j : ℕ) × (get_elem? l j ≡ some x)
  unfolding without
  get_elem?-without drops [] i x h = (i, h)
  get_elem?-without drops (y ∷ l) i x h = elim (Bool-cases (drops y)) [
    | inl e ↦ let (j, at) = get_elem?-without drops l i x (rw e at h) in (suc j, at)
    | inr e ↦ behind (get_elem?-without drops l) i (rw e at h)
  ]
    where
      behind :
          ((n : ℕ) (z : A)
            → get_elem? (without drops l) n ≡ some z
            → (j : ℕ) × (get_elem? l j ≡ some z))
          → (n : ℕ) → get_elem? (y ∷ without drops l) n ≡ some x
          → (j : ℕ) × (get_elem? (y ∷ l) j ≡ some x)
      behind again zero at = (0, at)
      behind again (suc n) at = let (j, there) = again n x at in (suc j, there)

  -- 1 exactly for a value.
  abbrev size_of : Option A → ℕ
  size_of none = 0
  size_of (some a) = 1

  value_of : (r : Option A) → size_of r ≡ 1 → (a : A) × (r ≡ some a)
  value_of none h = absurd (omega (arith, h))
  value_of (some a) h = (a, refl)

module _ {F D : Type 0} ⦃o : Ranked F⦄ (m : Arith F D) where
  -- The records of the objects `l` in their order, numbered from `id` on.
  abbrev pub AreRecords : ℕ → List (Pixlist F) → List (Objrec F F) → Type 0
  AreRecords id l obs =
      (length obs ≡ length l)
      × ((n : ℕ) (pl : Pixlist F)
          → get_elem? l n ≡ some pl
          → (ob : Objrec F F) × (convert_pixlist m pl ≡ some ob)
            × (get_elem? obs n ≡ some (record ob { entnum = id + n })))

  abbrev converted : Pixlist F → ℕ
  converted pl = size_of (convert_pixlist m pl)

  convert_all-AreRecords :
      (id : ℕ) (l : List (Pixlist F))
      → ((n : ℕ) (pl : Pixlist F) → get_elem? l n ≡ some pl → converted pl ≡ 1)
      → Returns (AreRecords id l) (convert_all m id l)
  unfolding convert_all
  convert_all-AreRecords id [] each = returns (refl, λ n pl h. ground arith)
  convert_all-AreRecords id (pl ∷ l) each =
      let (ob, e) = value_of (convert_pixlist m pl) (each 0 pl refl) in
      rw (e, ◌>>=◌)
        (Returns-bind (convert_all-AreRecords (suc id) l (λ n q h. each (suc n) q h))
          (λ obs v. returns (ap suc v.0, λ n q h. at ob obs e v n q h)))
    where
      at :
          (ob : Objrec F F) (obs : List (Objrec F F))
          → convert_pixlist m pl ≡ some ob
          → AreRecords (suc id) l obs
          → (n : ℕ) (q : Pixlist F) → get_elem? (pl ∷ l) n ≡ some q
          → (r : Objrec F F) × (convert_pixlist m q ≡ some r)
            × (get_elem? (record ob { entnum = id } ∷ obs) n ≡ some (record r { entnum = id + n }))
      at ob obs e v zero q h =
          let numbered : id ≡ id + 0 = omega arith in
          (
            ob,
            ap (λ p. convert_pixlist m p) (sym (some-inj h)) ∙ e,
            ap (λ k. some (record ob { entnum = k })) numbered,
          )
      at ob obs e v (suc n) q h =
          let (r, f, there) = v.1 n q h in
          let numbered : suc id + n ≡ id + suc n = omega arith in
          (r, f, there ∙ ap (λ k. some (record r { entnum = k })) numbered)

  module _ (pix : ℕ → F) (npx npy : ℕ) (thres : F) (npix_min : ℕ) where
    object-converted :
        (pl : Pixlist F) → IsObject pix npx npy thres npix_min (pos 0) (pos 0) pl → converted pl ≡ 1
    unfolding IsObject
    object-converted pl (x, y, _, _, v, start) =
        let (k, w, at) = start in
        let (p, l, e) = nonempty pl.pix k at in
        let (ob, same, _) = Returns-inv (convert_pixlist-npix m x y pl p l e v.box) in rw same refl
      where
        nonempty :
            (l : List (Pixel F)) (n : ℕ) {q : Pixel F}
            → get_elem? l n ≡ some q
            → (p : Pixel F) × (rest : List (Pixel F)) × (l ≡ p ∷ rest)
        nonempty [] n h = ground arith
        nonempty (p ∷ rest) n h = (p, rest, refl)

    -- If `detect_new3` returns `r`, with two turns or more for each flood, `detect_simple_array` ends
    -- with no access outside its arrays. Its chain is one record of each kept object of `r`, then one of
    -- each edged object that is not small, the latter in some order, numbered from 1 on.
    pub detect_simple_array-IsChain :
        (fuel : ℕ) (r : Detected F)
        → 2 ≤ fuel
        → detect_new3 pix npx npy thres npix_min (pos 0) (pos 0) fuel (λ k. 0) ≡ some r
        → Returns
            (λ obs.
              (edge : List (Pixlist F)) × Perm edge (without (is_small m npix_min) r.edged.objects)
              × AreRecords 1 (r.kept.objects ++ edge) obs)
            (detect_simple_array m pix npx npy thres npix_min fuel)
    unfolding detect_simple_array
    detect_simple_array-IsChain fuel r enough detected =
        let (v, _, _) =
          ReturnsUnless-some
            (detect_new3-whole pix npx npy thres npix_min (pos 0) (pos 0) fuel enough (λ k. 0))
            detected in
        let kept = v.kept in
        let edged = v.edged in
        rw (detected, ◌>>=◌)
          (Returns-bind (shrink-without (is_small m npix_min) r.edged.objects) λ edge same.
            let each_edged : (n : ℕ) (pl : Pixlist F)
                → get_elem? edge n ≡ some pl
                → converted pl ≡ 1 =
              each_of_perm converted (λ pl. 1) same
                λ n pl h.
                  let (j, old) = get_elem?-without (is_small m npix_min) r.edged.objects n pl h in
                  object-converted pl (edged.each j pl old).0 in
            Returns-map
              (convert_all-AreRecords 1 (r.kept.objects ++ edge) (
                get_elem?-append (λ pl. converted pl ≡ 1) r.kept.objects edge
                  (λ n pl h. object-converted pl (kept.each n pl h).0) each_edged))
              λ obs records. (edge, same, records))
