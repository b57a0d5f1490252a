-- ===== src/Detect/Convert/Recorded.antt =====
-- What `convert_pixlist` records of an object with the box of its pixels.
use mathlib.Core.Path.{ap₂}
use pwrake.Prelude.{
  ℕ, zero, suc, ◌≤◌, ◌<◌, ◌≡◌, ◌>>=◌, refl, sym, ap, ◌∙◌, ◌⊎◌, inl, inr, Bool-cases, List, [], ◌∷◌,
  Option, none, some, arith, get_elem?, Returns, returns, Returns-bind, Returns-map,
}
use pwrake.Prelude.Int.{ℤ, pos, negsuc, ◌+ℤ◌, ◌-ℤ◌, scale, pos_part}
use pwrake.Sort.Order.{Ranked, lt}
use pwrake.Detect.Pixels.{Pixlist, npix_of}
use pwrake.Detect.Pixels.Box.{IsBoxed}
use pwrake.Detect.Convert.{
  Arith, Objrec, narrowed, put_map, convert_pixel, convert_pixels, start_objrec, convert_pixlist,
}
use pwrake.Detect.Convert.Inside.{
  min_of_each, max_of_each, span, grid_index, Pixel, IsWithin, place,
}

single : {A : Type 0} (a : A) (n : ℕ) (b : A) → get_elem? (a ∷ []) n ≡ some b → b ≡ a
single a zero b h = ground arith
single a (suc n) b h = ground arith

module _ {F G : Type 0} where
  abbrev pub SameBox : Objrec F G → Objrec F G → Type 0
  SameBox r ob =
      (r.xmin ≡ ob.xmin)
      × (r.xmax ≡ ob.xmax)
      × (r.ymin ≡ ob.ymin)
      × (r.ymax ≡ ob.ymax)
      × (r.entnum ≡ ob.entnum)
      × (r.npix ≡ ob.npix)

module _ {F G : Type 0} ⦃o : Ranked F⦄ where
  -- The peak's place is that of the first pixel with its value.
  abbrev pub IsFirstPeak : List (Pixel F) → Objrec F G → Type 0
  IsFirstPeak l r =
      (n : ℕ) × (get_elem? l n ≡ some (r.ipeak, r.jpeak, r.peak))
      × ((k : ℕ) (q : Pixel F) → k < n → get_elem? l k ≡ some q → o.rank q.2 < o.rank r.peak)

module _ {F D : Type 0} ⦃o : Ranked F⦄ where
  -- After the rounds of the pixels `l`, from `ob`: the peak is the greatest value, and its place is the old
  -- one, or that of the first pixel with this value if it is greater than the old peak; each pixel's place
  -- holds the number.
  pub record Converts (l : List (Pixel F)) (ob r : Objrec F D) : Type 0 where
    pub same : SameBox r ob
    pub high : (n : ℕ) (p : Pixel F) → get_elem? l n ≡ some p → o.rank p.2 ≤ o.rank r.peak
    pub old : o.rank ob.peak ≤ o.rank r.peak
    pub peak_at :
        ((r.peak ≡ ob.peak) × (r.ipeak ≡ ob.ipeak) × (r.jpeak ≡ ob.jpeak))
        ⊎ (IsFirstPeak l r × (o.rank ob.peak < o.rank r.peak))
    pub stays : (k : ℤ) → ob.map k ≡ ob.entnum → r.map k ≡ ob.entnum
    pub marks : (n : ℕ) (p : Pixel F) → get_elem? l n ≡ some p → r.map (place ob p) ≡ ob.entnum

  place_same : (s ob : Objrec F D) (p : Pixel F) → SameBox s ob → place s p ≡ place ob p
  place_same s ob p (a, b, c, _, _, _) = cc (
    ap₂ (λ (u v : ℤ). p.0 -ℤ u +ℤ scale (pos_part (v -ℤ u +ℤ pos 1)) (p.1 -ℤ ob.ymin)) a b,
    ap (λ (u : ℤ). p.0 -ℤ s.xmin +ℤ scale (pos_part (s.xmax -ℤ s.xmin +ℤ pos 1)) (p.1 -ℤ u)) c,
  )

  Converts-cons :
      (p : Pixel F) (l : List (Pixel F)) (ob s r : Objrec F D)
      → Converts (p ∷ []) ob s
      → Converts l s r
      → Converts (p ∷ l) ob r
  Converts-cons p l ob s r first rest =
      let (a, b, c, d, e, f) = first.same in
      let (a', b', c', d', e', f') = rest.same in
      record {
        same = (a' ∙ a, b' ∙ b, c' ∙ c, d' ∙ d, e' ∙ e, f' ∙ f);
        high = λ n q h. high n q h;
        old = omega (arith, first.old, rest.old);
        peak_at = elim rest.peak_at [
          | inr ((n, at, before), above) ↦
              inr ((suc n, at, later n before above), omega (arith, first.old, above))
          | inl (v, x, y) ↦ elim first.peak_at [
            | inl (v', x', y') ↦ inl (v ∙ v', x ∙ x', y ∙ y')
            | inr ((n, at, before), above) ↦ inr (
              (0, ap some (found n at v x y), λ k q below h. absurd (omega arith)),
              rw (sym v) at above,
            )
          ]
        ];
        stays = λ k h. rest.stays k (first.stays k h ∙ sym e) ∙ e;
        marks = λ n q h. marks n q h;
      }
    where
      later :
          (n : ℕ)
          → ((k : ℕ) (q : Pixel F) → k < n → get_elem? l k ≡ some q → o.rank q.2 < o.rank r.peak)
          → o.rank s.peak < o.rank r.peak
          → (k : ℕ) (q : Pixel F) → k < suc n
          → get_elem? (p ∷ l) k ≡ some q
          → o.rank q.2 < o.rank r.peak
      later n before above zero q below h = omega (arith, first.high 0 q h, above)
      later n before above (suc k) q below h = before k q (omega arith) h

      high : (n : ℕ) (q : Pixel F) → get_elem? (p ∷ l) n ≡ some q → o.rank q.2 ≤ o.rank r.peak
      high zero q h = omega (arith, first.high 0 q h, rest.old)
      high (suc n) q h = rest.high n q h

      marks : (n : ℕ) (q : Pixel F) → get_elem? (p ∷ l) n ≡ some q → r.map (place ob q) ≡ ob.entnum
      marks zero q h = rest.stays (place ob q) (first.marks 0 q h ∙ sym first.same.4) ∙ first.same.4
      marks (suc n) q h =
          ap r.map (sym (place_same s ob q first.same)) ∙ rest.marks n q h ∙ first.same.4

      found :
          (n : ℕ)
          → get_elem? (p ∷ []) n ≡ some (s.ipeak, s.jpeak, s.peak)
          → r.peak ≡ s.peak
          → r.ipeak ≡ s.ipeak
          → r.jpeak ≡ s.jpeak
          → p ≡ (r.ipeak, r.jpeak, r.peak)
      found n at v x y = cc (single p n (s.ipeak, s.jpeak, s.peak) at, v, x, y)

  module _ (m : Arith F D) where
    convert_pixel-Converts :
        (p : Pixel F) (ob : Objrec F D)
        → IsWithin ob p
        → Returns (Converts (p ∷ []) ob) (convert_pixel m p ob)
    unfolding convert_pixel put_map
    convert_pixel-Converts p ob (x1, x2, y1, y2) =
        let (dw, dn) = span ob.xmin p.0 ob.xmax x1 x2 in
        let (ew, en) = span ob.ymin p.1 ob.ymax y1 y2 in
        let inside =
          grid_index (p.0 -ℤ ob.xmin) (p.1 -ℤ ob.ymin) (pos_part (ob.xmax -ℤ ob.xmin +ℤ pos 1))
            (pos_part (ob.ymax -ℤ ob.ymin +ℤ pos 1)) dn en dw ew in
        rw inside (
          returns (record {
            same = (refl, refl, refl, refl, refl, refl);
            high = λ n q h.
                let same = single p n q h in ground (arith, ap (λ (z : Pixel F). o.rank z.2) same);
            old = ground arith;
            peak_at = elim (Bool-cases (lt ob.peak p.2)) [
              | inl e ↦
                  rw e (inr ((0, refl, λ k q below h. absurd (omega arith)), ground (arith, e)))
              | inr e ↦ rw e (inl (refl, refl, refl))
            ];
            stays = λ k h. ground arith;
            marks = λ n q h. let same = single p n q h in rw same (ground arith);
          }))

    IsWithin-same : (s ob : Objrec F D) (p : Pixel F) → SameBox s ob → IsWithin ob p → IsWithin s p
    IsWithin-same s ob p (a, b, c, d, _, _) w = rw (a, b, c, d) w

    convert_pixels-Converts :
        (l : List (Pixel F)) (ob : Objrec F D)
        → ((n : ℕ) (p : Pixel F) → get_elem? l n ≡ some p → IsWithin ob p)
        → Returns (Converts l ob) (convert_pixels m l ob)
    unfolding convert_pixels
    convert_pixels-Converts [] ob within = returns (record {
      same = (refl, refl, refl, refl, refl, refl);
      high = λ n p h. ground arith;
      old = omega arith;
      peak_at = inl (refl, refl, refl);
      stays = λ k h. h;
      marks = λ n p h. ground arith;
    })
    convert_pixels-Converts (p ∷ l) ob within =
        Returns-bind (convert_pixel-Converts p ob (within 0 p refl)) λ s first.
          Returns-map
            (convert_pixels-Converts l s
              (λ n q h. IsWithin-same s ob q first.same (within (suc n) q h)))
            λ r rest. Converts-cons p l ob s r first rest

    boxed-IsWithin :
        (x y : ℤ) (pl : Pixlist F) (first : F) (n : ℕ) (p : Pixel F)
        → IsBoxed x y pl
        → get_elem? pl.pix n ≡ some p
        → IsWithin (start_objrec m pl first) p
    unfolding start_objrec
    boxed-IsWithin x y pl first n p b h = (
      rw b.left (min_of_each (λ q. q.0) x pl.pix n p h),
      rw b.right (max_of_each (λ q. q.0) x pl.pix n p h),
      rw b.bottom (min_of_each (λ q. q.1) y pl.pix n p h),
      rw b.top (max_of_each (λ q. q.1) y pl.pix n p h),
    )

    convert_pixlist-eq :
        (pl : Pixlist F) (p : Pixel F) (l : List (Pixel F))
        → pl.pix ≡ p ∷ l
        → convert_pixlist m pl
          ≡ (convert_pixels m (p ∷ l) (start_objrec m pl p.2) >>= λ ob. some (narrowed m ob))
    unfolding convert_pixlist
    convert_pixlist-eq pl p l e =
        let by_pix : List (Pixel F) → Option (Objrec F F) = λ xs. elim xs [
          | [] ↦ none
          | q ∷ qs ↦
              convert_pixels m (q ∷ qs) (start_objrec m pl q.2) >>= λ ob. some (narrowed m ob)
        ] in
        ap by_pix e

    convert_pixlist-Converts :
        (x y : ℤ) (pl : Pixlist F) (p : Pixel F) (l : List (Pixel F))
        → pl.pix ≡ p ∷ l
        → IsBoxed x y pl
        → Returns
            (λ r.
              (ob : Objrec F D) × Converts (p ∷ l) (start_objrec m pl p.2) ob × (r ≡ narrowed m ob))
            (convert_pixlist m pl)
    convert_pixlist-Converts x y pl p l e b =
        let ob = start_objrec m pl p.2 in
        rw (convert_pixlist-eq pl p l e) (
          Returns-bind
            (convert_pixels-Converts (p ∷ l) ob (λ n q h. boxed-IsWithin x y pl p.2 n q b (rw e h)))
            (λ r v. returns (r, v, refl)))

    pub convert_pixlist-npix :
        (x y : ℤ) (pl : Pixlist F) (p : Pixel F) (l : List (Pixel F))
        → pl.pix ≡ p ∷ l
        → IsBoxed x y pl
        → Returns (λ r. r.npix ≡ npix_of pl) (convert_pixlist m pl)
    unfolding start_objrec
    convert_pixlist-npix x y pl p l e b =
        Returns-map (convert_pixlist-Converts x y pl p l e b) λ r (ob, v, same). rw same v.same.5

    -- An object with a pixel and with the box of its pixels is converted with no access outside
    -- its map. The peak is the greatest value. If no pixel is greater than the first, its place is (-1, -1);
    -- otherwise it is that of the first pixel with the greatest value. Each pixel is marked with the number.
    pub convert_pixlist-records :
        (x y : ℤ) (pl : Pixlist F) (p : Pixel F) (l : List (Pixel F))
        → pl.pix ≡ p ∷ l
        → IsBoxed x y pl
        → Returns
            (λ r.
              ((n : ℕ) (q : Pixel F)
                → get_elem? (p ∷ l) n ≡ some q
                → (o.rank q.2 ≤ o.rank r.peak) × (r.map (place r q) ≡ pl.entnum))
              × (((r.peak ≡ p.2) × (r.ipeak ≡ negsuc 0) × (r.jpeak ≡ negsuc 0))
                  ⊎ (IsFirstPeak (p ∷ l) r × (o.rank p.2 < o.rank r.peak))))
            (convert_pixlist m pl)
    unfolding start_objrec
    convert_pixlist-records x y pl p l e b =
        Returns-map (convert_pixlist-Converts x y pl p l e b) λ r (ob, v, narrow). rw narrow (
          (λ n q h. (
            v.high n q h,
            ap ob.map (place_same ob (start_objrec m pl p.2) q v.same) ∙ v.marks n q h,
          )),
          v.peak_at,
        )
