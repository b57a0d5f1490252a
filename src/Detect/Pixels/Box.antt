-- ===== src/Detect/Pixels/Box.antt =====
-- The box of an object is that of its pixels.
use pwrake.Prelude.{
  ◌+◌, ◌≤◌, ◌≡◌, refl, ap, ◌∙◌, true, some, ltb, leb, ◌>>=◌, get_elem?, get_elem?-append_left,
  get_elem?-append_right, get_elem?-lt, ℕ, zero, suc, some-inj, List, [], ◌∷◌, ◌++◌, map,
  map-append, arith, length, length-append, if◌then◌else◌,
}
use pwrake.Prelude.Int.{ℤ, ◌+ℤ◌, ◌≤ℤ◌, leb_ℤ}
use pwrake.Detect.Pixels.{
  Pixlist, npix_of, widen, with_pix, setobjrec_pix, set_calls, merge_pixlist,
}

abbrev pub min_ℤ : ℤ → ℤ → ℤ
min_ℤ a b = if leb_ℤ a b then a else b

abbrev pub max_ℤ : ℤ → ℤ → ℤ
max_ℤ a b = if leb_ℤ b a then a else b

min_assoc : (a b c : ℤ) → min_ℤ (min_ℤ a b) c ≡ min_ℤ a (min_ℤ b c)
min_assoc a b c = ground arith

max_assoc : (a b c : ℤ) → max_ℤ (max_ℤ a b) c ≡ max_ℤ a (max_ℤ b c)
max_assoc a b c = ground arith

-- The least and the greatest of `m` and the entries.
unfoldable pub min_of : ℤ → List ℤ → ℤ
min_of m [] = m
min_of m (x ∷ xs) = min_of (min_ℤ m x) xs

unfoldable pub max_of : ℤ → List ℤ → ℤ
max_of m [] = m
max_of m (x ∷ xs) = max_of (max_ℤ m x) xs

min_of-append : (m : ℤ) (xs ys : List ℤ) → min_of m (xs ++ ys) ≡ min_of (min_of m xs) ys
unfolding min_of
min_of-append m [] ys = refl
min_of-append m (x ∷ xs) ys = min_of-append (min_ℤ m x) xs ys

max_of-append : (m : ℤ) (xs ys : List ℤ) → max_of m (xs ++ ys) ≡ max_of (max_of m xs) ys
unfolding max_of
max_of-append m [] ys = refl
max_of-append m (x ∷ xs) ys = max_of-append (max_ℤ m x) xs ys

pub min_of_le : (m : ℤ) (xs : List ℤ) → min_of m xs ≤ℤ m
unfolding min_of
min_of_le m [] = omega arith
min_of_le m (x ∷ xs) = ground (arith, min_of_le (min_ℤ m x) xs)

pub max_of_ge : (m : ℤ) (xs : List ℤ) → m ≤ℤ max_of m xs
unfolding max_of
max_of_ge m [] = omega arith
max_of_ge m (x ∷ xs) = ground (arith, max_of_ge (max_ℤ m x) xs)

min_of-min : (a b : ℤ) (ys : List ℤ) → min_of (min_ℤ a b) ys ≡ min_ℤ a (min_of b ys)
unfolding min_of
min_of-min a b [] = refl
min_of-min a b (y ∷ ys) = rw (min_assoc a b y) (min_of-min a (min_ℤ b y) ys)

max_of-max : (a b : ℤ) (ys : List ℤ) → max_of (max_ℤ a b) ys ≡ max_ℤ a (max_of b ys)
unfolding max_of
max_of-max a b [] = refl
max_of-max a b (y ∷ ys) = rw (max_assoc a b y) (max_of-max a (max_ℤ b y) ys)

widen_lem : (z x lo hi : ℤ) → lo ≤ℤ z → z ≤ℤ hi → widen x (lo, hi) ≡ (min_ℤ lo x, max_ℤ hi x)
widen_lem z x lo hi h1 h2 = ground arith

module _ {F : Type 0} where
  abbrev pub xs_of : Pixlist F → List ℤ
  xs_of pl = map (λ p. p.0) pl.pix

  abbrev pub ys_of : Pixlist F → List ℤ
  ys_of pl = map (λ p. p.1) pl.pix

  -- The sides of the box are the least and the greatest coordinates of `(x, y)` and the pixels.
  pub record IsBoxed (x y : ℤ) (pl : Pixlist F) : Type 0 where
    pub left : pl.xmin ≡ min_of x (xs_of pl)
    pub right : pl.xmax ≡ max_of x (xs_of pl)
    pub bottom : pl.ymin ≡ min_of y (ys_of pl)
    pub top : pl.ymax ≡ max_of y (ys_of pl)

  set-IsBoxed :
      (x y cx cy : ℤ) (v : F) (pl : Pixlist F) → IsBoxed x y pl → IsBoxed x y (with_pix cx cy v pl)
  unfolding with_pix min_of max_of
  set-IsBoxed x y cx cy v pl box =
      let px = cx +ℤ pl.x0 in
      let py = cy +ℤ pl.y0 in
      let xs = xs_of pl in
      let ys = ys_of pl in
      let wx =
        rw (← box.left, ← box.right) at
          (widen_lem x px (min_of x xs) (max_of x xs) (min_of_le x xs) (max_of_ge x xs)) in
      let wy =
        rw (← box.bottom, ← box.top) at
          (widen_lem y py (min_of y ys) (max_of y ys) (min_of_le y ys) (max_of_ge y ys)) in
      record {
        left =
            rw
              (
                map-append (λ p. p.0) pl.pix ((px, py, v) ∷ []),
                min_of-append x xs (px ∷ []),
                wx,
                box.left,
              )
              refl;
        right =
            rw
              (
                map-append (λ p. p.0) pl.pix ((px, py, v) ∷ []),
                max_of-append x xs (px ∷ []),
                wx,
                box.right,
              )
              refl;
        bottom =
            rw
              (
                map-append (λ p. p.1) pl.pix ((px, py, v) ∷ []),
                min_of-append y ys (py ∷ []),
                wy,
                box.bottom,
              )
              refl;
        top =
            rw
              (
                map-append (λ p. p.1) pl.pix ((px, py, v) ∷ []),
                max_of-append y ys (py ∷ []),
                wy,
                box.top,
              )
              refl;
      }

  -- If two objects have the boxes of their pixels and of a point each, the merged object has the
  -- box of all of these.
  pub merge_pixlist-box :
      (x1 y1 x2 y2 : ℤ) (pl src : Pixlist F)
      → IsBoxed x1 y1 pl
      → IsBoxed x2 y2 src
      → let r = merge_pixlist pl src in
        (r.xmin ≡ min_of x1 (xs_of pl ++ x2 ∷ xs_of src))
        × (r.xmax ≡ max_of x1 (xs_of pl ++ x2 ∷ xs_of src))
        × (r.ymin ≡ min_of y1 (ys_of pl ++ y2 ∷ ys_of src))
        × (r.ymax ≡ max_of y1 (ys_of pl ++ y2 ∷ ys_of src))
  unfolding merge_pixlist min_of max_of
  merge_pixlist-box x1 y1 x2 y2 pl src b1 b2 = (
    rw
        (
          min_of-append x1 (xs_of pl) (x2 ∷ xs_of src),
          min_of-min (min_of x1 (xs_of pl)) x2 (xs_of src),
          ← b1.left,
          ← b2.left,
        )
        (ground arith),
    rw
        (
          max_of-append x1 (xs_of pl) (x2 ∷ xs_of src),
          max_of-max (max_of x1 (xs_of pl)) x2 (xs_of src),
          ← b1.right,
          ← b2.right,
        )
        (ground arith),
    rw
        (
          min_of-append y1 (ys_of pl) (y2 ∷ ys_of src),
          min_of-min (min_of y1 (ys_of pl)) y2 (ys_of src),
          ← b1.bottom,
          ← b2.bottom,
        )
        (ground arith),
    rw
        (
          max_of-append y1 (ys_of pl) (y2 ∷ ys_of src),
          max_of-max (max_of y1 (ys_of pl)) y2 (ys_of src),
          ← b1.top,
          ← b2.top,
        )
        (ground arith),
  )

  -- The list after the calls, in arrays that have room.
  unfoldable pub set_all : List (ℤ × ℤ × F) → Pixlist F → Pixlist F
  unfolding with_pix
  set_all [] pl = pl
  set_all ((x, y, v) ∷ calls) pl = with_pix x y v (set_all calls pl)

  -- The arrays always have room.
  pub set_calls-set_all :
      (calls : List (ℤ × ℤ × F)) (pl : Pixlist F)
      → npix_of pl ≤ pl.nalloc
      → (set_calls calls pl ≡ some (set_all calls pl))
        × (npix_of (set_all calls pl) ≤ (set_all calls pl).nalloc)
  unfolding set_calls setobjrec_pix with_pix set_all
  set_calls-set_all [] pl room = (refl, room)
  set_calls-set_all ((x, y, v) ∷ calls) pl room =
      let (same, room') = set_calls-set_all calls pl room in
      let before = set_all calls pl in
      let fits : ltb (npix_of before)
            (if leb before.nalloc (npix_of before) then before.nalloc + 131072 else before.nalloc)
          ≡ true =
        ground (arith, room') in
      (
        rw (same, ◌>>=◌, fits) refl,
        ground (arith, room', length-append before.pix ((x +ℤ before.x0, y +ℤ before.y0, v) ∷ [])),
      )

  pub set_all-IsBoxed :
      (x y : ℤ) (calls : List (ℤ × ℤ × F)) (pl : Pixlist F)
      → IsBoxed x y pl
      → IsBoxed x y (set_all calls pl)
  unfolding set_all
  set_all-IsBoxed x y [] pl box = box
  set_all-IsBoxed x y ((cx, cy, v) ∷ calls) pl box =
      set-IsBoxed x y cx cy v (set_all calls pl) (set_all-IsBoxed x y calls pl box)

  pub set_all-npix :
      (calls : List (ℤ × ℤ × F)) (pl : Pixlist F)
      → npix_of (set_all calls pl) ≡ npix_of pl + length calls
  unfolding set_all with_pix
  set_all-npix [] pl = omega arith
  set_all-npix ((x, y, v) ∷ calls) pl =
      let before = set_all calls pl in
      omega (
        arith,
        set_all-npix calls pl,
        length-append before.pix ((x +ℤ before.x0, y +ℤ before.y0, v) ∷ []),
      )

  pub set_all-same :
      (calls : List (ℤ × ℤ × F)) (pl : Pixlist F)
      → let r = set_all calls pl in (r.x0 ≡ pl.x0) × (r.y0 ≡ pl.y0) × (r.entnum ≡ pl.entnum)
  unfolding set_all with_pix
  set_all-same [] pl = (refl, refl, refl)
  set_all-same ((x, y, v) ∷ calls) pl = set_all-same calls pl

  -- Each call's pixel is in the list.
  pub set_all-entry :
      (calls : List (ℤ × ℤ × F)) (pl : Pixlist F) (n : ℕ) (x y : ℤ) (v : F)
      → get_elem? calls n ≡ some (x, y, v)
      → (k : ℕ) × (get_elem? (set_all calls pl).pix k ≡ some (x +ℤ pl.x0, y +ℤ pl.y0, v))
  unfolding set_all with_pix
  set_all-entry [] pl n x y v h = ground arith
  set_all-entry ((x', y', v') ∷ calls) pl zero x y v h =
      let before = set_all calls pl in
      let (sx, sy, _) = set_all-same calls pl in
      (
        length before.pix,
        get_elem?-append_right before.pix ((x' +ℤ before.x0, y' +ℤ before.y0, v') ∷ [])
              (length before.pix) 0 (omega arith)
            ∙ rw (sx, sy)
                (ap (λ (c : ℤ × ℤ × F). some (c.0 +ℤ pl.x0, c.1 +ℤ pl.y0, c.2)) (some-inj h)),
      )
  set_all-entry ((x', y', v') ∷ calls) pl (suc n) x y v h =
      let before = set_all calls pl in
      let (k, at) = set_all-entry calls pl n x y v h in
      (
        k,
        get_elem?-append_left before.pix ((x' +ℤ before.x0, y' +ℤ before.y0, v') ∷ []) k
              (get_elem?-lt before.pix k at)
            ∙ at,
      )
