-- ===== src/Detect/Convert/Inside.antt =====
-- The record of an object with the box of its pixels.
use pwrake.Prelude.{
  grid_bound, ℕ, zero, suc, ◌*◌, ◌<◌, ◌≡◌, ap, ◌∙◌, true, ◌&&◌, List, [], ◌∷◌, map, some, arith,
  some-inj, get_elem?,
}
use pwrake.Prelude.Int.{ℤ, pos, ◌+ℤ◌, ◌-ℤ◌, ◌≤ℤ◌, leb_ℤ, ltb_ℤ, scale, pos_part, neg_part}
use pwrake.Detect.Pixels.Box.{min_of, max_of, min_ℤ, max_ℤ, min_of_le, max_of_ge}
use pwrake.Detect.Convert.{Objrec}

-- The least and the greatest bound each entry.
pub min_of_each :
    {A : Type 0} (f : A → ℤ) (m : ℤ) (l : List A) (n : ℕ) (a : A)
    → get_elem? l n ≡ some a
    → min_of m (map f l) ≤ℤ f a
unfolding min_of
min_of_each f m [] n a h = ground arith
min_of_each f m (b ∷ l) zero a h =
    ground (arith, ap f (some-inj h), min_of_le (min_ℤ m (f b)) (map f l))
min_of_each f m (b ∷ l) (suc n) a h = min_of_each f (min_ℤ m (f b)) l n a h

pub max_of_each :
    {A : Type 0} (f : A → ℤ) (m : ℤ) (l : List A) (n : ℕ) (a : A)
    → get_elem? l n ≡ some a
    → f a ≤ℤ max_of m (map f l)
unfolding max_of
max_of_each f m [] n a h = ground arith
max_of_each f m (b ∷ l) zero a h =
    ground (arith, ap f (some-inj h), max_of_ge (max_ℤ m (f b)) (map f l))
max_of_each f m (b ∷ l) (suc n) a h = max_of_each f (max_ℤ m (f b)) l n a h

pub span :
    (lo x hi : ℤ)
    → lo ≤ℤ x
    → x ≤ℤ hi
    → (pos_part (x -ℤ lo) < pos_part (hi -ℤ lo +ℤ pos 1)) × (neg_part (x -ℤ lo) ≡ 0)
unfolding ◌-ℤ◌ ◌+ℤ◌
span lo x hi h1 h2 = ground arith

pub grid_index :
    (d e : ℤ) (w h : ℕ)
    → neg_part d ≡ 0
    → neg_part e ≡ 0
    → pos_part d < w
    → pos_part e < h
    → (leb_ℤ (pos 0) (d +ℤ scale w e) && ltb_ℤ (d +ℤ scale w e) (pos (w * h))) ≡ true
unfolding ◌+ℤ◌
grid_index d e w h nd ne hd he =
    let bound = grid_bound w h (pos_part d) (pos_part e) hd he in
    let nothing : w * neg_part e ≡ 0 = ap (λ z. w * z) ne ∙ omega arith in
    ground (arith, bound, nothing)

abbrev pub Pixel : Type 0 → Type 0
Pixel F = ℤ × ℤ × F

module _ {F G : Type 0} where
  abbrev pub IsWithin : Objrec F G → Pixel F → Type 0
  IsWithin ob p = (ob.xmin ≤ℤ p.0) × (p.0 ≤ℤ ob.xmax) × (ob.ymin ≤ℤ p.1) × (p.1 ≤ℤ ob.ymax)

  -- Where a pixel stands in the map of an object.
  abbrev pub place : Objrec F G → Pixel F → ℤ
  place ob p = p.0 -ℤ ob.xmin +ℤ scale (pos_part (ob.xmax -ℤ ob.xmin +ℤ pos 1)) (p.1 -ℤ ob.ymin)
