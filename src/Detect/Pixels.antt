-- ===== src/Detect/Pixels.antt =====
-- `pixlist_t` and its operations.
pub mod Box
pub mod Extracted
pub mod Started
use pwrake.Prelude.{
  ℕ, zero, suc, ◌+◌, ◌*◌, Bool, not, ◌&&◌, List, [], ◌∷◌, ◌++◌, Option, none, some, length, ltb,
  leb, ◌==◌, if◌then◌else◌, ◌>>=◌,
}
use pwrake.Prelude.Int.{ℤ, pos, ◌+ℤ◌, ◌-ℤ◌, ltb_ℤ, eqb_ℤ, scale}
use pwrake.Sort.Order.{Ranked}
use pwrake.Paint.Shadows.{Shadows}
use pwrake.Paint.Fill.{Canvas, is_done}
use pwrake.Paint.Flood.{doflood3r, flood_greaterthan}

-- `pixx`, `pixy` and `flux` are one list here, and `npix` is its length.
pub record Pixlist (F : Type 0) : Type 0 where
  pub entnum : ℕ
  pub nalloc : ℕ
  pub xmin : ℤ
  pub xmax : ℤ
  pub ymin : ℤ
  pub ymax : ℤ
  pub x0 : ℤ
  pub y0 : ℤ
  pub pix : List (ℤ × ℤ × F)

abbrev pub npix_of : {F : Type 0} → Pixlist F → ℕ
npix_of pl = length pl.pix

abbrev pub nalloc_min : ℕ
nalloc_min = 131072

-- The tests that widen one axis of the box.
abbrev pub widen : ℤ → ℤ × ℤ → ℤ × ℤ
widen x (lo, hi) = if ltb_ℤ x lo then (x, hi) else if ltb_ℤ hi x then (lo, x) else (lo, hi)

-- The list with one more pixel, in arrays that grow by `nalloc_min` when they are full.
unfoldable pub with_pix : {F : Type 0} → ℤ → ℤ → F → Pixlist F → Pixlist F
with_pix x1 y1 v pl =
    let x = x1 +ℤ pl.x0 in
    let y = y1 +ℤ pl.y0 in
    let xs = widen x (pl.xmin, pl.xmax) in
    let ys = widen y (pl.ymin, pl.ymax) in
    record pl {
      xmin = xs.0;
      xmax = xs.1;
      ymin = ys.0;
      ymax = ys.1;
      nalloc = if leb pl.nalloc (npix_of pl) then pl.nalloc + nalloc_min else pl.nalloc;
      pix = pl.pix ++ (x, y, v) ∷ [];
    }

-- A pixel behind the end of the arrays is a fault.
unfoldable pub setobjrec_pix : {F : Type 0} → ℤ → ℤ → F → Pixlist F → Option (Pixlist F)
unfolding with_pix
setobjrec_pix x1 y1 v pl =
    let r = with_pix x1 y1 v pl in if ltb (npix_of pl) r.nalloc then some r else none

-- The calls of `setfunc` that a flood made, the last one first.
pub set_calls : {F : Type 0} → List (ℤ × ℤ × F) → Pixlist F → Option (Pixlist F)
unfolding setobjrec_pix
set_calls [] pl = some pl
set_calls ((x, y, v) ∷ calls) pl = do before ← set_calls calls pl; setobjrec_pix x y v before

-- `nalloc` becomes the number of pixels; the arrays are new.
unfoldable pub copy_pixlist : {F : Type 0} → Pixlist F → Pixlist F
copy_pixlist src = record src { nalloc = npix_of src }

-- The list that the flood starts from, and the flood of a pixel into a list.
pub new_pixlist : {F : Type 0} → ℕ → ℤ → ℤ → ℤ → ℤ → Pixlist F
new_pixlist id x y x0 y0 = record {
  entnum = id;
  nalloc = nalloc_min;
  xmin = x;
  xmax = x;
  ymin = y;
  ymax = y;
  x0 = x0;
  y0 = y0;
  pix = [];
}

-- The flood came to its end and followed no null pointer.
abbrev pub has_ended : Shadows → Bool
has_ended w = not w.crashed && is_done w

-- The number of new pixels, the list, and the map; a flood that follows a null pointer or does not end
-- within `fuel` turns is a fault.
unfoldable pub extract_pixlist :
    {F : Type 0} ⦃o : Ranked F⦄
    → (ℕ → F)
    → ℕ
    → ℕ
    → ℤ
    → ℤ
    → ℕ
    → F
    → ℤ
    → ℤ
    → (ℕ → ℕ)
    → ℕ
    → Option (ℕ × Pixlist F × (ℕ → ℕ))
unfolding set_calls new_pixlist doflood3r
extract_pixlist pix npx npy x y id thres x0 y0 map fuel =
    let (w, c) = doflood3r pix npx npy (x -ℤ x0) (y -ℤ y0) (flood_greaterthan thres) map id fuel in
    let done = (do
      pl ← set_calls c.calls (new_pixlist id x y x0 y0)
      some (c.npix, record pl { nalloc = npix_of pl }, c.map)) in
    if has_ended w then done else none

-- `g[x0+npx*y0]=pf[i]` for every pixel; the index is an `int`.
pub makeimage_from : {F : Type 0} → ℕ → ℤ → ℤ → List (ℤ × ℤ × F) → (ℤ → F) → ℤ → F
makeimage_from npx xmin ymin [] g = g
makeimage_from npx xmin ymin ((x, y, v) ∷ l) g =
    let idx = x -ℤ xmin +ℤ scale npx (y -ℤ ymin) in
    makeimage_from npx xmin ymin l (λ k. if eqb_ℤ k idx then v else g k)

pub makeimage_pixlist : {F : Type 0} → (ℤ → F) → ℕ → ℤ → ℤ → Pixlist F → ℤ → F
unfolding makeimage_from
makeimage_pixlist g npx xmin ymin pl = makeimage_from npx xmin ymin pl.pix g

pub merge_pixlist : {F : Type 0} → Pixlist F → Pixlist F → Pixlist F
merge_pixlist pl src =
    let npix = npix_of pl + npix_of src in
    record pl {
      nalloc = if ltb pl.nalloc npix then npix else pl.nalloc;
      pix = pl.pix ++ src.pix;
      xmin = if ltb_ℤ src.xmin pl.xmin then src.xmin else pl.xmin;
      xmax = if ltb_ℤ pl.xmax src.xmax then src.xmax else pl.xmax;
      ymin = if ltb_ℤ src.ymin pl.ymin then src.ymin else pl.ymin;
      ymax = if ltb_ℤ pl.ymax src.ymax then src.ymax else pl.ymax;
    }
