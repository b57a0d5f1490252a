-- ===== src/Detect/Convert.antt =====
-- `convert_pixlist`: the record of an object, from its pixels.
use pwrake.Prelude.{
  ℕ, zero, suc, ◌+◌, ◌*◌, Bool, ◌&&◌, List, [], ◌∷◌, Option, none, some, if◌then◌else◌, ◌>>=◌,
}
use pwrake.Prelude.Int.{ℤ, pos, negsuc, ◌+ℤ◌, ◌-ℤ◌, leb_ℤ, ltb_ℤ, eqb_ℤ, scale, pos_part}
use pwrake.Sort.Order.{Ranked, lt}
use pwrake.Detect.Pixels.{Pixlist, npix_of}
pub mod Inside
pub mod Recorded

-- C's arithmetic on doubles, and the conversions of an `int` and a `float` and to a `float`.
pub record Arith (F D : Type 0) : Type 0 where
  pub zero_f : D
  pub add : D → D → D
  pub sub : D → D → D
  pub mul : D → D → D
  pub div : D → D → D
  pub of_int : ℤ → D
  pub of_float : F → D
  pub to_float : D → F

-- `objrec_t`, without the fields that nothing sets here. `map` is a function of the index. In the loop the
-- moments are the variables of type `double`, at the end floats.
pub record Objrec (F G : Type 0) : Type 0 where
  pub entnum : ℕ
  pub npix : ℕ
  pub xmin : ℤ
  pub xmax : ℤ
  pub ymin : ℤ
  pub ymax : ℤ
  pub xc : G
  pub yc : G
  pub fiso : G
  pub peak : F
  pub ipeak : ℤ
  pub jpeak : ℤ
  pub map : ℤ → ℕ

-- `ob->map[idx]=id`, in an array of `npx*npy` entries.
pub put_map : ℤ → ℤ → ℤ → ℕ → (ℤ → ℕ) → Option (ℤ → ℕ)
put_map npx npy idx id map =
    if leb_ℤ (pos 0) idx && ltb_ℤ idx (pos (pos_part npx * pos_part npy))
    then some (λ k. if eqb_ℤ k idx then id else map k)
    else none

module _ {F D : Type 0} ⦃o : Ranked F⦄ (m : Arith F D) where
  -- One round of the loop: the peak, the map, and the moments.
  pub convert_pixel : ℤ × ℤ × F → Objrec F D → Option (Objrec F D)
  unfolding put_map
  convert_pixel (x, y, v) ob = do
    let npx = ob.xmax -ℤ ob.xmin +ℤ pos 1
    let npy = ob.ymax -ℤ ob.ymin +ℤ pos 1
    map ← put_map npx npy (x -ℤ ob.xmin +ℤ scale (pos_part npx) (y -ℤ ob.ymin)) ob.entnum ob.map
    let fiso = m.add ob.fiso (m.of_float v)
    let higher = lt ob.peak v
    some (record ob {
      peak = if higher then v else ob.peak;
      ipeak = if higher then x else ob.ipeak;
      jpeak = if higher then y else ob.jpeak;
      map = map;
      fiso = fiso;
      xc = m.add ob.xc (m.div (m.mul (m.sub (m.of_int x) ob.xc) (m.of_float v)) fiso);
      yc = m.add ob.yc (m.div (m.mul (m.sub (m.of_int y) ob.yc) (m.of_float v)) fiso);
    })

  pub convert_pixels : List (ℤ × ℤ × F) → Objrec F D → Option (Objrec F D)
  unfolding convert_pixel
  convert_pixels [] ob = some ob
  convert_pixels (p ∷ l) ob = convert_pixel p ob >>= convert_pixels l

  -- The peak starts from `flux[0]`, with no place.
  pub start_objrec : Pixlist F → F → Objrec F D
  start_objrec pl first = record {
    entnum = pl.entnum;
    npix = npix_of pl;
    xmin = pl.xmin;
    xmax = pl.xmax;
    ymin = pl.ymin;
    ymax = pl.ymax;
    xc = m.zero_f;
    yc = m.zero_f;
    fiso = m.zero_f;
    peak = first;
    ipeak = negsuc 0;
    jpeak = negsuc 0;
    map = λ k. 0;
  }

  -- `ob->xc=(float)xc;` and its like.
  abbrev pub narrowed : Objrec F D → Objrec F F
  narrowed ob = record {
    entnum = ob.entnum;
    npix = ob.npix;
    xmin = ob.xmin;
    xmax = ob.xmax;
    ymin = ob.ymin;
    ymax = ob.ymax;
    xc = m.to_float ob.xc;
    yc = m.to_float ob.yc;
    fiso = m.to_float ob.fiso;
    peak = ob.peak;
    ipeak = ob.ipeak;
    jpeak = ob.jpeak;
    map = ob.map;
  }

  unfoldable pub convert_pixlist : Pixlist F → Option (Objrec F F)
  unfolding convert_pixels start_objrec
  convert_pixlist pl = elim pl.pix [
    | [] ↦ none
    | p ∷ l ↦ do ob ← convert_pixels (p ∷ l) (start_objrec pl p.2); some (narrowed ob)
  ]
