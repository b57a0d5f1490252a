-- ===== src/Detect/Objects.antt =====
-- `detect_new3`: every pixel above the threshold that no object has yet starts one.
pub mod Found
pub mod Grown
pub mod Lost
pub mod Stepped
pub mod Whole
use pwrake.Prelude.{
  ℕ, zero, suc, ◌+◌, ◌-◌, ◌*◌, Bool, List, [], ◌∷◌, ◌++◌, Option, none, some, length, ltb, leb,
  ◌==◌, if◌then◌else◌, ◌>>=◌,
}
use pwrake.Prelude.Int.{ℤ, pos, ◌+ℤ◌, ◌-ℤ◌, eqb_ℤ}
use pwrake.Sort.Order.{Ranked, gt}
use pwrake.Detect.Pixels.{Pixlist, npix_of, copy_pixlist, extract_pixlist}

-- An array of objects, with the entries that it has room for.
pub record Bucket (F : Type 0) : Type 0 where
  pub objects : List (Pixlist F)
  pub nmax : ℕ

abbrev pub nmaxstep : ℕ
nmaxstep = 50

-- `pllist[nobj]=...; nobj++; if (nobj>=nmax) { nmax+=nmaxstep; realloc }`
unfoldable pub push : {F : Type 0} → Pixlist F → Bucket F → Option (Bucket F)
unfolding copy_pixlist
push pl b =
    let nobj = suc (length b.objects) in
    let stored = some (record {
      objects = b.objects ++ copy_pixlist pl ∷ [];
      nmax = if leb b.nmax nobj then b.nmax + nmaxstep else b.nmax;
    }) in
    if ltb (length b.objects) b.nmax then stored else none

pub record Detected (F : Type 0) : Type 0 where
  pub map : ℕ → ℕ
  pub nobj : ℕ
  pub kept : Bucket F
  pub edged : Bucket F

module _ {F : Type 0} ⦃o : Ranked F⦄ (pix : ℕ → F) (npx npy : ℕ) (thres : F) (npix_min : ℕ)
    (x0 y0 : ℤ) (fuel : ℕ) where
  -- An object that has been filled_list: it is edged, kept, or too small.
  pub store_object : ℕ → Pixlist F → Detected F → Option (Detected F)
  unfolding push
  store_object npix pl st =
      if eqb_ℤ pl.ymax (y0 +ℤ pos npy -ℤ pos 1)
      then (push pl st.edged >>= λ b. some (record st { edged = b }))
      else if leb npix_min npix
      then (push pl st.kept >>= λ b. some (record st { kept = b }))
      else some st

  -- The body of the two loops at the pixel `(i, j)`.
  pub detect_pixel : ℕ → ℕ → Detected F → Option (Detected F)
  unfolding store_object extract_pixlist
  detect_pixel j i st =
      let idx = i + j * npx in
      let fresh = (do
        (npix, pl, map) ←
            extract_pixlist pix npx npy (pos i +ℤ x0) (pos j +ℤ y0) (st.nobj + 1) thres x0 y0 st.map
              fuel
        store_object npix pl (record st { map = map; nobj = suc st.nobj })) in
      if gt (pix idx) thres then if st.map idx == 0 then fresh else some st else some st

  -- `for(i=0;i<npx;i++)`, with the rounds left.
  pub detect_row : ℕ → ℕ → ℕ → Detected F → Option (Detected F)
  unfolding detect_pixel
  detect_row j zero i st = some st
  detect_row j (suc left) i st = detect_pixel j i st >>= detect_row j left (suc i)

  pub detect_rows : ℕ → ℕ → Detected F → Option (Detected F)
  unfolding detect_row
  detect_rows zero j st = some st
  detect_rows (suc left) j st = detect_row j npx 0 st >>= detect_rows left (suc j)

  unfoldable pub detect_new3 : (ℕ → ℕ) → Option (Detected F)
  unfolding detect_rows
  detect_new3 map =
      let empty : Bucket F = record { objects = []; nmax = 180 } in
      detect_rows npy 0 (record { map = map; nobj = 0; kept = empty; edged = empty })
