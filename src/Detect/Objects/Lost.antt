-- ===== src/Detect/Objects/Lost.antt =====
-- The flood that `detect_new3` comes to and that goes wrong.
use pwrake.Prelude.{ℕ, suc, ◌+◌, ◌*◌, ◌<◌, ◌≡◌, refl, some, false, arith, ◌>>=◌, []}
use pwrake.Prelude.Int.{ℤ, pos}
use pwrake.Sort.Order.{Ranked}
use pwrake.Paint.Flood.{doflood3r, flood_greaterthan}
use pwrake.Detect.Pixels.{has_ended}
use pwrake.Detect.Objects.{Detected, detect_pixel, detect_row, detect_rows}
use pwrake.Detect.Objects.Grown.{IsAbove}

module _ {F : Type 0} ⦃o : Ranked F⦄ (pix : ℕ → F) (npx npy : ℕ) (thres : F) (npix_min : ℕ)
    (x0 y0 : ℤ) (fuel : ℕ) where
  -- The pixel `(i, j)` is above the threshold and not marked yet, and its flood follows a null pointer
  -- or does not end within its turns.
  pub record IsLostAt (i j : ℕ) (st : Detected F) : Type 0 where
    pub above : IsAbove pix npx npy thres (i + j * npx)
    pub unmarked : st.map (i + j * npx) ≡ 0
    pub bad :
        has_ended
          (doflood3r pix npx npy
            (pos i)
            (pos j)
            (flood_greaterthan thres)
            st.map
            (st.nobj + 1)
            fuel).0
        ≡ false

  -- The scan of the row `j` from the column `i` comes to such a pixel among the next `left`.
  pub data IsLostInRow (j left i : ℕ) (st : Detected F) : Type 0 where
    at_column :
        (k : ℕ) (s : Detected F)
        → k < left
        → detect_row pix npx npy thres npix_min x0 y0 fuel j k i st ≡ some s
        → IsLostAt (i + k) j s
        → IsLostInRow j left i st

  -- The scan from the row `j` comes to such a pixel in the next `left` rows.
  pub data IsLost (left j : ℕ) (st : Detected F) : Type 0 where
    at_row :
        (k : ℕ) (s : Detected F)
        → k < left
        → detect_rows pix npx npy thres npix_min x0 y0 fuel k j st ≡ some s
        → IsLostInRow (j + k) npx 0 s
        → IsLost left j st

  pub IsLostInRow-here :
      (j left i : ℕ) (st : Detected F) → IsLostAt i j st → IsLostInRow j (suc left) i st
  unfolding detect_row
  IsLostInRow-here j left i st l =
      let same : i ≡ i + 0 = omega arith in at_column 0 st (omega arith) refl (rw same at l)

  pub IsLostInRow-next :
      (j left i : ℕ) (st s : Detected F)
      → detect_pixel pix npx npy thres npix_min x0 y0 fuel j i st ≡ some s
      → IsLostInRow j left (suc i) s
      → IsLostInRow j (suc left) i st
  unfolding detect_row
  IsLostInRow-next j left i st s first (at_column k s' within run l) =
      let same : suc i + k ≡ i + suc k = omega arith in
      at_column (suc k) s' (omega (arith, within)) (rw (first, ◌>>=◌) run) (rw same at l)

  pub IsLost-here : (left j : ℕ) (st : Detected F) → IsLostInRow j npx 0 st → IsLost (suc left) j st
  unfolding detect_rows
  IsLost-here left j st l =
      let same : j ≡ j + 0 = omega arith in at_row 0 st (omega arith) refl (rw same at l)

  pub IsLost-next :
      (left j : ℕ) (st s : Detected F)
      → detect_row pix npx npy thres npix_min x0 y0 fuel j npx 0 st ≡ some s
      → IsLost left (suc j) s
      → IsLost (suc left) j st
  unfolding detect_rows
  IsLost-next left j st s first (at_row k s' within run l) =
      let same : suc j + k ≡ j + suc k = omega arith in
      at_row (suc k) s' (omega (arith, within)) (rw (first, ◌>>=◌) run) (rw same at l)

-- The state that the scan begins with.
abbrev pub start_of : {F : Type 0} → (ℕ → ℕ) → Detected F
start_of map = record {
  map = map;
  nobj = 0;
  kept = record { objects = []; nmax = 180 };
  edged = record { objects = []; nmax = 180 };
}
