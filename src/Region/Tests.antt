-- ===== src/Region/Tests.antt =====
-- A rectangle that sticks out of a small image.
use pwrake.Prelude.{ℕ, ◌≡◌, refl, List, [], ◌∷◌, some, arith, replicate, Returns}
use pwrake.Prelude.Int.{pos, negsuc, ◌+ℤ◌, ◌-ℤ◌}
use pwrake.Region.{imextra}
use pwrake.Region.Shown.{IsShown, imextra-IsShown}

-- Two rows of three pixels.
abbrev image : List ℕ
image = 11 ∷ 12 ∷ 13 ∷ 21 ∷ 22 ∷ 23 ∷ []

imextra-image :
    imextra 0 image 3 2 (negsuc 0) (pos 1) (pos 1) (pos 2) (replicate 6 9)
    ≡ some (pos 2, 0 ∷ 21 ∷ 22 ∷ 0 ∷ 0 ∷ 0 ∷ [])
unfolding imextra ◌+ℤ◌ ◌-ℤ◌
imextra-image = refl

-- Rows above the image are not an error, and give a number of pixels that is not positive.
imextra_above :
    imextra 0 image 3 2 (pos 0) (pos 4) (pos 0) (pos 4) (replicate 1 9) ≡ some (negsuc 1, 0 ∷ [])
unfolding imextra ◌+ℤ◌ ◌-ℤ◌
imextra_above = refl

imextra-IsShown_example :
    Returns
      (λ r. IsShown 0 image 3 2 (negsuc 0) (pos 1) 2 1 r.1)
      (imextra 0 image 3 2 (negsuc 0) (pos 1) (negsuc 0 +ℤ pos 2) (pos 1 +ℤ pos 1) (replicate 6 9))
imextra-IsShown_example =
    imextra-IsShown 0 image 3 2 (negsuc 0) (pos 1) 2 1 (replicate 6 9) (omega arith) (omega arith)
      (omega arith) (omega arith)
