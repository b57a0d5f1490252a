-- ===== src/Paint/Faults.antt =====
-- Floods that go wrong in demo/spcam/sdfred20100528/mosaic/libsrc/paint_sub.c: images of ones and zeros,
-- row by row, whose ones pass.
use pwrake.Prelude.{ℕ, zero, suc, ◌≡◌, refl, Bool, true, false, List, [], ◌∷◌, ltb}
use pwrake.Prelude.Int.{pos, ◌+ℤ◌, ◌-ℤ◌}
use pwrake.Paint.Fill.{is_done}
use pwrake.Paint.Flood.{doflood3r}

abbrev pub at : List ℕ → ℕ → ℕ
at [] k = 0
at (x ∷ l) zero = x
at (x ∷ l) (suc k) = at l k

abbrev is_one : ℕ → Bool
is_one v = ltb 0 v

-- Six columns: the pixel in column 4 and row 4 touches no other.
abbrev lone : ℕ → ℕ
lone = at (
    0 ∷ 0 ∷ 0 ∷ 0 ∷ 0 ∷ 1 ∷ 1 ∷ 1 ∷ 1 ∷ 0 ∷ 0 ∷ 1 ∷ 1 ∷ 0 ∷ 1 ∷ 1 ∷ 1 ∷ 1 ∷ 1 ∷ 1 ∷ 0 ∷ 0 ∷ 0 ∷ 1
    ∷ 1 ∷ 0 ∷ 1 ∷ 0 ∷ 1 ∷ 0 ∷ 1 ∷ 1 ∷ 1 ∷ 0 ∷ 0 ∷ 0 ∷ [])

-- The flood from column 1 and row 3 ends, and has marked the lone pixel, whose neighbours do not pass.
lone_marked :
    (is_done (doflood3r lone 6 6 (pos 1) (pos 3) is_one (λ k. 0) 7 60).0 ≡ true)
    × ((doflood3r lone 6 6 (pos 1) (pos 3) is_one (λ k. 0) 7 60).1.map 28 ≡ 7)
    × (lone 22 ≡ 0)
    × (lone 27 ≡ 0)
    × (lone 29 ≡ 0)
    × (lone 34 ≡ 0)
unfolding doflood3r ◌+ℤ◌ ◌-ℤ◌
lone_marked = (refl, refl, refl, refl, refl, refl)

-- Eleven columns: `removeOverlap` follows a null pointer.
abbrev broken : ℕ → ℕ
broken = at (
    0 ∷ 0 ∷ 1 ∷ 0 ∷ 0 ∷ 0 ∷ 0 ∷ 0 ∷ 1 ∷ 1 ∷ 1 ∷ 1 ∷ 1 ∷ 1 ∷ 0 ∷ 0 ∷ 0 ∷ 0 ∷ 0 ∷ 0 ∷ 0 ∷ 1 ∷ 0 ∷ 0
    ∷ 1 ∷ 0 ∷ 0 ∷ 0 ∷ 0 ∷ 0 ∷ 0 ∷ 0 ∷ 1 ∷ 1 ∷ 1 ∷ 1 ∷ 1 ∷ 0 ∷ 1 ∷ 1 ∷ 1 ∷ 1 ∷ 1 ∷ 1 ∷ 1 ∷ 0 ∷ 0 ∷ 1
    ∷ 1 ∷ 1 ∷ 0 ∷ 1 ∷ 0 ∷ 0 ∷ 1 ∷ 1 ∷ 0 ∷ 0 ∷ 1 ∷ 0 ∷ 0 ∷ 0 ∷ 1 ∷ 0 ∷ 0 ∷ 1 ∷ 0 ∷ 0 ∷ 0 ∷ 0 ∷ 0 ∷ 1
    ∷ 0 ∷ 1 ∷ 0 ∷ 0 ∷ 1 ∷ 1 ∷ 1 ∷ 1 ∷ 1 ∷ 1 ∷ 1 ∷ 1 ∷ 1 ∷ 0 ∷ 0 ∷ 1 ∷ [])

broken_crashed : (doflood3r broken 11 8 (pos 8) (pos 3) is_one (λ k. 0) 7 90).0.crashed ≡ true
unfolding doflood3r ◌+ℤ◌ ◌-ℤ◌
broken_crashed = refl

-- Eight columns and 24 pixels that pass: after 300 turns shadows are still waiting.
abbrev endless : ℕ → ℕ
endless = at (
    1 ∷ 1 ∷ 1 ∷ 0 ∷ 0 ∷ 0 ∷ 0 ∷ 0 ∷ 1 ∷ 0 ∷ 1 ∷ 1 ∷ 1 ∷ 1 ∷ 1 ∷ 1 ∷ 1 ∷ 0 ∷ 1 ∷ 0 ∷ 0 ∷ 1 ∷ 0 ∷ 1
    ∷ 0 ∷ 0 ∷ 0 ∷ 1 ∷ 0 ∷ 1 ∷ 0 ∷ 1 ∷ 1 ∷ 1 ∷ 1 ∷ 1 ∷ 1 ∷ 1 ∷ 0 ∷ 1 ∷ [])

endless_waiting : is_done (doflood3r endless 8 5 (pos 7) (pos 3) is_one (λ k. 0) 7 300).0 ≡ false
unfolding doflood3r ◌+ℤ◌ ◌-ℤ◌
endless_waiting = refl
