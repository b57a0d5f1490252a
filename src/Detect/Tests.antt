-- ===== src/Detect/Tests.antt =====
-- Objects of a small image, with numbers for floats.
use pwrake.Prelude.{
  ℕ, zero, suc, ◌+◌, ◌-◌, ◌*◌, ◌≤◌, ◌<◌, ◌≡◌, ◌≢◌, refl, ◌⊎◌, Bool, List, [], ◌∷◌, ◌++◌, Option,
  some, none, arith, ltb, Perm, Returns, ReturnsUnless, get_elem?, length, true, false,
}
use pwrake.Prelude.Int.{pos, negsuc, ◌+ℤ◌, ◌-ℤ◌}
use pwrake.Sort.Order.{nat_ranked}
use pwrake.Paint.Flood.{doflood3r, flood_greaterthan}
use pwrake.Detect.Pixels.{Pixlist, has_ended, extract_pixlist, merge_pixlist}
use pwrake.Detect.Pixels.Box.{IsBoxed, min_of, max_of, merge_pixlist-box}
use pwrake.Detect.Pixels.Extracted.{IsExtracted, flooded, extract_pixlist-IsExtracted}
use pwrake.Detect.Objects.{Detected, detect_new3}
use pwrake.Detect.Objects.Found.{IsDetected}
use pwrake.Detect.Objects.Grown.{IsAbove}
use pwrake.Detect.Objects.Lost.{IsLost, start_of}
use pwrake.Detect.Objects.Whole.{detect_new3-whole}
use pwrake.Detect.Convert.{Arith, convert_pixlist}
use pwrake.Detect.Convert.Inside.{Pixel, place}
use pwrake.Detect.Convert.Recorded.{IsFirstPeak, convert_pixlist-records}
use pwrake.Detect.Simple.{shrink, is_small, detect_simple_array}
use pwrake.Detect.Simple.Chained.{AreRecords, detect_simple_array-IsChain}
use pwrake.Detect.Simple.Shrunk.{without, shrink-without}
use pwrake.Detect.Strips.{rebuild}
use pwrake.Detect.Strips.Rebuilt.{leaves, rebuild-edge}

abbrev at : List ℕ → ℕ → ℕ
at [] k = 0
at (x ∷ l) zero = x
at (x ∷ l) (suc k) = at l k

-- Three columns and two rows: a pixel of the first row, and one of the last.
abbrev spots : ℕ → ℕ
spots = at (9 ∷ 0 ∷ 0 ∷ 0 ∷ 0 ∷ 8 ∷ [])

abbrev no_marks : ℕ → ℕ
no_marks k = 0

abbrev naturals : Arith ℕ ℕ
naturals = record {
  zero_f = 0;
  add = λ a b. a + b;
  sub = λ a b. a - b;
  mul = λ a b. a * b;
  div = λ a b. a;
  of_int = λ z. 0;
  of_float = λ v. v;
  to_float = λ d. d;
}

abbrev dot : Pixlist ℕ
dot = record {
  entnum = 1;
  nalloc = 1;
  xmin = pos 4;
  xmax = pos 4;
  ymin = pos 1;
  ymax = pos 1;
  x0 = pos 0;
  y0 = pos 0;
  pix = (pos 4, pos 1, 9) ∷ [];
}

abbrev pair : Pixlist ℕ
pair = record {
  entnum = 2;
  nalloc = 2;
  xmin = pos 2;
  xmax = pos 3;
  ymin = pos 1;
  ymax = pos 1;
  x0 = pos 0;
  y0 = pos 0;
  pix = (pos 2, pos 1, 6) ∷ (pos 3, pos 1, 7) ∷ [];
}

dot-IsBoxed : IsBoxed (pos 4) (pos 1) dot
unfolding min_of max_of
dot-IsBoxed = record { left = refl; right = refl; bottom = refl; top = refl }

pair-IsBoxed : IsBoxed (pos 2) (pos 1) pair
unfolding min_of max_of
pair-IsBoxed = record { left = refl; right = refl; bottom = refl; top = refl }

merge_pixlist-box_example :
    ((merge_pixlist dot pair).xmin ≡ min_of (pos 4) (pos 4 ∷ pos 2 ∷ pos 2 ∷ pos 3 ∷ []))
    × ((merge_pixlist dot pair).xmax ≡ max_of (pos 4) (pos 4 ∷ pos 2 ∷ pos 2 ∷ pos 3 ∷ []))
    × ((merge_pixlist dot pair).ymin ≡ min_of (pos 1) (pos 1 ∷ pos 1 ∷ pos 1 ∷ pos 1 ∷ []))
    × ((merge_pixlist dot pair).ymax ≡ max_of (pos 1) (pos 1 ∷ pos 1 ∷ pos 1 ∷ pos 1 ∷ []))
merge_pixlist-box_example =
    merge_pixlist-box (pos 4) (pos 1) (pos 2) (pos 1) dot pair dot-IsBoxed pair-IsBoxed

extract_pixlist-IsExtracted_example :
    ReturnsUnless
      (has_ended (flooded spots 3 2 (pos 0) (pos 0) 1 5 (pos 0) (pos 0) no_marks 9).0 ≡ false)
      (λ r. IsExtracted spots 3 2 (flood_greaterthan 5) (pos 0) (pos 0) (pos 0) (pos 0) 1 r.0 r.1)
      (extract_pixlist spots 3 2 (pos 0) (pos 0) 1 5 (pos 0) (pos 0) no_marks 9)
extract_pixlist-IsExtracted_example =
    extract_pixlist-IsExtracted spots 3 2 (pos 0) (pos 0) 1 5 (pos 0) (pos 0) no_marks 9
      (λ e. ground arith)

-- The flood of this pixel ends.
spot-has_ended :
    has_ended (flooded spots 3 2 (pos 0) (pos 0) 1 5 (pos 0) (pos 0) no_marks 9).0 ≡ true
unfolding doflood3r ◌-ℤ◌ flood_greaterthan ◌+ℤ◌
spot-has_ended = refl

detect_new3-whole_example :
    ReturnsUnless
      (IsLost spots 3 2 5 1 (pos 0) (pos 0) 9 2 0 (start_of no_marks))
      (λ r.
        IsDetected spots 3 2 5 1 (pos 0) (pos 0) r
        × ((i j : ℕ) → i < 3 → j < 2 → IsAbove spots 3 2 5 (i + j * 3) → r.map (i + j * 3) ≢ 0)
        × ((k : ℕ) → no_marks k ≡ 0 → r.map k ≢ 0 → IsAbove spots 3 2 5 k))
      (detect_new3 spots 3 2 5 1 (pos 0) (pos 0) 9 no_marks)
detect_new3-whole_example = detect_new3-whole spots 3 2 5 1 (pos 0) (pos 0) 9 (omega arith) no_marks

abbrev nothing_found : Detected ℕ
nothing_found = record {
  map = no_marks;
  nobj = 0;
  kept = record { objects = []; nmax = 0 };
  edged = record { objects = []; nmax = 0 };
}

abbrev value_or : Option (Detected ℕ) → Detected ℕ
value_or none = nothing_found
value_or (some r) = r

-- The objects of the small image.
abbrev spotted : Detected ℕ
spotted = value_or (detect_new3 spots 3 2 5 1 (pos 0) (pos 0) 9 no_marks)

detect_new3-spotted : detect_new3 spots 3 2 5 1 (pos 0) (pos 0) 9 no_marks ≡ some spotted
unfolding detect_new3 ◌-ℤ◌ ◌+ℤ◌ flood_greaterthan
detect_new3-spotted = refl

-- One object of each kind.
spotted_sizes : (length spotted.kept.objects ≡ 1) × (length spotted.edged.objects ≡ 1)
unfolding detect_new3 ◌-ℤ◌ ◌+ℤ◌ flood_greaterthan
spotted_sizes = (refl, refl)

convert_pixlist-records_example :
    Returns
      (λ r.
        ((n : ℕ) (q : Pixel ℕ)
          → get_elem? pair.pix n ≡ some q
          → (nat_ranked.rank q.2 ≤ nat_ranked.rank r.peak) × (r.map (place r q) ≡ 2))
        × (((r.peak ≡ 6) × (r.ipeak ≡ negsuc 0) × (r.jpeak ≡ negsuc 0))
            ⊎ (IsFirstPeak pair.pix r × (6 < nat_ranked.rank r.peak))))
      (convert_pixlist naturals pair)
convert_pixlist-records_example =
    convert_pixlist-records naturals (pos 2) (pos 1) pair (pos 2, pos 1, 6) ((pos 3, pos 1, 7) ∷ [])
      refl pair-IsBoxed

abbrev is_low : ℕ → Bool
is_low v = ltb v 3

shrink-without_example :
    Returns
      (λ b. Perm b (without is_low (1 ∷ 5 ∷ 2 ∷ 7 ∷ [])))
      (shrink is_low 4 0 (1 ∷ 5 ∷ 2 ∷ 7 ∷ []))
shrink-without_example = shrink-without is_low (1 ∷ 5 ∷ 2 ∷ 7 ∷ [])

abbrev old_objects : List (Option (Pixlist ℕ))
old_objects = some dot ∷ none ∷ some (record pair { ymax = pos 5 }) ∷ []

rebuild-edge_example :
    Returns
      (λ s. Perm s.edge (without (leaves spots 3 2 5 1 (pos 0) (pos 0) 9) old_objects))
      (rebuild spots 3 2 5 1 (pos 0) (pos 0) 9 3 0 old_objects [])
rebuild-edge_example = rebuild-edge spots 3 2 5 1 (pos 0) (pos 0) 9 old_objects []

detect_simple_array-IsChain_example :
    Returns
      (λ obs.
        (edge : List (Pixlist ℕ)) × Perm edge (without (is_small naturals 1) spotted.edged.objects)
        × AreRecords naturals 1 (spotted.kept.objects ++ edge) obs)
      (detect_simple_array naturals spots 3 2 5 1 9)
detect_simple_array-IsChain_example =
    detect_simple_array-IsChain naturals spots 3 2 5 1 9 spotted (omega arith) detect_new3-spotted
