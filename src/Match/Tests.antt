-- ===== src/Match/Tests.antt =====
-- The catalog program on small catalogs, with numbers for floats.
use pwrake.Prelude.{
  ℕ, zero, suc, ◌+◌, ◌-◌, ◌≡◌, refl, Bool, true, false, List, [], ◌∷◌, some, none, arith, map, leb,
  get_elem?, Returns,
}
use pwrake.Sort.Order.{nat_ranked}
use pwrake.Match.Rows.{CatalogRow, Trig}
use pwrake.Match.Scan.{Scanner, Status, scan_line, read_file, ncols, col_lat}
use pwrake.Match.Scan.Words.{words, AllRecorded}
use pwrake.Match.Scan.Columns.{scan_line-words}
use pwrake.Match.Scan.Stale.{scan_line-latitude_stale}
use pwrake.Match.Scan.Ordered.{IsAscending, read_file-IsAscending}
use pwrake.Match.Cross.{angle, xmatch}
use pwrake.Match.Cross.Nearest.{MatchedAt, xmatch-nearest}
use pwrake.Match.Reduce.{reduce_dup}
use pwrake.Match.Reduce.Mutual.{IsClosed}
use pwrake.Match.Reduce.Kept.{Keeps, IsBeaten, reduce_dup-Keeps}
use pwrake.Match.Run.{Garbage, run, run-Keeps}

-- With these functions `angle` is a sum of differences.
abbrev grid : Trig ℕ
grid = record {
  mul = λ a b. (a - b) + (b - a);
  add = λ a b. a + b;
  cos = λ a. a;
  sin = λ a. a;
  acos = λ a. a;
  d2r = 0;
  half_turn = 180;
}

-- The value of a column's first byte.
abbrev first_byte : List ℕ → ℕ
first_byte [] = 0
first_byte (ch ∷ rest) = ch

abbrev on_scale : ℕ → ℕ → Bool
on_scale lon lat = false

abbrev start : Scanner
start = record { status = Status.word; count = 7; len = 2; apos = λ k. 5; alen = λ k. 3 }

abbrev garbage : Garbage
garbage = record { scanner = start; buf = 57 ∷ 57 ∷ 57 ∷ [] }

abbrev fill : ℕ → List ℕ → List ℕ
fill zero s = s
fill (suc n) s = 65 ∷ 32 ∷ fill n s

-- A line of seventeen words, of which three are read.
abbrev source : ℕ → ℕ → ℕ → List ℕ
source err lon lat = fill 2 (err ∷ 32 ∷ fill 12 (lon ∷ 32 ∷ lat ∷ 0 ∷ []))

-- A line of sixteen words.
abbrev short_line : List ℕ
short_line = fill 15 (66 ∷ 0 ∷ [])

abbrev row : ℕ → ℕ → ℕ → ℕ → CatalogRow ℕ
row line err lon lat = record {
  line = line;
  lon = lon;
  lat = lat;
  err = err;
  min_ang = 180;
  min_idx = none;
}

abbrev comment_line : List ℕ
comment_line = 35 ∷ 0 ∷ []

abbrev lines1 : List (List ℕ)
lines1 = comment_line ∷ source 51 70 65 ∷ source 49 90 65 ∷ []

abbrev lines2 : List (List ℕ)
lines2 = source 50 70 66 ∷ []

abbrev cat1 : List (CatalogRow ℕ)
cat1 = row 1 51 70 65 ∷ row 2 49 90 65 ∷ []

abbrev cat2 : List (CatalogRow ℕ)
cat2 = row 0 50 70 66 ∷ []

read_file-lines1 : read_file first_byte on_scale 180 start (57 ∷ 57 ∷ 57 ∷ []) lines1 ≡ some cat1
unfolding read_file
read_file-lines1 = refl

read_file-lines2 : read_file first_byte on_scale 180 start (57 ∷ 57 ∷ 57 ∷ []) lines2 ≡ some cat2
unfolding read_file
read_file-lines2 = refl

run_both :
    run grid first_byte on_scale on_scale 9 garbage garbage lines1 lines2
    ≡ some (
      record { kept = comment_line ∷ source 49 90 65 ∷ []; nmatch = 1; nrej = 1 },
      record { kept = source 50 70 66 ∷ []; nmatch = 1; nrej = 0 },
    )
unfolding run
run_both = refl

scan_line-words_example :
    Returns
      (λ t. AllRecorded (source 51 70 65) 2 t (words [] (source 51 70 65)))
      (scan_line 0 (source 51 70 65) (record start { status = Status.space; count = 0 }))
unfolding words
scan_line-words_example = scan_line-words (source 51 70 65) start (ground arith) (omega arith)

scan_line-latitude_stale_example :
    Returns
      (λ t. (leb ncols t.count ≡ true) × (t.apos col_lat ≡ 5) × (t.alen col_lat ≡ 3))
      (scan_line 0 short_line (record start { status = Status.space; count = 0 }))
unfolding words
scan_line-latitude_stale_example = scan_line-latitude_stale short_line start (ground arith) refl

-- One byte of the line, with two bytes that `buf` held.
read_file-IsAscending_example : IsAscending cat1
read_file-IsAscending_example =
    read_file-IsAscending first_byte on_scale 180 start (57 ∷ 57 ∷ 57 ∷ []) lines1 read_file-lines1

xmatch-nearest_example :
    ((i : ℕ) (c : CatalogRow ℕ)
      → get_elem? cat1 i ≡ some c
      → MatchedAt grid 9 (xmatch grid 9 cat1 cat2).0 i c (map (λ c2. angle grid c c2) cat2))
    × ((j : ℕ) (c : CatalogRow ℕ)
        → get_elem? cat2 j ≡ some c
        → MatchedAt grid 9 (xmatch grid 9 cat1 cat2).1 j c (map (λ c1. angle grid c1 c) cat1))
xmatch-nearest_example = xmatch-nearest grid 9 cat1 cat2

abbrev to : ℕ → CatalogRow ℕ → CatalogRow ℕ
to j c = record c { min_ang = 3; min_idx = some j }

abbrev out1 : List (CatalogRow ℕ)
out1 = to 0 (row 1 51 70 65) ∷ row 2 49 90 65 ∷ []

abbrev out2 : List (CatalogRow ℕ)
out2 = to 0 (row 0 50 70 66) ∷ []

out1-IsAscending : IsAscending out1
out1-IsAscending zero c zero d h1 h2 lt = ground arith
out1-IsAscending zero c (suc zero) d h1 h2 lt = ground arith
out1-IsAscending (suc zero) c (suc zero) d h1 h2 lt = ground arith
out1-IsAscending (suc zero) c zero d h1 h2 lt = ground arith
out1-IsAscending i c (suc (suc k)) d h1 h2 lt = ground arith
out1-IsAscending (suc (suc i)) c k d h1 h2 lt = ground arith

out1-IsClosed : IsClosed out1 out2
out1-IsClosed zero c j h e =
    let same : j ≡ 0 = ground arith in (to 0 (row 0 50 70 66), ground arith)
out1-IsClosed (suc zero) c j h e = ground arith
out1-IsClosed (suc (suc i)) c j h e = ground arith

reduce_dup-Keeps_example :
    Returns
      (λ r. Keeps (IsBeaten false out1 out2) 0 lines1 r.kept)
      (reduce_dup lines1 out1 out2 false)
reduce_dup-Keeps_example = reduce_dup-Keeps false lines1 out1 out2 out1-IsAscending out1-IsClosed

run-Keeps_example :
    Returns
      (λ r.
        Keeps
          (IsBeaten false (xmatch grid 9 cat1 cat2).0 (xmatch grid 9 cat1 cat2).1)
          0
          lines1
          r.0.kept
        × Keeps
            (IsBeaten true (xmatch grid 9 cat1 cat2).1 (xmatch grid 9 cat1 cat2).0)
            0
            lines2
            r.1.kept)
      (run grid first_byte on_scale on_scale 9 garbage garbage lines1 lines2)
run-Keeps_example =
    run-Keeps grid first_byte on_scale on_scale 9 garbage garbage lines1 lines2 cat1 cat2
      read_file-lines1 read_file-lines2
