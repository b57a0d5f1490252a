-- ===== src/Match/Scan/Stale.antt =====
-- What one line leaves behind for the next: positions of columns that it lacks, and bytes of `buf`.
use pwrake.Prelude.{
  ℕ, suc, ◌≤◌, ◌<◌, ◌≡◌, ◌≢◌, refl, inl, inr, Bool, Bool-cases, true, List, [], ◌∷◌, ◌++◌, some,
  arith, length, drop, take, leb, ◌==◌, ==→≡, Returns, returns, Returns-inv, >>=-inv,
  take-append-drop,
}
use pwrake.Match.Scan.{
  Scanner, Status, ends_line, is_blank, scan_byte, scan_end, scan_line, strncpy, read_column,
  col_lat, ncols,
}
use pwrake.Match.Scan.Words.{words, Ended, still-Ended}
use pwrake.Match.Scan.Columns.{scan_line-words}

-- From `st` to `t`: a column is counted or not, and positions from the new count on are old.
record Keeps (st t : Scanner) : Type 0 where
  grows : st.count ≤ t.count
  open_word : st.status ≡ Status.word → st.count < t.count
  alen_old : (k : ℕ) → t.count ≤ k → t.alen k ≡ st.alen k
  apos_old : (k : ℕ) → t.count ≤ k → t.apos k ≡ st.apos k

scan_end-Keeps : (st : Scanner) {t : Scanner} → scan_end st ≡ some t → Keeps st t
unfolding scan_end
scan_end-Keeps st {t} h = record {
  grows = ground arith;
  open_word = ground arith;
  alen_old = λ k le. ground arith;
  apos_old = λ k le. ground arith;
}

scan_byte-Keeps :
    (i : ℕ) (b : Bool) (st u t : Scanner) → scan_byte i b st ≡ some u → Keeps u t → Keeps st t
unfolding scan_byte
scan_byte-Keeps i b st u t h v = record {
  grows = ground (arith, v.grows);
  open_word = λ e. ground (arith, v.grows, v.open_word);
  alen_old = λ k le. ground (arith, v.alen_old k, v.grows, v.open_word);
  apos_old = λ k le. ground (arith, v.apos_old k, v.grows, v.open_word);
}

scan_line-Keeps :
    (i : ℕ) (s : List ℕ) (st : Scanner) {t : Scanner}
    → Ended s
    → scan_line i s st ≡ some t
    → Keeps st t
unfolding scan_line
scan_line-Keeps i [] st ended h = absurd ended
scan_line-Keeps i (ch ∷ s) st {t} ended h = elim (Bool-cases (ends_line ch)) [
  | inl e ↦ scan_end-Keeps st (rw e at h)
  | inr e ↦
      let (u, first, rest) =
        >>=-inv (scan_byte i (is_blank ch) st) (scan_line (suc i) s) (rw e at h) in
      scan_byte-Keeps i (is_blank ch) st u t first
        (scan_line-Keeps (suc i) s u (still-Ended ch s ended e) rest)
]

-- A line of exactly sixteen words passes the guard of `read_file`, but the column that it reads as
-- the latitude is the seventeenth: its place and length are still those of an earlier line.
pub scan_line-latitude_stale :
    (s : List ℕ) (st : Scanner)
    → Ended s
    → length (words [] s) ≡ 16
    → Returns
        (λ t.
          (leb ncols t.count ≡ true)
          × (t.apos col_lat ≡ st.apos col_lat)
          × (t.alen col_lat ≡ st.alen col_lat))
        (scan_line 0 s (record st { status = Status.space; count = 0 }))
scan_line-latitude_stale s st ended sixteen =
    let (t, run, all) = Returns-inv (scan_line-words s st ended (omega arith)) in
    let v = scan_line-Keeps 0 s _ ended run in
    rw run (
      returns (
        ground (arith, all.0),
        v.apos_old 16 (omega (arith, all.0)),
        v.alen_old 16 (omega (arith, all.0)),
      ))

abbrev pub NonZero : List ℕ → Type 0
NonZero [] = Unit
NonZero (ch ∷ w) = (ch ≢ 0) × NonZero w

strncpy-prefix :
    (buf w src : List ℕ)
    → NonZero w
    → length w ≤ length buf
    → strncpy buf (w ++ src) (length w) ≡ some (w ++ drop (length w) buf)
unfolding strncpy
strncpy-prefix buf [] src nz h = refl
strncpy-prefix [] (ch ∷ w) src nz h = absurd (omega arith)
strncpy-prefix (b ∷ buf) (ch ∷ w) src (n, nz) h = elim (Bool-cases (ch == 0)) [
  | inl z ↦ absurd (n (==→≡ ch 0 z))
  | inr z ↦ rw z (rw (strncpy-prefix buf w src nz (omega arith)))
]

-- A recorded column after the first is handed to `atof` with the bytes behind it that `buf` held
-- before, as `strncpy` stores no NUL.
pub read_column-stale :
    {F : Type 0} (atof : List ℕ → F) (st : Scanner) (s : List ℕ) (k : ℕ) (buf w : List ℕ)
    → st.alen k ≡ length w
    → take (length w) (drop (st.apos k) s) ≡ w
    → NonZero w
    → length w ≤ length buf
    → read_column atof st s k buf ≡ some (w ++ drop (length w) buf, atof (w ++ drop (length w) buf))
unfolding read_column
read_column-stale atof st s k buf w size bytes nz room =
    let src = drop (st.apos k) s in
    let split : w ++ drop (length w) src ≡ src = rw bytes at (take-append-drop (length w) src) in
    let copied = rw split at (strncpy-prefix buf w (drop (length w) src) nz room) in
    rw size (rw copied)
