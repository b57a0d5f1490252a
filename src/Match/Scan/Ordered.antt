-- ===== src/Match/Scan/Ordered.antt =====
-- The rows that `read_file` returns stand in the order of their lines.
use pwrake.Prelude.{
  ℕ, suc, ◌<◌, ◌≡◌, refl, ◌⊎◌, inl, inr, Bool, Bool-cases, List, [], ◌∷◌, ◌++◌, some, arith, length,
  leb, get_elem?, get_elem?-snoc, >>=-inv, Ensures, Ensures-bind, if◌then◌else◌,
}
use pwrake.Match.Rows.{CatalogRow}
use pwrake.Match.Scan.{
  Scanner, Status, Reader, scan_line, read_column, store_row, col_lon, col_lat, col_err, read_row,
  read_line, read_lines, read_file, ncols,
}

-- The rows stand in the order of their lines.
abbrev pub IsAscending : {F : Type 0} → List (CatalogRow F) → Type 0
IsAscending {F} cat =
    (i : ℕ) (c : CatalogRow F) (k : ℕ) (d : CatalogRow F)
    → get_elem? cat i ≡ some c
    → get_elem? cat k ≡ some d
    → i < k
    → c.line < d.line

module _ {F : Type 0} where
  -- The rows so far come from the lines before `n`.
  record IsRead (n : ℕ) (rows : List (CatalogRow F)) : Type 0 where
    ascending : IsAscending rows
    before : (i : ℕ) (c : CatalogRow F) → get_elem? rows i ≡ some c → c.line < n

  append-IsRead :
      (n : ℕ) (rows : List (CatalogRow F)) (c : CatalogRow F)
      → c.line ≡ n
      → IsRead n rows
      → IsRead (suc n) (rows ++ c ∷ [])
  append-IsRead n rows c e v = record {
    ascending =
        λ i a k b ha hb lt. up i a k b (get_elem?-snoc rows c i ha) (get_elem?-snoc rows c k hb) lt;
    before = λ i a ha. bound i a (get_elem?-snoc rows c i ha);
  }
    where
      Split : ℕ → CatalogRow F → Type 0
      Split k a = (get_elem? rows k ≡ some a) × (k < length rows) ⊎ (k ≡ length rows) × (c ≡ a)

      line_of : (a : CatalogRow F) → c ≡ a → a.line ≡ n
      line_of a same = rw (← same) e

      bound : (k : ℕ) (a : CatalogRow F) → Split k a → a.line < suc n
      bound k a (inl (h, lt)) = omega (arith, v.before k a h)
      bound k a (inr (h, same)) = omega (arith, line_of a same)

      up :
          (i : ℕ) (a : CatalogRow F) (k : ℕ) (b : CatalogRow F)
          → Split i a
          → Split k b
          → i < k
          → a.line < b.line
      up i a k b (inl (h, p)) (inl (h', p')) lt = v.ascending i a k b h h' lt
      up i a k b (inl (h, p)) (inr (h', same)) lt = omega (arith, v.before i a h, line_of b same)
      up i a k b (inr (h, same)) (inl (h', p')) lt = absurd (omega arith)
      up i a k b (inr (h, same)) (inr (h', same')) lt = absurd (omega arith)

  skip-IsRead : (n : ℕ) (rows : List (CatalogRow F)) → IsRead n rows → IsRead (suc n) rows
  skip-IsRead n rows v = record {
    ascending = v.ascending;
    before = λ i c h. omega (arith, v.before i c h);
  }

module _ {F : Type 0} (atof : List ℕ → F) (off_scale : F → F → Bool) (rest_ang : F) where
  store_row-IsRead :
      (r : Reader F) (st : Scanner) (buf : List ℕ) (c : CatalogRow F) {r' : Reader F}
      → store_row atof off_scale rest_ang r st buf c ≡ some r'
      → c.line ≡ r.line
      → IsRead r.line r.rows
      → (r'.line ≡ r.line) × IsRead (suc r.line) r'.rows
  unfolding store_row
  store_row-IsRead r st buf c {r'} h e v = elim (Bool-cases (off_scale c.lon c.lat)) [
    | inl off ↦
        let same : r'.rows ≡ r.rows = ground arith in
        (ground arith, rw same (skip-IsRead r.line r.rows v))
    | inr on ↦
        let same : r'.rows ≡ r.rows ++ c ∷ [] = ground arith in
        (ground arith, rw same (append-IsRead r.line r.rows c e v))
  ]

  read_row-Ensures :
      (r : Reader F) (st : Scanner) (s : List ℕ)
      → IsRead r.line r.rows
      → Ensures
          (λ r'. (r'.line ≡ r.line) × IsRead (suc r.line) r'.rows)
          (read_row atof off_scale rest_ang r st s)
  unfolding read_row
  read_row-Ensures r st s v = Ensures-bind (read_column atof st s col_lon r.buf) λ b1 _.
      Ensures-bind (read_column atof st s col_lat b1.0) λ b2 _.
        Ensures-bind (read_column atof st s col_err b2.0)
          λ b3 _. record { post = λ r' h. store_row-IsRead r st b3.0 _ h refl v }

  after_row :
      (s : List ℕ) (r : Reader F) (st : Scanner)
      → IsRead r.line r.rows
      → Ensures
          (λ r'. (r'.line ≡ r.line) × IsRead (suc r.line) r'.rows)
          (if leb ncols st.count
            then read_row atof off_scale rest_ang r st s
            else some (record r { scanner = st }))
  after_row s r st v = elim (Bool-cases (leb ncols st.count)) [
    | inl e ↦ rw e (read_row-Ensures r st s v)
    | inr e ↦ rw e (record {
      post = λ r' h.
          let same : r'.rows ≡ r.rows = ground arith in
          (ground arith, rw same (skip-IsRead r.line r.rows v));
    })
  ]

  read_line-IsRead :
      (s : List ℕ) (r : Reader F)
      → IsRead r.line r.rows
      → Ensures (λ r'. IsRead r'.line r'.rows) (read_line atof off_scale rest_ang s r)
  unfolding read_line
  read_line-IsRead s r v =
      Ensures-bind (scan_line 0 s (record r.scanner { status = Status.space; count = 0 })) λ st _.
        Ensures-bind
          (if leb ncols st.count
            then read_row atof off_scale rest_ang r st s
            else some (record r { scanner = st }))
          λ u h. record {
            post = λ r' e.
                let (same, read) = (after_row s r st v).post u h in
                let line : r'.line ≡ suc r.line = ground (arith, e, same) in
                let rows : r'.rows ≡ u.rows = ground (arith, e) in rw (line, rows) read;
          }

  read_lines-IsRead :
      (lines : List (List ℕ)) (r : Reader F) {r' : Reader F}
      → read_lines atof off_scale rest_ang lines r ≡ some r'
      → IsRead r.line r.rows
      → IsRead r'.line r'.rows
  unfolding read_lines
  read_lines-IsRead [] r {r'} h v = let same : r ≡ r' = ground arith in rw (← same) v
  read_lines-IsRead (s ∷ lines) r h v =
      let (u, h1, h2) =
        >>=-inv (read_line atof off_scale rest_ang s r) (read_lines atof off_scale rest_ang lines)
          h in
      read_lines-IsRead lines u h2 ((read_line-IsRead s r v).post u h1)

  -- The rows that `read_file` returns stand in the order of their lines, strictly.
  pub read_file-IsAscending :
      (st : Scanner) (buf : List ℕ) (lines : List (List ℕ)) {cat : List (CatalogRow F)}
      → read_file atof off_scale rest_ang st buf lines ≡ some cat
      → IsAscending cat
  unfolding read_file
  read_file-IsAscending st buf lines {cat} h =
      let (r, h1, h2) = >>=-inv (read_lines atof off_scale rest_ang lines _) (λ r. some r.rows) h in
      let start : IsRead {F = F} 0 [] = record {
        ascending = λ i c k d a b lt. ground arith;
        before = λ i c a. ground arith;
      } in
      let same : r.rows ≡ cat = ground (arith, h2) in
      rw same at (read_lines-IsRead lines _ h1 start).ascending
