-- ===== src/Match/Run.antt =====
-- `main`: both catalogs are read, matched, and copied without the beaten sources.
use pwrake.Prelude.{
  ℕ, ◌<◌, ◌≡◌, ◌∙◌, Bool, true, false, List, Option, some, arith, length, length-map, sym,
  get_elem?, get_elem?-lt, get_elem?-ok, ◌>>=◌, Returns, returns, Returns-bind, map,
}
use pwrake.Sort.Order.{Ranked}
use pwrake.Match.Rows.{CatalogRow, Trig}
use pwrake.Match.Scan.{Scanner, read_file}
use pwrake.Match.Scan.Ordered.{IsAscending, read_file-IsAscending}
use pwrake.Match.Cross.{angle, xmatch}
use pwrake.Match.Cross.Nearest.{
  MatchedAt, IsMatched, nothing, nearest, xmatch-nearest, xmatch_sizes,
}
use pwrake.Match.Reduce.{Reduced, reduce_dup}
use pwrake.Match.Reduce.Mutual.{IsClosed}
use pwrake.Match.Reduce.Kept.{Keeps, IsBeaten, reduce_dup-Keeps}

-- What stands in a call's uninitialised variables.
pub record Garbage : Type 0 where
  pub scanner : Scanner
  pub buf : List ℕ

module _ {F : Type 0} ⦃o : Ranked F⦄ (t : Trig F) (atof : List ℕ → F)
    (off_scale1 off_scale2 : F → F → Bool) (tol_ang : F) where
  module _ (out cat : List (CatalogRow F)) (ds : CatalogRow F → List F)
      (size : length out ≡ length cat)
      (matched : (i : ℕ) (c : CatalogRow F)
        → get_elem? cat i ≡ some c
        → MatchedAt t tol_ang out i c (ds c)) where
    source_of :
        (i : ℕ) (r : CatalogRow F)
        → get_elem? out i ≡ some r
        → (c : CatalogRow F) × (get_elem? cat i ≡ some c)
          × (r.line ≡ c.line)
          × IsMatched t tol_ang (ds c) r
    source_of i r h =
        let (c, at) = get_elem?-ok cat i (omega (arith, get_elem?-lt out i h, size)) in
        let (r', at', same, m) = matched i c at in
        let e : r' ≡ r = ground arith in (c, at, rw e at same.0, rw e at m)

    matched-IsAscending : IsAscending cat → IsAscending out
    matched-IsAscending up i r k d hr hd lt =
        let (a, at_a, e_a, _) = source_of i r hr in
        let (b, at_b, e_b, _) = source_of k d hd in omega (arith, e_a, e_b, up i a k b at_a at_b lt)

    matched-IsClosed :
        (other : List (CatalogRow F))
        → ((c : CatalogRow F) → length (ds c) ≡ length other)
        → IsClosed out other
    matched-IsClosed other sizes i r j h e =
        let (c, at, _, m) = source_of i r h in get_elem?-ok other j (inside (ds c) m (sizes c))
      where
        inside :
            (ds' : List F)
            → IsMatched t tol_ang ds' r
            → length ds' ≡ length other
            → j < length other
        inside ds' (nothing none_found _) s = ground arith
        inside ds' (nearest m found v l) s =
            let same : m ≡ j = ground arith in omega (arith, get_elem?-lt ds' m v.found)

  -- The first catalog is cut by the second image, and the second by the first.
  unfoldable pub run :
      Garbage
      → Garbage
      → List (List ℕ)
      → List (List ℕ)
      → Option (Reduced (List ℕ) × Reduced (List ℕ))
  unfolding read_file xmatch reduce_dup
  run g1 g2 lines1 lines2 = do
    cat1 ← read_file atof off_scale2 t.half_turn g1.scanner g1.buf lines1
    cat2 ← read_file atof off_scale1 t.half_turn g2.scanner g2.buf lines2
    let (c1, c2) = xmatch t tol_ang cat1 cat2
    r1 ← reduce_dup lines1 c1 c2 false
    r2 ← reduce_dup lines2 c2 c1 true
    some (r1, r2)

  -- Once both catalogs are read, the program ends with no fault; each output holds, in their
  -- order, exactly the lines of its input that are not the line of a beaten source.
  pub run-Keeps :
      (g1 g2 : Garbage) (lines1 lines2 : List (List ℕ)) (cat1 cat2 : List (CatalogRow F))
      → read_file atof off_scale2 t.half_turn g1.scanner g1.buf lines1 ≡ some cat1
      → read_file atof off_scale1 t.half_turn g2.scanner g2.buf lines2 ≡ some cat2
      → let c = xmatch t tol_ang cat1 cat2 in
        Returns
          (λ r.
            Keeps (IsBeaten false c.0 c.1) 0 lines1 r.0.kept
            × Keeps (IsBeaten true c.1 c.0) 0 lines2 r.1.kept)
          (run g1 g2 lines1 lines2)
  unfolding run
  run-Keeps g1 g2 lines1 lines2 cat1 cat2 h1 h2 =
      let c = xmatch t tol_ang cat1 cat2 in
      let (size1, size2) = xmatch_sizes t tol_ang cat1 cat2 in
      let (m1, m2) = xmatch-nearest t tol_ang cat1 cat2 in
      let ds1 = λ (r : CatalogRow F). map (λ c2. angle t r c2) cat2 in
      let ds2 = λ (r : CatalogRow F). map (λ c1. angle t c1 r) cat1 in
      let up1 =
        matched-IsAscending c.0 cat1 ds1 size1 m1
          (read_file-IsAscending atof off_scale2 t.half_turn g1.scanner g1.buf lines1 h1) in
      let up2 =
        matched-IsAscending c.1 cat2 ds2 size2 m2
          (read_file-IsAscending atof off_scale1 t.half_turn g2.scanner g2.buf lines2 h2) in
      let closed1 =
        matched-IsClosed c.0 cat1 ds1 size1 m1 c.1 (λ r. length-map _ cat2 ∙ sym size2) in
      let closed2 =
        matched-IsClosed c.1 cat2 ds2 size2 m2 c.0 (λ r. length-map _ cat1 ∙ sym size1) in
      rw (h1, h2)
        (Returns-bind (reduce_dup-Keeps false lines1 c.0 c.1 up1 closed1) λ r1 k1.
          Returns-bind (reduce_dup-Keeps true lines2 c.1 c.0 up2 closed2) λ r2 k2. returns (k1, k2))
