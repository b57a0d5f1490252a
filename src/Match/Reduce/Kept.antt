-- ===== src/Match/Reduce/Kept.antt =====
-- Which lines `reduce_dup` keeps.
use pwrake.Prelude.{
  ℕ, suc, ◌≤◌, ◌<◌, ◌≡◌, ◌≢◌, refl, ap, inl, inr, Bool, Bool-cases, true, false, List, [], ◌∷◌,
  some, arith, get_elem?, ◌==◌, ==→≡, ==→≢, Option-cases, Returns, returns, Returns-bind,
  Returns-if,
}
use pwrake.Sort.Order.{Ranked}
use pwrake.Match.Rows.{CatalogRow}
use pwrake.Match.Scan.Ordered.{IsAscending}
use pwrake.Match.Reduce.{
  Verdict, unmatched, worse, judge, advance, is_index, reduce_loop, reduce_dup,
}
use pwrake.Match.Reduce.Mutual.{none_past, row_fun, AreMutual, mutual_of, same_partner, IsClosed}

-- `kept` holds the lines whose number, counted from `l`, does not satisfy `P`, in their order.
pub data Keeps {L : Type 0} (P : ℕ → Type 0) : ℕ → List L → List L → Type 0 where
  end : {l : ℕ} → Keeps P l [] []
  keep :
      {l : ℕ} {lines kept : List L} (s : L)
      → ¬ P l
      → Keeps P (suc l) lines kept
      → Keeps P l (s ∷ lines) (s ∷ kept)
  drop :
      {l : ℕ} {lines kept : List L} (s : L)
      → P l
      → Keeps P (suc l) lines kept
      → Keeps P l (s ∷ lines) kept

module _ {F : Type 0} ⦃o : Ranked F⦄ (flag : Bool) (cat1 cat2 : List (CatalogRow F)) where
  -- The line of a source that a matched source beats.
  pub IsBeaten : ℕ → Type 0
  IsBeaten l =
      (i : ℕ) × (c : CatalogRow F) × (j : ℕ) × (c2 : CatalogRow F) × AreMutual cat1 cat2 i c j c2
      × (c.line ≡ l)
      × (worse flag c.err c2.err ≡ true)

  same_row :
      (i : ℕ) (c : CatalogRow F) (k : ℕ) (d : CatalogRow F)
      → IsAscending cat1
      → get_elem? cat1 i ≡ some c
      → get_elem? cat1 k ≡ some d
      → c.line ≡ d.line
      → (i ≡ k) × (c ≡ d)
  same_row i c k d up hi hk e =
      let same : i ≡ k = ground (arith, up i c k d hi hk, up k d i c hk hi) in (same, cc)

  beaten_here :
      (i : ℕ) (c : CatalogRow F)
      → IsAscending cat1
      → get_elem? cat1 i ≡ some c
      → IsBeaten c.line
      → (j : ℕ) × (c2 : CatalogRow F) × AreMutual cat1 cat2 i c j c2
        × (worse flag c.err c2.err ≡ true)
  unfolding IsBeaten
  beaten_here i c up at (i', c', j, c2, m, e, w) =
      let (same_i, same_c) = same_row i' c' i c up m.at at e in
      (
        j,
        c2,
        record {
          at = at;
          partner = m.partner;
          chosen = ground (arith, m.chosen, same_c);
          chosen_back = ground (arith, m.chosen_back, same_i);
        },
        rw (← same_c) w,
      )

  abbrev IsJudged : ℕ → Verdict → Type 0
  IsJudged l v = (v.reject ≡ true → IsBeaten l) × (v.reject ≡ false → ¬ IsBeaten l)

  judge-IsJudged :
      (i : ℕ) (c : CatalogRow F)
      → IsAscending cat1
      → IsClosed cat1 cat2
      → get_elem? cat1 i ≡ some c
      → Returns (λ v. IsJudged c.line v) (judge flag cat2 i c)
  unfolding judge IsBeaten
  judge-IsJudged i c up closed at = elim (Option-cases c.min_idx) [
    | inl e ↦
        rw (e, judge)
          (returns
            ((λ h. cc), (λ h b. let (j, c2, m, w) = beaten_here i c up at b in cc (m.chosen))))
    | inr (j, e) ↦
        let (c2, partner) = closed i c j at e in
        rw (e, judge)
          (rw partner (elim (Bool-cases (is_index i c2.min_idx)) [
            | inl back ↦ rw back (
                returns (
                  (λ h. (i, c, j, c2, mutual_of cat1 cat2 i c j c2 at partner e back, refl, h)),
                  (λ h b.
                      let (j', c2', m, w) = beaten_here i c up at b in
                      let (same, _) = same_partner cat1 cat2 i c j c2 j' c2' e partner m in
                      ground (arith, ap (λ (r : CatalogRow F). worse flag c.err r.err) same)),
                ))
            | inr other ↦ rw other (
                returns (
                  (λ h. cc),
                  (λ h b.
                      let (j', c2', m, w) = beaten_here i c up at b in
                      ground (arith, (same_partner cat1 cat2 i c j c2 j' c2' e partner m).1)),
                ))
          ]))
  ]

  -- The rows before `i` have passed, and the others are still ahead.
  record IsAt (i line : ℕ) : Type 0 where
    passed : (k : ℕ) (c : CatalogRow F) → get_elem? cat1 k ≡ some c → k < i → c.line < line
    ahead : (k : ℕ) (c : CatalogRow F) → get_elem? cat1 k ≡ some c → i ≤ k → line ≤ c.line

  not_beaten :
      (line : ℕ)
      → ((k : ℕ) (c : CatalogRow F) → get_elem? cat1 k ≡ some c → c.line ≢ line)
      → IsJudged line unmatched
  unfolding IsBeaten
  not_beaten line h = ((λ e. cc), λ e (k, c, j, c2, m, at, w). h k c m.at at)

  advance-IsJudged :
      (i line : ℕ)
      → IsAscending cat1
      → IsClosed cat1 cat2
      → IsAt i line
      → Returns (λ r. IsJudged line r.1 × IsAt r.0 (suc line)) (advance flag cat1 cat2 i line)
  unfolding advance
  advance-IsJudged i line up closed p = elim (Option-cases (get_elem? cat1 i)) [
    | inl e ↦
        rw (e, advance)
          (returns (
            not_beaten line
                (λ k c at same. ground (arith, p.passed k c at, none_past cat1 i k e, at)),
            record {
              passed = λ k c at lt. ground (arith, p.passed k c at);
              ahead = λ k c at le. ground (arith, none_past cat1 i k e, at);
            },
          ))
    | inr (c, e) ↦
        rw (e, advance)
          (Returns-if (line == c.line)
            (λ hit.
              let same = ==→≡ line c.line hit in
              Returns-bind (judge-IsJudged i c up closed e) λ v j. returns (
                rw same j,
                record {
                  passed = λ k d at lt. ground (arith, p.passed k d at, row_fun cat1 i k c d e at);
                  ahead = λ k d at le. ground (arith, up i c k d e at);
                },
              ))
            (λ miss.
              let differs = ==→≢ line c.line miss in
              returns (
                not_beaten line (λ k d at same. ground (
                  arith,
                  p.passed k d at,
                  p.ahead i c e,
                  up i c k d e at,
                  row_fun cat1 i k c d e at,
                )),
                record {
                  passed = λ k d at lt. ground (arith, p.passed k d at);
                  ahead = λ k d at le.
                      ground (arith, p.ahead i c e, up i c k d e at, row_fun cat1 i k c d e at);
                },
              )))
  ]

  reduce_loop-Keeps :
      {L : Type 0} (lines : List L) (i line : ℕ)
      → IsAscending cat1
      → IsClosed cat1 cat2
      → IsAt i line
      → Returns (λ r. Keeps IsBeaten line lines r.kept) (reduce_loop flag cat1 cat2 i line lines)
  unfolding reduce_loop
  reduce_loop-Keeps [] i line up closed p = returns end
  reduce_loop-Keeps (s ∷ lines) i line up closed p =
      Returns-bind (advance-IsJudged i line up closed p) λ (i', v) (j, q).
        Returns-bind (reduce_loop-Keeps lines i' (suc line) up closed q) λ r ks.
          elim (Bool-cases v.reject) [
            | inl e ↦ returns (rw e (drop s (j.0 e) ks))
            | inr e ↦ returns (rw e (keep s (j.1 e) ks))
          ]

-- With the rows of `cat1` in the order of their lines and each match in `cat2`, `reduce_dup`
-- reads no row outside the catalogs, and it copies, in their order, exactly the lines that are
-- not the line of a beaten source.
pub reduce_dup-Keeps :
    {F L : Type 0} ⦃o : Ranked F⦄ (flag : Bool) (lines : List L) (cat1 cat2 : List (CatalogRow F))
    → IsAscending cat1
    → IsClosed cat1 cat2
    → Returns
        (λ r. Keeps (IsBeaten flag cat1 cat2) 0 lines r.kept)
        (reduce_dup lines cat1 cat2 flag)
unfolding reduce_dup
reduce_dup-Keeps flag lines cat1 cat2 up closed =
    reduce_loop-Keeps flag cat1 cat2 lines 0 0 up closed
      (record { passed = λ k c at lt. absurd (omega arith); ahead = λ k c at le. omega arith })
