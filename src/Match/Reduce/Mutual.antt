-- ===== src/Match/Reduce/Mutual.antt =====
-- Sources that match each other.
use pwrake.Prelude.{
  ℕ, zero, suc, ◌≤◌, ◌≡◌, refl, ap, not, true, false, List, [], ◌∷◌, none, some, arith, get_elem?,
}
use pwrake.Sort.Order.{Ranked, gt}
use pwrake.Match.Rows.{CatalogRow}
use pwrake.Match.Reduce.{judge, is_index}

pub none_past :
    {A : Type 0} (xs : List A) (i k : ℕ) → get_elem? xs i ≡ none → i ≤ k → get_elem? xs k ≡ none
none_past [] i k h le = refl
none_past (x ∷ xs) zero k h le = ground arith
none_past (x ∷ xs) (suc i) zero h le = absurd (omega arith)
none_past (x ∷ xs) (suc i) (suc k) h le = none_past xs i k h (omega arith)

module _ {F : Type 0} where
  pub row_fun :
      (cat : List (CatalogRow F)) (i k : ℕ) (c d : CatalogRow F)
      → get_elem? cat i ≡ some c
      → get_elem? cat k ≡ some d
      → i ≡ k
      → c.line ≡ d.line
  row_fun cat i k c d hi hk e = ground (arith, ap (get_elem? cat) e)

  -- `c` at `i` and `c2` at `j` have each other as match.
  pub record AreMutual (cat1 cat2 : List (CatalogRow F)) (i : ℕ) (c : CatalogRow F) (j : ℕ)
      (c2 : CatalogRow F) : Type 0 where
    pub at : get_elem? cat1 i ≡ some c
    pub partner : get_elem? cat2 j ≡ some c2
    pub chosen : c.min_idx ≡ some j
    pub chosen_back : c2.min_idx ≡ some i

  pub mutual_of :
      (cat1 cat2 : List (CatalogRow F)) (i : ℕ) (c : CatalogRow F) (j : ℕ) (c2 : CatalogRow F)
      → get_elem? cat1 i ≡ some c
      → get_elem? cat2 j ≡ some c2
      → c.min_idx ≡ some j
      → is_index i c2.min_idx ≡ true
      → AreMutual cat1 cat2 i c j c2
  mutual_of cat1 cat2 i c j c2 at partner e back = record {
    at = at;
    partner = partner;
    chosen = e;
    chosen_back = ground arith;
  }

  pub same_partner :
      (cat1 cat2 : List (CatalogRow F)) (i : ℕ) (c : CatalogRow F) (j : ℕ) (c2 : CatalogRow F)
      (j' : ℕ) (c2' : CatalogRow F)
      → c.min_idx ≡ some j
      → get_elem? cat2 j ≡ some c2
      → AreMutual cat1 cat2 i c j' c2'
      → (c2' ≡ c2) × (is_index i c2.min_idx ≡ true)
  same_partner cat1 cat2 i c j c2 j' c2' e partner m =
      let j_same : j' ≡ j = ground (arith, m.chosen) in
      let c_same : c2' ≡ c2 = cc (m.partner, ap (get_elem? cat2) j_same) in
      let back : c2.min_idx ≡ some i = cc (m.chosen_back, c_same) in (c_same, ground arith)

  -- Every match is a row of the other catalog.
  abbrev pub IsClosed : List (CatalogRow F) → List (CatalogRow F) → Type 0
  IsClosed cat1 cat2 =
      (i : ℕ) (c : CatalogRow F) (j : ℕ)
      → get_elem? cat1 i ≡ some c
      → c.min_idx ≡ some j
      → (c2 : CatalogRow F) × (get_elem? cat2 j ≡ some c2)

module _ {F : Type 0} ⦃o : Ranked F⦄ where
  -- Of two sources that match each other exactly one is rejected: the one of the first catalog if
  -- its error is greater, and that of the second otherwise, also in a tie.
  pub judge-one :
      (cat1 cat2 : List (CatalogRow F)) (i : ℕ) (c : CatalogRow F) (j : ℕ) (c2 : CatalogRow F)
      → AreMutual cat1 cat2 i c j c2
      → (judge false cat2 i c ≡ some (record { matched = true; reject = gt c.err c2.err }))
        × (judge true cat1 j c2 ≡ some (record { matched = true; reject = not (gt c.err c2.err) }))
  unfolding judge
  judge-one cat1 cat2 i c j c2 m = (
    ground (arith, m.chosen, m.partner, m.chosen_back),
    ground (arith, m.chosen_back, m.at, m.chosen),
  )
