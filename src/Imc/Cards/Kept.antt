-- ===== src/Imc/Cards/Kept.antt =====
-- The header lines fit the buffers of demo/spcam/sdfred20100528/mosaic/imc/imc.c.
use pwrake.Prelude.{
  ℕ, zero, suc, ◌+◌, ◌*◌, ◌/◌, ◌≤◌, ◌<◌, ◌≡◌, refl, Bool, true, inl, inr, List, [], ◌∷◌, ◌++◌, some,
  arith, length, length-append, get_elem?, get_elem?-snoc, get_elem?-Returns, drop, Returns,
  returns, Returns-bind, Returns-if, some-inj, Option-cases, Bool-cases, Returns-some, >>=-inv,
  if◌then◌else◌, ltb,
}
use pwrake.Imc.Text.{begins, field, length-field, strcpy, space, equals, behind}
use pwrake.Imc.Cards.{
  imadd_fits, imrep_fits, imupdate_fitsf, imget_fits_value, find_value, fold_lines, imaddcom,
  imaddhist, blanks, keyed, comment, history,
}

abbrev pub IsLine : List ℕ → Type 0
IsLine l = (80 ≤ length l) × (length l < 90)

abbrev pub IsBlock : List (List ℕ) → Type 0
IsBlock cards = (i : ℕ) (l : List ℕ) → get_elem? cards i ≡ some l → IsLine l

snoc-IsBlock :
    (cards : List (List ℕ)) (l : List ℕ) → IsBlock cards → IsLine l → IsBlock (cards ++ (l ∷ []))
snoc-IsBlock cards l all here i k h = elim (get_elem?-snoc cards l i h) [
  | inl (at, lt) ↦ all i k at
  | inr (at, same) ↦ rw same at here
]

cons-IsBlock : (l : List ℕ) (cards : List (List ℕ)) → IsLine l → IsBlock cards → IsBlock (l ∷ cards)
cons-IsBlock l cards here all zero k h = let same : l ≡ k = some-inj h in rw same at here
cons-IsBlock l cards here all (suc i) k h = all i k h

pub imadd_fits-IsBlock :
    (cards : List (List ℕ)) (s : List ℕ) → IsBlock cards → IsBlock (imadd_fits cards s)
unfolding imadd_fits
imadd_fits-IsBlock cards s all =
    let size = length-field 80 (field 80 s ++ blanks) in
    snoc-IsBlock cards (field 80 (field 80 s ++ blanks)) all
      (omega (arith, size), omega (arith, size))

replaced-IsLine : (s : List ℕ) → IsLine (field 75 s ++ blanks)
replaced-IsLine s =
    let size = length-append (field 75 s) blanks in
    let width = length-field 75 s in (omega (arith, size, width), omega (arith, size, width))

pub strcpy-Returns :
    (room : ℕ) (s : List ℕ) → length s < room → Returns (λ t. t ≡ s) (strcpy room s)
strcpy-Returns room s h =
    let fits : ltb (length s) room ≡ true = ground arith in rw fits (returns refl)

pub imrep_fits-IsBlock :
    (key s : List ℕ) (cards : List (List ℕ))
    → IsBlock cards
    → Returns (λ r. IsBlock r.1) (imrep_fits key s cards)
unfolding imrep_fits
imrep_fits-IsBlock key s [] all = returns (λ i l h. ground arith)
imrep_fits-IsBlock key s (l ∷ cards) all =
    let rest : IsBlock cards = λ i k h. all (suc i) k h in
    Returns-bind (strcpy-Returns 90 l (all 0 l refl).1) (λ ss same.
      Returns-if (begins key ss)
        (λ _. returns (cons-IsBlock (field 75 s ++ blanks) cards (replaced-IsLine s) rest))
        (λ _.
          Returns-bind (imrep_fits-IsBlock key s cards rest)
            (λ r kept. returns (cons-IsBlock l r.1 (all 0 l refl) kept))))

find_value-Returns :
    (key : List ℕ) (cards : List (List ℕ)) (n : ℕ)
    → n ≤ length cards
    → IsBlock cards
    → Returns {0, 0} (λ v. Unit) (find_value key cards n)
unfolding find_value
find_value-Returns key cards zero le all = returns tt
find_value-Returns key cards (suc i) le all =
    let later = find_value-Returns key cards i (omega arith) all in
    Returns-bind (get_elem?-Returns cards i (omega arith)) (λ l h.
      Returns-bind (strcpy-Returns 128 l (omega (arith, (all i l h).1))) (λ s _.
        Returns-if (begins key s)
          (λ _. elim (Option-cases (behind equals s)) [
            | inl e ↦ rw e later
            | inr (cp, e) ↦ rw e (returns tt)
          ])
          (λ _. later)))

fold_lines-IsBlock :
    (head indent : List ℕ) (left i : ℕ) (s : List ℕ) (cards : List (List ℕ))
    → length head ≤ 8
    → length indent ≤ 8
    → IsBlock cards
    → Returns IsBlock (fold_lines head indent left i s cards)
unfolding fold_lines
fold_lines-IsBlock head indent zero i s cards hh hi all = returns all
fold_lines-IsBlock head indent (suc left) i s cards hh hi all =
    let chunk = field 70 (drop (70 * i) s) in
    Returns-bind
      (strcpy-Returns 81 (head ++ (space ∷ space ∷ chunk)) (
        omega
          (arith, length-append head (space ∷ space ∷ chunk), length-field 70 (drop (70 * i) s))))
      (λ line _.
        fold_lines-IsBlock indent indent left (suc i) s (imadd_fits cards line) hi hi
          (imadd_fits-IsBlock cards line all))

-- The changes of a block of header lines.
pub data Change (cards : List (List ℕ)) : List (List ℕ) → Type 0 where
  added : (s : List ℕ) → Change cards (imadd_fits cards s)
  replaced :
      (key s : List ℕ) {r : Bool × List (List ℕ)}
      → imrep_fits key s cards ≡ some r
      → Change cards r.1
  updated :
      (key v : List ℕ) {after : List (List ℕ)}
      → imupdate_fitsf key v cards ≡ some after
      → Change cards after
  commented :
      (s : List ℕ) {after : List (List ℕ)} → imaddcom s cards ≡ some after → Change cards after
  noted : (s : List ℕ) {after : List (List ℕ)} → imaddhist s cards ≡ some after → Change cards after

-- The blocks that changes make of an empty one.
pub data Reachable : List (List ℕ) → Type 0 where
  empty : Reachable []
  changed :
      {before after : List (List ℕ)} → Reachable before → Change before after → Reachable after

imupdate_fitsf-IsBlock :
    (key v : List ℕ) (cards after : List (List ℕ))
    → IsBlock cards
    → imupdate_fitsf key v cards ≡ some after
    → IsBlock after
unfolding imupdate_fitsf
imupdate_fitsf-IsBlock key v cards after all h =
    let (line, _, h') = >>=-inv (strcpy 8192 (keyed key v)) _ h in
    let (r, at, end) = >>=-inv (imrep_fits key line cards) _ h' in
    let kept = Returns-some (imrep_fits-IsBlock key line cards all) at in
    let same = some-inj end in
    let all_after : IsBlock (if r.0 then r.1 else imadd_fits r.1 line) = elim (Bool-cases r.0) [
      | inl e ↦ rw e kept
      | inr e ↦ rw e (imadd_fits-IsBlock r.1 line kept)
    ] in
    rw same at all_after

Change-IsBlock :
    {before after : List (List ℕ)} → Change before after → IsBlock before → IsBlock after
unfolding imaddcom imaddhist
Change-IsBlock {before} (added s) all = imadd_fits-IsBlock before s all
Change-IsBlock {before} (replaced key s h) all =
    Returns-some (imrep_fits-IsBlock key s before all) h
Change-IsBlock {before} (updated key v {after} h) all =
    imupdate_fitsf-IsBlock key v before after all h
Change-IsBlock {before} (commented s h) all =
    Returns-some
      (fold_lines-IsBlock comment (comment ++ (space ∷ [])) (length s / 70 + 1) 0 s before
        (omega arith) (omega arith) all)
      h
Change-IsBlock {before} (noted s h) all =
    Returns-some
      (fold_lines-IsBlock history (history ++ (space ∷ [])) (length s / 70 + 1) 0 s before
        (omega arith) (omega arith) all)
      h

-- In a block that changes have made of an empty one every line has from 80 to 89 characters, and
-- neither `imrep_fits` nor `imget_fits_value` copies a line into a buffer that is too small for it.
pub Reachable-IsBlock :
    {cards : List (List ℕ)}
    → Reachable cards
    → IsBlock cards
      × ((key s : List ℕ) → Returns (λ r. IsBlock r.1) (imrep_fits key s cards))
      × ((key : List ℕ) → Returns {0, 0} (λ v. Unit) (imget_fits_value key cards))
unfolding imget_fits_value
Reachable-IsBlock {cards} run =
    let all = reached run in
    (
      all,
      λ key s. imrep_fits-IsBlock key s cards all,
      λ key. find_value-Returns key cards (length cards) (omega arith) all,
    )
  where
    reached : {cards : List (List ℕ)} → Reachable cards → IsBlock cards
    reached empty = λ i l h. ground arith
    reached (changed run step) = Change-IsBlock step (reached run)
