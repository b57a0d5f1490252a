-- ===== src/Paint/Shadows/Rows.antt =====
-- `makerow` takes the pending nodes of one row, in the order of their left ends.
use mathlib.Core.List.{perm_middle}
use mathlib.Core.List.Perm
use mathlib.Core.Path.{subst}
use pwrake.Prelude.{
  ◌≡◌, ◌≢◌, refl, sym, ap, Bool, Bool-cases, inl, inr, true, false, List, [], ◌∷◌, ◌++◌, Perm,
  arith, ==→≢, ==→≡, if◌then◌else◌,
}
use pwrake.Prelude.Int.{ℤ, ◌≤ℤ◌, leb_ℤ, eqb_ℤ, eq_of_parts}
use pwrake.Paint.Shadows.{
  Shadow, Shadows, insert_behind, insert_row, is_nil, sort_in, make_row_from, make_row,
}

abbrev Follows : Shadow → List Shadow → Type 0
Follows s [] = Unit
Follows s (u ∷ l) = s.lft ≤ℤ u.lft

-- The nodes of the row `r`, from left to right, all of them `OK`.
pub IsRow : ℤ → List Shadow → Type 0
IsRow r [] = Unit
IsRow r (s ∷ l) = (s.row ≡ r) × (s.is_ok ≡ true) × Follows s l × IsRow r l

-- `OK` nodes of other rows than `r`.
pub IsWaiting : ℤ → List Shadow → Type 0
IsWaiting r [] = Unit
IsWaiting r (s ∷ l) = (s.row ≢ r) × (s.is_ok ≡ true) × IsWaiting r l

insert_behind-Follows :
    (u s : Shadow) (l : List Shadow) → u.lft ≤ℤ s.lft → Follows u l → Follows u (insert_behind s l)
unfolding insert_behind
insert_behind-Follows u s [] h f = h
insert_behind-Follows u s (v ∷ l) h f = elim (Bool-cases (leb_ℤ s.lft v.lft)) [
  | inl e ↦ rw e h
  | inr e ↦ rw e f
]

insert_behind-IsRow :
    (r : ℤ) (s : Shadow) (l : List Shadow)
    → s.row ≡ r
    → s.is_ok ≡ true
    → IsRow r l
    → IsRow r (insert_behind s l)
unfolding insert_behind IsRow
insert_behind-IsRow r s [] at ok v = (at, ok, _, _)
insert_behind-IsRow r s (u ∷ l) at ok (u_at, u_ok, f, v) = elim (Bool-cases (leb_ℤ s.lft u.lft)) [
  | inl e ↦ rw e (at, ok, ground arith, (u_at, u_ok, f, v))
  | inr e ↦
      rw e (
        u_at,
        u_ok,
        insert_behind-Follows u s l (ground arith) f,
        insert_behind-IsRow r s l at ok v,
      )
]

insert_behind-perm : (s : Shadow) (l : List Shadow) → Perm (insert_behind s l) (s ∷ l)
unfolding insert_behind
insert_behind-perm s [] = Perm.refl (s ∷ [])
insert_behind-perm s (u ∷ l) = elim (Bool-cases (leb_ℤ s.lft u.lft)) [
  | inl e ↦ rw e (Perm.refl (s ∷ u ∷ l))
  | inr e ↦ rw e (Perm.trans (Perm.cons u (insert_behind-perm s l)) (Perm.swap s u l))
]

insert_row-same : (s : Shadow) (l : List Shadow) → insert_row s l ≡ insert_behind s l
unfolding insert_row insert_behind
insert_row-same s [] = refl
insert_row-same s (u ∷ l) = refl

insert_row-some : (s : Shadow) (l : List Shadow) → insert_row s l ≢ []
unfolding insert_row
insert_row-some s [] h = ground arith
insert_row-some s (u ∷ l) h = ground arith

-- Every node that is kept, in any of the three lists.
abbrev pub nodes : Shadows → List Shadow
nodes w = w.rows ++ (w.pend ++ w.free)

record IsSplit (w : Shadows) : Type 0 where
  row : IsRow w.curr_row w.rows
  waiting : IsWaiting w.curr_row w.pend
  fresh : w.rows ≡ [] → w.pend ≡ []

if_rule :
    {A : Type 0} (P : A → Type 0) {x y : A} (b : Bool)
    → (b ≡ true → P x)
    → (b ≡ false → P y)
    → P (if b then x else y)
if_rule P true on_true on_false = on_true refl
if_rule P false on_true on_false = on_false refl

is_nil-inv : (l : List Shadow) → is_nil l ≡ true → l ≡ []
is_nil-inv [] h = refl
is_nil-inv (s ∷ l) h = ground arith

sort_in-perm : (s : Shadow) (w : Shadows) → Perm (nodes (sort_in s w)) (s ∷ nodes w)
unfolding sort_in
sort_in-perm s w =
    if_rule (λ v. Perm (nodes v) (s ∷ nodes w)) s.is_ok
      (λ ok.
        if_rule (λ v. Perm (nodes v) (s ∷ nodes w)) (is_nil w.rows)
          (λ e.
            subst (λ l. Perm (s ∷ (w.pend ++ w.free)) (s ∷ (l ++ (w.pend ++ w.free))))
              (sym (is_nil-inv w.rows e)) (Perm.refl _))
          (λ _.
            if_rule (λ v. Perm (nodes v) (s ∷ nodes w))
              {x = record w { rows = insert_row s w.rows }} {y = record w { pend = s ∷ w.pend }}
              (eqb_ℤ s.row w.curr_row)
              (λ _. Perm.append_right (w.pend ++ w.free) (
                subst (λ l. Perm l (s ∷ w.rows)) (sym (insert_row-same s w.rows))
                  (insert_behind-perm s w.rows)))
              (λ _. perm_middle {a = s} w.rows (w.pend ++ w.free))))
      (λ _.
        Perm.trans (Perm.append_left w.rows (perm_middle {a = s} w.pend w.free))
          (perm_middle {a = s} w.rows (w.pend ++ w.free)))

sort_in-IsSplit : (s : Shadow) (w : Shadows) → IsSplit w → IsSplit (sort_in s w)
unfolding sort_in IsRow IsWaiting
sort_in-IsSplit s w v =
    if_rule IsSplit s.is_ok
      (λ ok.
        if_rule IsSplit (is_nil w.rows)
          (λ e. record {
            row = (refl, ok, _, _);
            waiting = subst (IsWaiting s.row) (sym (v.fresh (is_nil-inv w.rows e))) _;
            fresh = λ h. ground arith;
          })
          (λ more.
            if_rule IsSplit (eqb_ℤ s.row w.curr_row)
              (λ same. record {
                row = subst (IsRow w.curr_row) (sym (insert_row-same s w.rows)) (
                    insert_behind-IsRow w.curr_row s w.rows (eq_of_parts _ _ (==→≡ _ _ same)) ok
                      v.row);
                waiting = v.waiting;
                fresh = λ h. absurd (insert_row-some s w.rows h);
              })
              (λ other. record {
                row = v.row;
                waiting = ((λ h. ==→≢ _ _ other (ground (arith, h))), ok, v.waiting);
                fresh = λ h. absurd (ground (arith, more, ap is_nil h));
              })))
      (λ _. record { row = v.row; waiting = v.waiting; fresh = v.fresh })

make_row_from-IsSplit : (l : List Shadow) (w : Shadows) → IsSplit w → IsSplit (make_row_from l w)
unfolding make_row_from
make_row_from-IsSplit [] w v = v
make_row_from-IsSplit (s ∷ l) w v = make_row_from-IsSplit l (sort_in s w) (sort_in-IsSplit s w v)

make_row_from-perm :
    (l : List Shadow) (w : Shadows) → Perm (nodes (make_row_from l w)) (l ++ nodes w)
unfolding make_row_from
make_row_from-perm [] w = Perm.refl (nodes w)
make_row_from-perm (s ∷ l) w =
    Perm.trans (make_row_from-perm l (sort_in s w))
      (Perm.trans (Perm.append_left l (sort_in-perm s w)) (perm_middle {a = s} l (nodes w)))

-- From an empty row `makerow` loses no node: the row that it makes holds `OK` nodes of one row from
-- left to right, what stays pending are `OK` nodes of other rows, and if the row is empty nothing
-- stays pending.
pub make_row-splits :
    (w : Shadows)
    → w.rows ≡ []
    → let r = make_row w in
      IsRow r.curr_row r.rows
      × IsWaiting r.curr_row r.pend
      × (r.rows ≡ [] → r.pend ≡ [])
      × Perm (nodes r) (w.pend ++ w.free)
unfolding make_row IsRow IsWaiting
make_row-splits w empty =
    let start = record w { pend = [] } in
    let v =
      make_row_from-IsSplit w.pend start
        (record { row = subst (IsRow w.curr_row) (sym empty) _; waiting = _; fresh = λ h. refl }) in
    (
      v.row,
      v.waiting,
      v.fresh,
      subst (λ l. Perm (nodes (make_row_from w.pend start)) (w.pend ++ (l ++ w.free))) empty
          (make_row_from-perm w.pend start),
    )
