-- ===== src/Detect/Strips/Rebuilt.antt =====
-- Which old objects stay edged after a strip.
use pwrake.Prelude.{
  ℕ, zero, suc, ◌≡◌, refl, Bool, Bool-cases, inl, inr, true, not, List, Option, none, some,
  Option-cases, Perm, arith, length, get_elem?, ltb, ◌>>=◌, Returns, returns, Returns-inv,
}
use pwrake.Prelude.Int.{ℤ, pos, ◌+ℤ◌, ◌-ℤ◌, eqb_ℤ}
use pwrake.Sort.Order.{Ranked}
use pwrake.Detect.Pixels.{Pixlist}
use pwrake.Detect.Simple.{swap_out, shrink}
use pwrake.Detect.Simple.Shrunk.{without, shrink-without}
use pwrake.Detect.Strips.{Strip, finish_object, rebuild}

module _ {F : Type 0} ⦃o : Ranked F⦄ (pix : ℕ → F) (npx npy : ℕ) (thres : F) (npix_min : ℕ)
    (x0 y0 : ℤ) (fuel : ℕ) where
  -- The entry is absorbed, or it does not reach the last row of the strip.
  abbrev pub leaves : Option (Pixlist F) → Bool
  leaves none = true
  leaves (some pl) = not (eqb_ℤ pl.ymax (y0 +ℤ pos npy -ℤ pos 1))

  edge_of : Option (Strip F) → Option (List (Option (Pixlist F)))
  edge_of r = r >>= λ s. some s.edge

  swap-then :
      (n : ℕ) (edge : List (Option (Pixlist F))) (f : List (Option (Pixlist F)) → Option (Strip F))
      (g : List (Option (Pixlist F)) → Option (List (Option (Pixlist F))))
      → ((e : List (Option (Pixlist F))) → edge_of (f e) ≡ g e)
      → edge_of (swap_out n edge >>= f) ≡ (swap_out n edge >>= g)
  unfolding edge_of
  swap-then n edge f g same = elim (Option-cases (swap_out n edge)) [
    | inl e ↦ rw e refl
    | inr (e', e) ↦ rw e (same e')
  ]

  rebuild-shrink :
      (rounds n : ℕ) (edge : List (Option (Pixlist F))) (out : List (Pixlist F))
      → edge_of (rebuild pix npx npy thres npix_min x0 y0 fuel rounds n edge out)
        ≡ shrink leaves rounds n edge
  unfolding rebuild shrink edge_of
  rebuild-shrink zero n edge out = elim (Bool-cases (ltb n (length edge))) [
    | inl e ↦ rw e refl
    | inr e ↦ rw e refl
  ]
  rebuild-shrink (suc rounds) n edge out = elim (Bool-cases (ltb n (length edge))) [
    | inr e ↦ rw e refl
    | inl e ↦ rw e (elim (Option-cases (get_elem? edge n)) [
      | inl h ↦ rw h refl
      | inr (none, h) ↦ rw h (swap-then n edge _ _ (λ e'. rebuild-shrink rounds n e' out))
      | inr (some pl, h) ↦ rw h (elim (Bool-cases (eqb_ℤ pl.ymax (y0 +ℤ pos npy -ℤ pos 1))) [
        | inl last ↦ rw last (rebuild-shrink rounds (suc n) edge out)
        | inr ends ↦ rw ends (
            swap-then n edge _ _ (λ e'.
              rebuild-shrink rounds n e'
                (finish_object pix npx npy thres npix_min x0 y0 fuel pl out)))
      ])
    ])
  ]

  from_edge :
      {P : List (Option (Pixlist F)) → Type 0} (r : Option (Strip F))
      → Returns P (edge_of r)
      → Returns (λ s. P s.edge) r
  unfolding edge_of
  from_edge none p = let (l, e, _) = Returns-inv p in ground (arith, e)
  from_edge (some s) (returns p) = returns p

  -- With a round for each old object the loop ends with no access outside the array, and what
  -- stays edged is a rearrangement of the objects that are not absorbed and reach the last row.
  pub rebuild-edge :
      (edge : List (Option (Pixlist F))) (out : List (Pixlist F))
      → Returns
          (λ s. Perm s.edge (without leaves edge))
          (rebuild pix npx npy thres npix_min x0 y0 fuel (length edge) 0 edge out)
  rebuild-edge edge out =
      from_edge _ (rw (rebuild-shrink (length edge) 0 edge out) (shrink-without leaves edge))
