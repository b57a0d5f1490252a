-- ===== src/Imc/Merge/Tests.antt =====
-- A merge of two blocks of one line.
use pwrake.Prelude.{
  ℕ, zero, suc, ◌≡◌, refl, sym, ap, ◌||◌, List, [], ◌∷◌, some-inj, arith, map, take, get_elem?,
  Returns, if◌then◌else◌,
}
use pwrake.Imc.Text.{pad}
use pwrake.Imc.Cards.{imadd_fits, imget_fits_value}
use pwrake.Imc.Cards.Kept.{empty, added, changed, Reachable-IsBlock}
use pwrake.Imc.Merge.{imc_merge_icom}
use pwrake.Imc.Merge.Values.{has_key, AreFields, imget_fits_value-imc_merge_icom}

-- `NX      = 1` and `NX      = 7`
abbrev key : List ℕ
key = 78 ∷ 88 ∷ 32 ∷ 32 ∷ 32 ∷ 32 ∷ 32 ∷ 32 ∷ []

abbrev block : ℕ → List (List ℕ)
block digit = imadd_fits [] (78 ∷ 88 ∷ 32 ∷ 32 ∷ 32 ∷ 32 ∷ 32 ∷ 32 ∷ 61 ∷ 32 ∷ digit ∷ [])

block-AreFields : (digit : ℕ) → AreFields key (block digit)
unfolding imadd_fits pad
block-AreFields digit zero l h b = ap (λ k. get_elem? k 8) (sym (some-inj h))
block-AreFields digit (suc i) l h b = ground arith

imget_fits_value-imc_merge_icom_example :
    Returns
      (λ m. imget_fits_value key m ≡ (
        if has_key key [] || has_key key (block 49)
        then imget_fits_value key (block 49)
        else imget_fits_value key (map (take 80) (block 55))))
      (imc_merge_icom [] (block 55) (block 49))
imget_fits_value-imc_merge_icom_example =
    imget_fits_value-imc_merge_icom key refl [] (block 55) (block 49)
      (Reachable-IsBlock (changed empty (added _))).0
      (Reachable-IsBlock (changed empty (added _))).0 (block-AreFields 55)
