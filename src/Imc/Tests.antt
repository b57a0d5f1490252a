-- ===== src/Imc/Tests.antt =====
-- Header lines, quoted strings and header fields on small inputs.
use pwrake.Prelude.{
  ℕ, zero, suc, ◌+◌, ◌-◌, ◌/◌, ◌<◌, ◌≡◌, ◌≢◌, refl, true, inl, inr, List, [], ◌∷◌, ◌++◌, none, some,
  arith, length, replicate, length-replicate, get_elem?, Returns, ◌>>=◌,
}
use pwrake.Imc.Text.{space, equals, begins, behind, word, pad}
use pwrake.Imc.Cards.{imadd_fits, imrep_fits, imupdate_fitsf, imget_fits_value, imaddcom, imaddhist}
use pwrake.Imc.Cards.Kept.{Reachable, empty, changed, added, IsBlock, Reachable-IsBlock}
use pwrake.Imc.Cards.Updated.{imget_fits_value-imupdate_fitsf}
use pwrake.Imc.Cards.Folded.{IsFolded, imaddcom-imaddhist-fold}
use pwrake.Imc.Quotes.{imc_fits_mkstrg_val, extract_string}
use pwrake.Imc.Quotes.Extracted.{IsPrintable, doubled, extract_string-imc_fits_mkstrg_val}
use pwrake.Imc.Iraf.{imencs, imdecs}
use pwrake.Imc.Iraf.Coded.{IsString, IsCopied, imdecs-imencs}
use pwrake.Imc.Header.{imc_fits_get_dtype, put_pixignr, imget_pixignr, put_u2off, imget_u2off}
use pwrake.Imc.Header.Marks.{put_pixignr-put_u2off_kept}

-- `NX` and `42`
abbrev key : List ℕ
key = 78 ∷ 88 ∷ []

abbrev value : List ℕ
value = 52 ∷ 50 ∷ []

-- A block with one line, `NX      = 1`.
abbrev line : List ℕ
line = 78 ∷ 88 ∷ 32 ∷ 32 ∷ 32 ∷ 32 ∷ 32 ∷ 32 ∷ 61 ∷ 32 ∷ 49 ∷ []

one_line : Reachable (imadd_fits [] line)
one_line = changed empty (added line)

imget_fits_value-line : imget_fits_value key (imadd_fits [] line) ≡ some (some (49 ∷ []))
unfolding imget_fits_value imadd_fits pad
imget_fits_value-line = refl

Reachable-IsBlock_example :
    IsBlock (imadd_fits [] line)
    × ((key s : List ℕ) → Returns (λ r. IsBlock r.1) (imrep_fits key s (imadd_fits [] line)))
    × ((key : List ℕ) → Returns {0, 0} (λ v. Unit) (imget_fits_value key (imadd_fits [] line)))
Reachable-IsBlock_example = Reachable-IsBlock one_line

only_line :
    (i j : ℕ) (l k : List ℕ)
    → get_elem? (imadd_fits [] line) i ≡ some l
    → get_elem? (imadd_fits [] line) j ≡ some k
    → begins key l ≡ true
    → begins key k ≡ true
    → i ≡ j
unfolding imadd_fits
only_line zero zero l k hl hk bl bk = refl
only_line zero (suc j) l k hl hk bl bk = ground arith
only_line (suc i) j l k hl hk bl bk = ground arith

key_plain : behind equals key ≡ none
unfolding behind
key_plain = refl

value-word : word value ≡ value
unfolding word
value-word = refl

imget_fits_value-imupdate_fitsf_example :
    Returns
      (λ after. imget_fits_value key after ≡ some (some value))
      (imupdate_fitsf key value (imadd_fits [] line))
imget_fits_value-imupdate_fitsf_example =
    imget_fits_value-imupdate_fitsf key value 52 (50 ∷ []) refl (λ e. omega arith) value-word
      (omega arith) key_plain (omega arith) (imadd_fits [] line) (Reachable-IsBlock one_line).0
      only_line

-- A text of 75 characters.
abbrev text : List ℕ
text = replicate 75 65

imaddcom-imaddhist-fold_example :
    Returns (IsFolded (length text / 70 + 1) text []) (imaddcom text [])
    × Returns (IsFolded (length text / 70 + 1) text []) (imaddhist text [])
imaddcom-imaddhist-fold_example = imaddcom-imaddhist-fold text []

-- `O'C`
abbrev name : List ℕ
name = 79 ∷ 39 ∷ 67 ∷ []

imc_fits_mkstrg_val-name :
    imc_fits_mkstrg_val name ≡ some (39 ∷ 79 ∷ 39 ∷ 39 ∷ 67 ∷ 32 ∷ 32 ∷ 32 ∷ 32 ∷ 39 ∷ 32 ∷ [])
unfolding imc_fits_mkstrg_val pad
imc_fits_mkstrg_val-name = refl

name-IsPrintable : IsPrintable name
unfolding IsPrintable
name-IsPrintable =
    (omega arith, omega arith, (omega arith, omega arith, (omega arith, omega arith, tt)))

extract_string-imc_fits_mkstrg_val_example :
    Returns
      (λ line. extract_string line ≡ name ++ replicate (8 - length (doubled name)) space)
      (imc_fits_mkstrg_val name)
extract_string-imc_fits_mkstrg_val_example =
    extract_string-imc_fits_mkstrg_val name name-IsPrintable (omega arith)

-- `AB` at 0, room for its code at 3 and for the copy at 9.
abbrev memory : List ℕ
memory = 65 ∷ 66 ∷ 0 ∷ replicate 9 7

memory-IsString : IsString memory 0 2
memory-IsString = (chars, refl)
  where
    chars : (k : ℕ) → k < 2 → (c : ℕ) × (get_elem? memory (0 + k) ≡ some c) × (c ≢ 0)
    chars zero lt = (65, refl, λ e. omega arith)
    chars (suc zero) lt = (66, refl, λ e. omega arith)
    chars (suc (suc k)) lt = absurd (omega arith)

imdecs-imencs_example : Returns (IsCopied memory 0 9 2) (imencs 3 0 memory >>= imdecs 3 9)
imdecs-imencs_example =
    imdecs-imencs memory 0 3 9 2 memory-IsString (omega arith) (omega arith) (omega arith)
      (inl (omega arith)) (inr (omega arith))

abbrev no_fields : List ℕ
no_fields = replicate 1000 0

put_pixignr-put_u2off_kept_example :
    Returns
      (λ v.
        (imget_pixignr v ≡ some 4294934528)
        × (imget_u2off v ≡ imget_u2off no_fields)
        × (imc_fits_get_dtype v ≡ imc_fits_get_dtype no_fields))
      (put_pixignr 4294934528 no_fields)
    × Returns
        (λ v.
          (imget_u2off v ≡ some 32768)
          × (imget_pixignr v ≡ imget_pixignr no_fields)
          × (imc_fits_get_dtype v ≡ imc_fits_get_dtype no_fields))
        (put_u2off 32768 no_fields)
put_pixignr-put_u2off_kept_example =
    put_pixignr-put_u2off_kept no_fields 4294934528 32768 (length-replicate {A = ℕ} 1000 0)
      (omega arith) (omega arith)
