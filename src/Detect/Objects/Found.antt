-- ===== src/Detect/Objects/Found.antt =====
-- What `detect_new3` finds.
use pwrake.Prelude.{
  ℕ, ◌≤◌, ◌<◌, ◌≡◌, ◌≢◌, refl, inl, inr, [], ◌∷◌, some, arith, length, length-append, get_elem?,
  get_elem?-snoc, leb→le, lt→ltb, ==→≡, ==→≢, leb, Returns, returns, Returns-bind, Returns-if,
}
use pwrake.Prelude.Int.{ℤ, pos, ◌+ℤ◌, ◌-ℤ◌, eqb_ℤ, eq_of_parts}
use pwrake.Sort.Order.{Ranked}
use pwrake.Paint.Flood.{flood_greaterthan}
use pwrake.Detect.Pixels.{Pixlist, npix_of, copy_pixlist}
use pwrake.Detect.Pixels.Extracted.{IsExtracted}
use pwrake.Detect.Objects.{Bucket, Detected, push, store_object}

-- Each object of a bucket satisfies `P`, and there is room for one more.
pub record IsFilled {F : Type 0} (P : Pixlist F → Type 0) (b : Bucket F) : Type 0 where
  pub each : (i : ℕ) (pl : Pixlist F) → get_elem? b.objects i ≡ some pl → P pl
  pub room : length b.objects < b.nmax

push-IsFilled :
    {F : Type 0} (P : Pixlist F → Type 0) (pl : Pixlist F) (b : Bucket F)
    → P (copy_pixlist pl)
    → IsFilled P b
    → Returns (IsFilled P) (push pl b)
unfolding push
push-IsFilled P pl b new v =
    let size = length-append b.objects (copy_pixlist pl ∷ []) in
    rw (lt→ltb (length b.objects) b.nmax v.room) (
      returns (record {
        each = λ i q h. elim (get_elem?-snoc b.objects (copy_pixlist pl) i h) [
          | inl (old, _) ↦ v.each i q old
          | inr (_, same) ↦ rw same at new
        ];
        room = ground (arith, size, v.room);
      }))

module _ {F : Type 0} ⦃o : Ranked F⦄ (pix : ℕ → F) (npx npy : ℕ) (thres : F) (npix_min : ℕ)
    (x0 y0 : ℤ) where
  -- An object of the image, with its start, which is one of its pixels, and its number.
  unfoldable pub IsObject : Pixlist F → Type 0
  IsObject pl =
      (x : ℤ) × (y : ℤ) × (id : ℕ) × (n : ℕ) × IsExtracted pix npx npy (flood_greaterthan thres) x y
        x0 y0 id n pl
      × ((k : ℕ) × (v : F) × (get_elem? pl.pix k ≡ some (x, y, v)))

  abbrev pub last_row : ℤ
  last_row = y0 +ℤ pos npy -ℤ pos 1

  abbrev pub IsEdged : Pixlist F → Type 0
  IsEdged pl = IsObject pl × (pl.ymax ≡ last_row)

  abbrev pub IsKept : Pixlist F → Type 0
  IsKept pl = IsObject pl × (npix_min ≤ npix_of pl) × (pl.ymax ≢ last_row)

  pub record IsDetected (st : Detected F) : Type 0 where
    pub kept : IsFilled IsKept st.kept
    pub edged : IsFilled IsEdged st.edged

  pub IsObject-copy : (pl : Pixlist F) → IsObject pl → IsObject (copy_pixlist pl)
  unfolding IsObject copy_pixlist
  IsObject-copy pl (x, y, id, n, v, start) =
      let b = v.box in
      (
        x,
        y,
        id,
        n,
        record {
          count = v.count;
          number = v.number;
          pixels = v.pixels;
          box = record { left = b.left; right = b.right; bottom = b.bottom; top = b.top };
        },
        start,
      )

  module _ (fuel : ℕ) where
    pub store_object-IsDetected :
        (n : ℕ) (pl : Pixlist F) (st : Detected F)
        → n ≡ npix_of pl
        → IsObject pl
        → IsDetected st
        → Returns
            (λ r. IsDetected r × (r.map ≡ st.map))
            (store_object pix npx npy thres npix_min x0 y0 fuel n pl st)
    unfolding store_object copy_pixlist
    store_object-IsDetected n pl st count object v =
        let copied = IsObject-copy pl object in
        Returns-if (eqb_ℤ pl.ymax last_row)
          (λ edge.
            Returns-bind
              (push-IsFilled IsEdged pl st.edged
                (copied, eq_of_parts pl.ymax last_row (==→≡ _ _ edge)) v.edged)
              λ b w. returns (record { kept = v.kept; edged = w }, refl))
          (λ inner.
            Returns-if (leb npix_min n)
              (λ big.
                Returns-bind
                  (push-IsFilled IsKept pl st.kept
                    (
                      copied,
                      omega (arith, leb→le npix_min n big, count),
                      λ e. ==→≢ _ _ inner (ground (arith, e)),
                    )
                    v.kept)
                  λ b w. returns (record { kept = w; edged = v.edged }, refl))
              (λ small. returns (v, refl)))
