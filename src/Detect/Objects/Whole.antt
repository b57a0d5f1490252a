-- ===== src/Detect/Objects/Whole.antt =====
-- `detect_new3` leaves no pixel above the threshold unmarked.
use pwrake.Prelude.{
  ℕ, zero, suc, ◌+◌, ◌*◌, ◌≤◌, ◌<◌, ◌≡◌, ◌≢◌, refl, ap, ◌⊎◌, inl, inr, Bool-cases, ReturnsUnless,
  found, ReturnsUnless-map, ReturnsUnless-bind, arith, ==→≡, ◌==◌,
}
use pwrake.Prelude.Int.{ℤ}
use pwrake.Sort.Order.{Ranked}
use pwrake.Detect.Objects.{Detected, detect_row, detect_rows, detect_new3}
use pwrake.Detect.Objects.Found.{IsDetected}
use pwrake.Detect.Objects.Grown.{IsAbove, Grows-refl, Grows-trans}
use pwrake.Detect.Objects.Lost.{
  IsLostInRow, IsLost, start_of, IsLostInRow-here, IsLostInRow-next, IsLost-here, IsLost-next,
}
use pwrake.Detect.Objects.Stepped.{Advances, detect_pixel-Advances}

module _ {F : Type 0} ⦃o : Ranked F⦄ (pix : ℕ → F) (npx npy : ℕ) (thres : F) (npix_min : ℕ)
    (x0 y0 : ℤ) (fuel : ℕ) (enough : 2 ≤ fuel) where
  abbrev Steps : (ℕ → Type 0) → Detected F → Detected F → Type 0
  Steps = Advances pix npx npy thres npix_min x0 y0 fuel enough

  abbrev LostInRow : ℕ → ℕ → ℕ → Detected F → Type 0
  LostInRow = IsLostInRow pix npx npy thres npix_min x0 y0 fuel

  abbrev Lost : ℕ → ℕ → Detected F → Type 0
  Lost = IsLost pix npx npy thres npix_min x0 y0 fuel

  advance-then :
      (P Q : ℕ → Type 0) (st s r : Detected F)
      → Steps P st s
      → Steps Q s r
      → Steps (λ k. P k ⊎ Q k) st r
  advance-then P Q st s r a b = record {
    objects = b.objects;
    grows = Grows-trans pix npx npy thres a.grows b.grows;
    whole = λ k c above. elim c [
      | inl p ↦ b.grows.stays k (a.whole k p above)
      | inr q ↦ b.whole k q above
    ];
  }

  weaken-Advances :
      {P Q : ℕ → Type 0} {st r : Detected F} → ((k : ℕ) → Q k → P k) → Steps P st r → Steps Q st r
  weaken-Advances f a = record {
    objects = a.objects;
    grows = a.grows;
    whole = λ k q above. a.whole k (f k q) above;
  }

  detect_row-Advances :
      (j left i : ℕ) (st : Detected F)
      → i + left ≤ npx
      → j < npy
      → IsDetected pix npx npy thres npix_min x0 y0 st
      → ReturnsUnless
          (LostInRow j left i st)
          (Steps (λ k. (n : ℕ) × (i ≤ n) × (n < i + left) × (k ≡ n + j * npx)) st)
          (detect_row pix npx npy thres npix_min x0 y0 fuel j left i st)
  unfolding detect_row
  detect_row-Advances j zero i st hi hj v = found (record {
    objects = v;
    grows = Grows-refl pix npx npy thres st.map;
    whole = λ k (n, a, b, _) _. absurd (omega arith);
  })
  detect_row-Advances j (suc left) i st hi hj v =
      ReturnsUnless-bind
        (detect_pixel-Advances pix npx npy thres npix_min x0 y0 fuel enough i j st (omega arith) hj
          v)
        (IsLostInRow-here pix npx npy thres npix_min x0 y0 fuel j left i st)
        (IsLostInRow-next pix npx npy thres npix_min x0 y0 fuel j left i st)
        λ s a.
          ReturnsUnless-map (detect_row-Advances j left (suc i) s (omega arith) hj a.objects) λ r b.
            weaken-Advances (λ k (n, lo, hi', at). by_column k n lo hi' at)
              (advance-then _ _ st s r a b)
    where
      by_column :
          (k n : ℕ)
          → i ≤ n
          → n < i + suc left
          → k ≡ n + j * npx
          → (k ≡ i + j * npx) ⊎ ((n' : ℕ) × (suc i ≤ n') × (n' < suc i + left) × (k ≡ n' + j * npx))
      by_column k n lo hi' at = elim (Bool-cases (n == i)) [
        | inl e ↦ inl (ground (arith, ap (λ z. z + j * npx) (==→≡ n i e)))
        | inr e ↦ inr (n, ground arith, ground arith, at)
      ]

  detect_rows-Advances :
      (left j : ℕ) (st : Detected F)
      → j + left ≤ npy
      → IsDetected pix npx npy thres npix_min x0 y0 st
      → ReturnsUnless
          (Lost left j st)
          (Steps
            (λ k. (n : ℕ) × (m : ℕ) × (n < npx) × (j ≤ m) × (m < j + left) × (k ≡ n + m * npx))
            st)
          (detect_rows pix npx npy thres npix_min x0 y0 fuel left j st)
  unfolding detect_rows
  detect_rows-Advances zero j st hj v = found (record {
    objects = v;
    grows = Grows-refl pix npx npy thres st.map;
    whole = λ k (n, m, _, a, b, _) _. absurd (omega arith);
  })
  detect_rows-Advances (suc left) j st hj v =
      ReturnsUnless-bind (detect_row-Advances j npx 0 st (omega arith) (omega arith) v)
        (IsLost-here pix npx npy thres npix_min x0 y0 fuel left j st)
        (IsLost-next pix npx npy thres npix_min x0 y0 fuel left j st)
        λ s a.
          ReturnsUnless-map (detect_rows-Advances left (suc j) s (omega arith) a.objects) λ r b.
            weaken-Advances (λ k (n, m, inside, lo, hi, at). by_row k n m inside lo hi at)
              (advance-then _ _ st s r a b)
    where
      by_row :
          (k n m : ℕ)
          → n < npx
          → j ≤ m
          → m < j + suc left
          → k ≡ n + m * npx
          → ((n' : ℕ) × (0 ≤ n') × (n' < 0 + npx) × (k ≡ n' + j * npx))
            ⊎ ((n' : ℕ) × (m' : ℕ) × (n' < npx)
                × (suc j ≤ m')
                × (m' < suc j + left)
                × (k ≡ n' + m' * npx))
      by_row k n m inside lo hi at = elim (Bool-cases (m == j)) [
        | inl e ↦
            inl (n, omega arith, omega arith, ground (arith, ap (λ z. n + z * npx) (==→≡ m j e)))
        | inr e ↦ inr (n, m, inside, ground arith, ground arith, at)
      ]

  -- With two turns or more for each flood, `detect_new3` ends with no access outside its arrays, unless
  -- its scan comes to a pixel above the threshold that is not marked yet, whose flood follows a null
  -- pointer or does not end within its turns. Every kept object has at least `npix_min` pixels and does
  -- not reach the last row, which every edged one does; the pixels of each lie in the image, above the
  -- threshold, and span its box, since its start is one of them. A pixel that was unmarked is marked in
  -- the end exactly if it is above the threshold.
  pub detect_new3-whole :
      (map : ℕ → ℕ)
      → ReturnsUnless
          (IsLost pix npx npy thres npix_min x0 y0 fuel npy 0 (start_of map))
          (λ r.
            IsDetected pix npx npy thres npix_min x0 y0 r
            × ((i j : ℕ)
                → i < npx
                → j < npy
                → IsAbove pix npx npy thres (i + j * npx)
                → r.map (i + j * npx) ≢ 0)
            × ((k : ℕ) → map k ≡ 0 → r.map k ≢ 0 → IsAbove pix npx npy thres k))
          (detect_new3 pix npx npy thres npix_min x0 y0 fuel map)
  unfolding detect_new3
  detect_new3-whole map =
      ReturnsUnless-map
        (detect_rows-Advances npy 0 (start_of map) (omega arith) (record {
          kept = record { each = λ i pl h. ground arith; room = omega arith };
          edged = record { each = λ i pl h. ground arith; room = omega arith };
        }))
        λ r a. (
          a.objects,
          (λ i j hi hj above.
              a.whole (i + j * npx) (i, j, hi, omega arith, omega arith, refl) above),
          (λ k was now. elim (a.grows.above k now) [ inl e ↦ absurd (e was) | inr e ↦ e ]),
        )
