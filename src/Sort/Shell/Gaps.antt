-- ===== src/Sort/Shell/Gaps.antt =====
-- The gaps of `shellsort`.
use pwrake.Prelude.{
  ℕ, zero, suc, ◌+◌, ◌-◌, ◌*◌, ◌/◌, ◌≤◌, ◌<◌, ◌≡◌, refl, leb, arith, Returns, returns, Returns-if,
  leb→le, leb→lt,
}
use pwrake.Sort.Shell.{grow}

-- The gaps 1, 4, 13, 40, ...
pub data IsGap : ℕ → Type 0 where
  first : {h : ℕ} → h ≡ 1 → IsGap h
  next : {h : ℕ} (g : ℕ) → IsGap g → h ≡ 3 * g + 1 → IsGap h

pub IsGap-pos : {h : ℕ} → IsGap h → 1 ≤ h
IsGap-pos (first e) = omega arith
IsGap-pos (next g _ e) = omega arith

-- Past the second gap, `h / 9` is a gap again.
pub IsGap-div : {h : ℕ} → IsGap h → 4 < h → IsGap (h / 9)
IsGap-div (first e) lt = absurd (omega arith)
IsGap-div (next _ (first d) e) lt = absurd (omega arith)
IsGap-div {h} (next _ (next g s d) e) lt = let q : h / 9 ≡ g = omega arith in rw q s

abbrev pub Grown : ℕ → ℕ → Type 0
Grown n h = IsGap h × (n < h) × (h ≤ 3 * n + 1)

pub grow-Grown :
    (fuel n h : ℕ)
    → n + 1 - h < fuel
    → IsGap h
    → h ≤ 3 * n + 1
    → Returns (λ r. Grown n r) (grow fuel n h)
unfolding grow
grow-Grown zero n h f g b = absurd (omega arith)
grow-Grown (suc fuel) n h f g b =
    Returns-if (leb h n)
      (λ e.
        let le = leb→le h n e in
        grow-Grown fuel n (3 * h + 1) (omega arith) (next h g refl) (omega arith))
      (λ e. returns (g, leb→lt h n e, b))
