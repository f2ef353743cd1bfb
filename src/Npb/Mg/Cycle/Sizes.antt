-- ===== src/Npb/Mg/Cycle/Sizes.antt =====
-- The sizes that `setup` gives.
use hardposit_fpga.Base.{
  ℕ, zero, suc, ◌+◌, ◌-◌, ◌*◌, ◌/◌, ◌^◌, ◌≤◌, ◌<◌, ◌≡◌, refl, ap, ◌∙◌, inl, inr, Bool-cases, ◌==◌,
  put, times, arith,
}
use hardposit_fpga.Npb.Mg.Cycle.{Sizes3, halve_down, setup}
use native.Mathlib.Nat.{pow-suc}

halve_above : (n k : ℕ) (nx : ℕ → ℕ) → n < k → halve_down n nx k ≡ nx k
unfolding halve_down
halve_above zero k nx lt = refl
halve_above (suc n) k nx lt =
    halve_above n k (put (suc n) (nx (suc (suc n)) / 2) nx) (omega (arith, lt)) ∙ ground (arith, lt)

halve_down_lem :
    (n k : ℕ) (nx : ℕ → ℕ) → nx (suc n) ≡ 2 ^ suc n → 1 ≤ k → k ≤ suc n → halve_down n nx k ≡ 2 ^ k
unfolding halve_down
halve_down_lem zero k nx e lo hi = let one : k ≡ 1 = omega (arith, lo, hi) in rw one e
halve_down_lem (suc n) k nx e lo hi =
    let next : ℕ → ℕ = put (suc n) (nx (suc (suc n)) / 2) nx in
    let double : 2 ^ suc (suc n) ≡ 2 ^ suc n * 2 = pow-suc 2 (suc n) in
    let here : next (suc n) ≡ 2 ^ suc n = ground (arith, e, double) in
    elim (Bool-cases (k == suc (suc n))) [
      | inl top ↦
          let e' : k ≡ suc (suc n) = ground (arith, top) in
          rw e' (halve_above n (suc (suc n)) next (omega arith) ∙ ground (arith, e))
      | inr below ↦ halve_down_lem n k next here lo (ground (arith, hi, below))
    ]

filled_sizes :
    (n k : ℕ) (nx m : ℕ → ℕ)
    → 1 ≤ k
    → k ≤ n
    → times (λ i. put (suc i) (nx (suc i) + 2)) n m k ≡ nx k + 2
unfolding times
filled_sizes zero k nx m lo hi = absurd (omega (arith, lo, hi))
filled_sizes (suc n) k nx m lo hi = elim (Bool-cases (k == suc n)) [
  | inl top ↦ let e : k ≡ suc n = ground (arith, top) in rw (top, e) refl
  | inr below ↦ rw below (filled_sizes n k nx m lo (ground (arith, hi, below)))
]

-- If the finest grid has 2 ^ lt points on each side, lt at least 1, then `setup` gives the grid
-- of level k, from 1 to lt, 2 ^ k + 2 points on each side, and returns the sizes of the finest
-- grid.
pub setup_lem :
    (lt : ℕ) (s : Sizes3)
    → 1 ≤ lt
    → s.nx lt ≡ 2 ^ lt
    → s.ny lt ≡ 2 ^ lt
    → s.nz lt ≡ 2 ^ lt
    → ((k : ℕ)
        → 1 ≤ k
        → k ≤ lt
        → ((setup lt s).0.m1 k ≡ 2 ^ k + 2)
          × ((setup lt s).0.m2 k ≡ 2 ^ k + 2)
          × ((setup lt s).0.m3 k ≡ 2 ^ k + 2))
      × ((setup lt s).1 ≡ 2 ^ lt + 2)
      × ((setup lt s).2 ≡ 2 ^ lt + 2)
      × ((setup lt s).3 ≡ 2 ^ lt + 2)
unfolding setup
setup_lem zero s lo ex ey ez = absurd (omega (arith, lo))
setup_lem (suc n) s lo ex ey ez =
    let minus : suc n - 1 ≡ n = omega arith in
    let at = λ (nx : ℕ → ℕ) (e : nx (suc n) ≡ 2 ^ suc n) (k : ℕ) (l : 1 ≤ k) (h : k ≤ suc n).
      ap (λ v. v + 2) (halve_down_lem n k nx e l h) in
    rw minus (
      λ k l h. (
        filled_sizes (suc n) k (halve_down n s.nx) s.m1 l h ∙ at s.nx ex k l h,
        filled_sizes (suc n) k (halve_down n s.nz) s.m2 l h ∙ at s.nz ez k l h,
        filled_sizes (suc n) k (halve_down n s.ny) s.m3 l h ∙ at s.ny ey k l h,
      ),
      at s.nx ex (suc n) lo (omega arith),
      at s.ny ey (suc n) lo (omega arith),
      at s.nz ez (suc n) lo (omega arith),
    )
