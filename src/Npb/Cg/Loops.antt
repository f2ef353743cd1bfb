-- ===== src/Npb/Cg/Loops.antt =====
-- How long the loops of `sprnvc` run.
use hardposit_fpga.Base.{
  ℕ, zero, suc, ◌+◌, ◌*◌, ◌≤◌, ◌≡◌, refl, some, ltb, Bool-cases, inl, inr, arith,
}
use hardposit_fpga.Npb.Cg.{double_until, Draw, sprnvc_round, sprnvc_rounds, sprnvc_loop}

-- As many rounds as are missing are enough.
double_until-enough : (fuel nn1 n : ℕ) → 1 ≤ nn1 → n ≤ nn1 + fuel → n ≤ double_until fuel nn1 n
unfolding double_until
double_until-enough zero nn1 n one enough = omega (arith, enough)
double_until-enough (suc fuel) nn1 n one enough = elim (Bool-cases (ltb (2 * nn1) n)) [
  | inl less ↦
      rw (less, double_until)
        (double_until-enough fuel (2 * nn1) n (omega (arith, one)) (omega (arith, one, enough)))
  | inr done ↦ rw (done, double_until) (ground (arith, done))
]

-- The power that scales the random numbers reaches n.
pub double_until_lem : (n : ℕ) → n ≤ double_until (suc n) 1 n
double_until_lem n = double_until-enough (suc n) 1 n (omega arith) (omega arith)

module _ (bits : ℕ → ℕ) (amult n nn1 nz : ℕ) where
  -- If within k rounds the generator has given at least nz distinct indices, the loop of `sprnvc`
  -- ends within k rounds, in a state that rounds alone reach and that has at least nz elements.
  pub sprnvc_loop_lem :
      (k : ℕ) (s : Draw)
      → nz ≤ (sprnvc_rounds bits amult n nn1 k s).nzv
      → (j : ℕ) × (j ≤ k)
        × (sprnvc_loop bits amult n nn1 k nz s ≡ some (sprnvc_rounds bits amult n nn1 j s))
        × (nz ≤ (sprnvc_rounds bits amult n nn1 j s).nzv)
  unfolding sprnvc_loop sprnvc_rounds
  sprnvc_loop_lem zero s enough = (0, omega arith, ground (arith, enough), enough)
  sprnvc_loop_lem (suc k) s enough = elim (Bool-cases (ltb s.nzv nz)) [
    | inl less ↦
        let (j, le, e, r) = sprnvc_loop_lem k (sprnvc_round bits amult n nn1 s) enough in
        (suc j, omega (arith, le), rw (less, sprnvc_loop) e, r)
    | inr done ↦ (0, omega arith, rw (done, sprnvc_loop) refl, ground (arith, done))
  ]
