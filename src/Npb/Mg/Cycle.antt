-- ===== src/Npb/Mg/Cycle.antt =====
-- sw/NPBhardposit/MG/mg.cpp: `setup`, which gives the sizes of the grids, and `mg3P`, the V-cycle.
pub mod Sizes
pub mod Same
pub mod Reference
pub mod Whole
pub mod Tests
use hardposit_fpga.Base.{ℕ, zero, suc, ◌+◌, ◌-◌, ◌/◌, none, some, put, times}
use hardposit_fpga.Npb.Mg.{Grid, Arith, zero3, psinv, resid, rprj3, interp}

-- The sizes by level.
pub record Sizes3 : Type 0 where
  pub nx : ℕ → ℕ
  pub ny : ℕ → ℕ
  pub nz : ℕ → ℕ
  pub m1 : ℕ → ℕ
  pub m2 : ℕ → ℕ
  pub m3 : ℕ → ℕ

-- `for (k = lt-1; k >= 1; k--) nx[k] = nx[k+1]/2;` for one of the three arrays.
unfoldable pub halve_down : ℕ → (ℕ → ℕ) → ℕ → ℕ
halve_down zero nx = nx
halve_down (suc k) nx = halve_down k (put (suc k) (nx (suc (suc k)) / 2) nx)

-- `setup`: m2 has the points in z and m3 the points in y. The three sizes it returns are those of
-- the finest level, each for its own direction.
unfoldable pub setup : ℕ → Sizes3 → Sizes3 × ℕ × ℕ × ℕ
setup lt s =
    let nx = halve_down (lt - 1) s.nx in
    let ny = halve_down (lt - 1) s.ny in
    let nz = halve_down (lt - 1) s.nz in
    (
      record {
        nx = nx;
        ny = ny;
        nz = nz;
        m1 = times (λ k. put (suc k) (nx (suc k) + 2)) lt s.m1;
        m2 = times (λ k. put (suc k) (nz (suc k) + 2)) lt s.m2;
        m3 = times (λ k. put (suc k) (ny (suc k) + 2)) lt s.m3;
      },
      nx lt + 2,
      ny lt + 2,
      nz lt + 2,
    )

-- The grids of all levels: the approximations and the residuals.
pub record Levels {ℓ} (A : Type ℓ) : Type ℓ where
  pub u : ℕ → Grid A
  pub r : ℕ → Grid A

-- The sizes, the coefficients and the work row of the operators; `w k` is 2 ^ -k.
pub record Setting {ℓ} (A : Type ℓ) : Type ℓ where
  pub null : A
  pub junk : ℕ → A
  pub w : ℕ → A
  pub a : ℕ → A
  pub c : ℕ → A
  pub m1 : ℕ → ℕ
  pub m2 : ℕ → ℕ
  pub m3 : ℕ → ℕ

module _ {ℓ} {A : Type ℓ} (o : Arith A) (g : Setting A) where
  -- The operators at a level.
  abbrev pub clear : ℕ → Grid A → Grid A
  clear k z = zero3 g.null (g.m1 k) (g.m2 k) (g.m3 k) z

  abbrev pub smooth : ℕ → Grid A → Grid A → Grid A
  smooth k r u = psinv o g.junk r (g.m1 k) (g.m2 k) (g.m3 k) g.c u

  -- From level k + 1 to level k.
  abbrev pub project : ℕ → Grid A → Grid A → Grid A
  project j r s =
      rprj3 o g.junk g.w r (g.m1 (suc j)) (g.m2 (suc j)) (g.m3 (suc j)) (g.m1 j) (g.m2 j) (g.m3 j) s

  -- From level j to the next.
  abbrev pub prolongate : ℕ → Grid A → Grid A → Grid A
  prolongate j z u = interp o g.junk g.w z (g.m1 j) (g.m2 j) (g.m3 j) u

  -- The down cycle, from level n + 1 to level 1.
  unfoldable pub down : ℕ → (ℕ → Grid A) → ℕ → Grid A
  down zero r = r
  down (suc n) r = down n (put (suc n) (project (suc n) (r (suc (suc n))) (r (suc n))) r)

  -- The body of the loop of the up cycle, at level j + 1.
  unfoldable pub climb : ℕ → Levels A → Levels A
  climb j s =
      let k = suc j in
      let x = prolongate j (s.u j) (clear k (s.u k)) in
      let y = resid o g.junk x none (g.m1 k) (g.m2 k) (g.m3 k) g.a (s.r k) in
      record { u = put k (smooth k y x) s.u; r = put k y s.r }

  -- What follows the loop, at the finest level j + 1.
  abbrev pub top : ℕ → ℕ → ℕ → ℕ → Grid A → Levels A → Levels A
  top n1 n2 n3 j v s =
      let k = suc j in
      let x = prolongate j (s.u j) (s.u k) in
      let y = resid o g.junk x (some v) n1 n2 n3 g.a (s.r k) in
      record { u = put k (psinv o g.junk y n1 n2 n3 g.c x) s.u; r = put k y s.r }

  -- `mg3P`, for lt of at least 2.
  unfoldable pub mg3_p : ℕ → ℕ → ℕ → ℕ → Grid A → Levels A → Levels A
  mg3_p lt n1 n2 n3 v s =
      let r = down (lt - 1) s.r in
      let start : Levels A = record { u = put 1 (smooth 1 (r 1) (clear 1 (s.u 1))) s.u; r = r } in
      top n1 n2 n3 (lt - 1) v (times (λ i. climb (suc i)) (lt - 2) start)
