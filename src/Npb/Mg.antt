-- ===== src/Npb/Mg.antt =====
-- sw/NPBhardposit/MG/mg.cpp: the grids of the multigrid cycle and the operators on them. A grid is a
-- function of the three indices, in the order of the source; what it holds is of any type, with the
-- arithmetic that the operators of Hardposit give.
pub mod Sweep
pub mod Borders
pub mod Stencils
pub mod Operators
pub mod Pairs
pub mod Interpolation
pub mod Cycle
pub mod Charges
pub mod Main
pub mod Norm
pub mod Tests
use hardposit_fpga.Base.{
  ℕ, zero, suc, ◌+◌, ◌-◌, ◌*◌, ◌==◌, ◌&&◌, Option, none, some, if◌then◌else◌, put, times,
}

abbrev pub Grid {ℓ} : Type ℓ → Type ℓ
Grid A = ℕ → ℕ → ℕ → A

pub record Arith {ℓ} (A : Type ℓ) : Type ℓ where
  pub add : A → A → A
  pub sub : A → A → A
  pub mul : A → A → A

module _ {ℓ} {A : Type ℓ} where
  -- A write to one point.
  abbrev pub put3 : ℕ → ℕ → ℕ → A → Grid A → Grid A
  put3 i3 i2 i1 v u a b c = if (a == i3) && ((b == i2) && (c == i1)) then v else u a b c

  -- `for (i1 = low; i1 < low + n; i1++) u[i3][i2][i1] = f i1 u[i3][i2][i1]`, and the loops around it.
  unfoldable pub sweep_row : ℕ → ℕ → (ℕ → A → A) → ℕ → ℕ → Grid A → Grid A
  sweep_row i3 i2 f low n u =
      times (λ k w. put3 i3 i2 (low + k) (f (low + k) (w i3 i2 (low + k))) w) n u

  unfoldable pub sweep_plane : ℕ → (ℕ → ℕ → A → A) → ℕ → ℕ → ℕ → Grid A → Grid A
  sweep_plane i3 f low n2 n1 u = times (λ k. sweep_row i3 (low + k) (f (low + k)) low n1) n2 u

  unfoldable pub sweep : (ℕ → ℕ → ℕ → A → A) → ℕ → ℕ → ℕ → ℕ → Grid A → Grid A
  sweep f low n3 n2 n1 u = times (λ k. sweep_plane (low + k) (f (low + k)) low n2 n1) n3 u

  -- A row that a loop over `i1` fills up to n, whatever it held.
  abbrev pub filled : ℕ → (ℕ → A) → (ℕ → A) → ℕ → A
  filled n row junk = times (λ i. put i (row i)) n junk

  -- `zero3`.
  abbrev pub zero3 : A → ℕ → ℕ → ℕ → Grid A → Grid A
  zero3 null n1 n2 n3 z = sweep (λ i3 i2 i1 x. null) 0 n3 n2 n1 z

  -- The body of the loop over `i2` for axis 1 in `comm3`.
  abbrev pub axis1 : ℕ → ℕ → ℕ → Grid A → Grid A
  axis1 n1 i3 i2 u = let w = put3 i3 i2 (n1 - 1) (u i3 i2 1) u in put3 i3 i2 0 (w i3 i2 (n1 - 2)) w

  -- The body of the loop over `i1` for axis 2.
  abbrev pub axis2 : ℕ → ℕ → ℕ → Grid A → Grid A
  axis2 n2 i3 i1 u = let w = put3 i3 (n2 - 1) i1 (u i3 1 i1) u in put3 i3 0 i1 (w i3 (n2 - 2) i1) w

  -- The body of the loops for axis 3.
  abbrev pub axis3 : ℕ → ℕ → ℕ → Grid A → Grid A
  axis3 n3 i2 i1 u = let w = put3 (n3 - 1) i2 i1 (u 1 i2 i1) u in put3 0 i2 i1 (w (n3 - 2) i2 i1) w

  -- `comm3`.
  unfoldable pub comm3 : ℕ → ℕ → ℕ → Grid A → Grid A
  comm3 n1 n2 n3 u =
      let w =
        times
          (λ k w. times (axis2 n2 (suc k)) n1 (times (λ m. axis1 n1 (suc k) (suc m)) (n2 - 2) w))
          (n3 - 2) u in
      times (λ i2 w. times (axis3 n3 i2) n1 w) n2 w

  -- The array v of `resid`: the array r itself if no other is given.
  abbrev pub source_of : Option (Grid A) → Grid A → Grid A
  source_of none r = r
  source_of (some v) r = v

  module _ (o : Arith A) where
    -- The sum of the four points of the cross around a row, and of the four corners: `r1` and
    -- `r2` of `psinv`, `u1` and `u2` of `resid`.
    abbrev pub cross : Grid A → ℕ → ℕ → ℕ → A
    cross r i3 i2 i1 =
        o.add (o.add (o.add (r i3 (i2 - 1) i1) (r i3 (i2 + 1) i1)) (r (i3 - 1) i2 i1))
          (r (i3 + 1) i2 i1)

    abbrev pub corners : Grid A → ℕ → ℕ → ℕ → A
    corners r i3 i2 i1 =
        o.add
          (o.add (o.add (r (i3 - 1) (i2 - 1) i1) (r (i3 - 1) (i2 + 1) i1)) (r (i3 + 1) (i2 - 1) i1))
          (r (i3 + 1) (i2 + 1) i1)

    -- The assignment in the innermost loop of `psinv`.
    abbrev pub psinv_point : (ℕ → A) → (ℕ → A) → (ℕ → A) → (ℕ → A) → ℕ → A → A
    psinv_point c r r1 r2 i1 x =
        o.add
          (o.add (o.add x (o.mul (c 0) (r i1)))
            (o.mul (c 1) (o.add (o.add (r (i1 - 1)) (r (i1 + 1))) (r1 i1))))
          (o.mul (c 2) (o.add (o.add (r2 i1) (r1 (i1 - 1))) (r1 (i1 + 1))))

    -- `psinv`; `junk` is what the local arrays hold before they are filled.
    unfoldable pub psinv : (ℕ → A) → Grid A → ℕ → ℕ → ℕ → (ℕ → A) → Grid A → Grid A
    psinv junk r n1 n2 n3 c u = comm3 n1 n2 n3 (
        sweep
          (λ i3 i2.
            psinv_point c (r i3 i2) (filled n1 (cross r i3 i2) junk)
              (filled n1 (corners r i3 i2) junk))
          1 (n3 - 2) (n2 - 2) (n1 - 2) u)

    -- The assignment in the innermost loop of `resid`.
    abbrev pub resid_point : (ℕ → A) → (ℕ → A) → (ℕ → A) → (ℕ → A) → ℕ → A → A
    resid_point a u u1 u2 i1 v =
        o.sub
          (o.sub (o.sub v (o.mul (a 0) (u i1)))
            (o.mul (a 2) (o.add (o.add (u2 i1) (u1 (i1 - 1))) (u1 (i1 + 1)))))
          (o.mul (a 3) (o.add (u2 (i1 - 1)) (u2 (i1 + 1))))

    -- `resid`; `none` for v says that v is the array r itself, as in the call of `mg3P`.
    unfoldable pub resid :
        (ℕ → A) → Grid A → Option (Grid A) → ℕ → ℕ → ℕ → (ℕ → A) → Grid A → Grid A
    resid junk u v n1 n2 n3 a r = comm3 n1 n2 n3 (
        sweep
          (λ i3 i2 i1 x.
            resid_point a (u i3 i2) (filled n1 (cross u i3 i2) junk)
              (filled n1 (corners u i3 i2) junk) i1 (source_of v (λ a b c. x) i3 i2 i1))
          1 (n3 - 2) (n2 - 2) (n1 - 2) r)

    abbrev pub offset : ℕ → ℕ
    offset m = if m == 3 then 2 else 1

    -- The row that the first loop over `j1` of `rprj3` fills: the places 2 * j1 - d1.
    abbrev pub filled_odd : ℕ → ℕ → (ℕ → A) → (ℕ → A) → ℕ → A
    filled_odd d1 m1j row junk =
        times (λ k. put (2 * suc k - d1) (row (2 * suc k - d1))) (m1j - 1) junk

    -- `x1` and `x2`, then `y1` and `y2`, at a place of the row.
    abbrev pub middle : Grid A → ℕ → ℕ → ℕ → A
    middle r i3 i2 i1 =
        o.add (o.add (o.add (r (i3 + 1) i2 i1) (r (i3 + 1) (i2 + 2) i1)) (r i3 (i2 + 1) i1))
          (r (i3 + 2) (i2 + 1) i1)

    abbrev pub outer : Grid A → ℕ → ℕ → ℕ → A
    outer r i3 i2 i1 =
        o.add (o.add (o.add (r i3 i2 i1) (r (i3 + 2) i2 i1)) (r i3 (i2 + 2) i1))
          (r (i3 + 2) (i2 + 2) i1)

    -- The assignment in the second loop over `j1`; `w k` is the number 2 ^ -k.
    abbrev pub rprj3_point : (ℕ → A) → Grid A → (ℕ → A) → (ℕ → A) → ℕ → ℕ → ℕ → A
    rprj3_point w r x1 y1 i3 i2 i1 =
        o.add
          (o.add
            (o.add (o.mul (w 1) (r (i3 + 1) (i2 + 1) (i1 + 1))) (
              o.mul (w 2) (
                o.add (o.add (r (i3 + 1) (i2 + 1) i1) (r (i3 + 1) (i2 + 1) (i1 + 2)))
                  (middle r i3 i2 (i1 + 1)))))
            (o.mul (w 3) (o.add (o.add (x1 i1) (x1 (i1 + 2))) (outer r i3 i2 (i1 + 1)))))
          (o.mul (w 4) (o.add (y1 i1) (y1 (i1 + 2))))

    -- `rprj3`, from the fine grid r to the coarse grid s.
    unfoldable pub rprj3 : (ℕ → A) → (ℕ → A) → Grid A → ℕ → ℕ → ℕ → ℕ → ℕ → ℕ → Grid A → Grid A
    rprj3 junk w r m1k m2k m3k m1j m2j m3j s = comm3 m1j m2j m3j (
        sweep
          (λ j3 j2 j1 x.
            let i3 = 2 * j3 - offset m3k in
            let i2 = 2 * j2 - offset m2k in
            rprj3_point w r (filled_odd (offset m1k) m1j (middle r i3 i2) junk)
              (filled_odd (offset m1k) m1j (outer r i3 i2) junk) i3 i2 (2 * j1 - offset m1k))
          1 (m3j - 2) (m2j - 2) (m1j - 2) s)

    -- A loop of `interp` over `i1`: one number is added at the even place, another at the odd one.
    unfoldable pub add_pairs : ℕ → ℕ → (ℕ → A) → (ℕ → A) → ℕ → Grid A → Grid A
    add_pairs a b even odd n u =
        times
          (λ i1 w.
            let w' = put3 a b (2 * i1) (o.add (w a b (2 * i1)) (even i1)) w in
            put3 a b (2 * i1 + 1) (o.add (w' a b (2 * i1 + 1)) (odd i1)) w')
          n u

    -- The body of the loop of `interp` over `i2`.
    unfoldable pub interp_rows : (ℕ → A) → (ℕ → A) → Grid A → ℕ → ℕ → ℕ → Grid A → Grid A
    interp_rows junk w z mm1 i3 i2 u =
        let z1 = filled mm1 (λ i. o.add (z i3 (i2 + 1) i) (z i3 i2 i)) junk in
        let z2 = filled mm1 (λ i. o.add (z (i3 + 1) i2 i) (z i3 i2 i)) junk in
        let z3 =
          filled mm1 (λ i. o.add (o.add (z (i3 + 1) (i2 + 1) i) (z (i3 + 1) i2 i)) (z1 i)) junk in
        let u1 =
          add_pairs (2 * i3) (2 * i2) (λ i. z i3 i2 i)
            (λ i. o.mul (w 1) (o.add (z i3 i2 (i + 1)) (z i3 i2 i))) (mm1 - 1) u in
        let u2 =
          add_pairs (2 * i3) (2 * i2 + 1) (λ i. o.mul (w 1) (z1 i))
            (λ i. o.mul (w 2) (o.add (z1 i) (z1 (i + 1)))) (mm1 - 1) u1 in
        let u3 =
          add_pairs (2 * i3 + 1) (2 * i2) (λ i. o.mul (w 1) (z2 i))
            (λ i. o.mul (w 2) (o.add (z2 i) (z2 (i + 1)))) (mm1 - 1) u2 in
        add_pairs (2 * i3 + 1) (2 * i2 + 1) (λ i. o.mul (w 2) (z3 i))
          (λ i. o.mul (w 3) (o.add (z3 i) (z3 (i + 1)))) (mm1 - 1) u3

    -- `interp`, from the coarse grid z to the fine grid u, if no side of the fine grid is 3.
    unfoldable pub interp : (ℕ → A) → (ℕ → A) → Grid A → ℕ → ℕ → ℕ → Grid A → Grid A
    interp junk w z mm1 mm2 mm3 u =
        times (λ i3. times (λ i2. interp_rows junk w z mm1 i3 i2) (mm2 - 1)) (mm3 - 1) u
