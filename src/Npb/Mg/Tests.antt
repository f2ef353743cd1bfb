-- ===== src/Npb/Mg/Tests.antt =====
-- The operators of the multigrid cycle on grids of 4 x 4 x 4 points.
use hardposit_fpga.Base.{ℕ, ◌+◌, ◌-◌, ◌*◌, ◌≡◌, none, arith}
use hardposit_fpga.Npb.Mg.{Grid, Arith, psinv, resid, rprj3, interp}
use hardposit_fpga.Npb.Mg.Operators.{smoothed, residual, weighted, psinv_lem, resid_lem, rprj3_lem}
use hardposit_fpga.Npb.Mg.Interpolation.{correction, interp_lem}

abbrev natural : Arith ℕ
natural = record { add = λ x y. x + y; sub = λ x y. x - y; mul = λ x y. x * y }

abbrev ramp : Grid ℕ
ramp i3 i2 i1 = 16 * i3 + 4 * i2 + i1

abbrev weights : ℕ → ℕ
weights i = i + 1

abbrev blank : ℕ → ℕ
blank i = 0

psinv_lem_example :
    psinv natural blank ramp 4 4 4 weights ramp 0 2 3 ≡ smoothed natural weights ramp ramp 2 2 1
psinv_lem_example =
    psinv_lem natural 4 4 4 (omega arith) (omega arith) (omega arith) blank weights ramp ramp 0 2 3
      (omega arith) (omega arith) (omega arith)

resid_lem_example :
    resid natural blank ramp none 4 4 4 weights ramp 3 1 0
    ≡ residual natural weights ramp ramp 1 1 2
resid_lem_example =
    resid_lem natural 4 4 4 (omega arith) (omega arith) (omega arith) blank weights ramp ramp none 3
      1 0 (omega arith) (omega arith) (omega arith)

rprj3_lem_example :
    rprj3 natural blank weights ramp 6 6 6 4 4 4 ramp 3 2 0 ≡ weighted natural weights ramp 1 3 3
rprj3_lem_example =
    rprj3_lem natural 4 4 4 (omega arith) (omega arith) (omega arith) blank weights ramp ramp 6 6 6
      3 2 0 (omega arith) (omega arith) (omega arith)

interp_lem_example :
    interp natural blank weights ramp 4 4 4 ramp 5 2 1
    ≡ 16 * 5 + 4 * 2 + 1 + correction natural weights ramp 5 2 1
interp_lem_example = interp_lem natural weights ramp blank 4 4 4 ramp 5 2 1
