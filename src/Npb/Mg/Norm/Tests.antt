-- ===== src/Npb/Mg/Norm/Tests.antt =====
-- `norm2u3` on 2 x 2 x 2 points between the borders.
use hardposit_fpga.Base.{ℕ, ◌+◌, ◌*◌, ◌/◌, ◌≡◌, ltb, arith}
use hardposit_fpga.Npb.Mg.{Grid}
use hardposit_fpga.Npb.Mg.Norm.{Measure, norm2u3}
use hardposit_fpga.Npb.Mg.Norm.Largest.{
  sum_of_squares, grid_values, IsAbove, IsAttained, norm2u3_lem,
}

abbrev natural : Measure ℕ
natural = record {
  null = 0;
  add = λ x y. x + y;
  mul = λ x y. x * y;
  quotient = λ x y. x / y;
  root = λ x. x;
  absolute = λ x. x;
  greater = λ x y. ltb y x;
  number = λ n. n;
}

abbrev ramp : Grid ℕ
ramp i3 i2 i1 = 16 * i3 + 4 * i2 + i1

norm2u3_lem_example :
    ((norm2u3 natural ramp 4 4 4 2 2 2).0 ≡ sum_of_squares natural (grid_values ramp 2 2 2) / 8)
    × IsAbove natural (norm2u3 natural ramp 4 4 4 2 2 2).1 (grid_values ramp 2 2 2)
    × IsAttained natural (norm2u3 natural ramp 4 4 4 2 2 2).1 (grid_values ramp 2 2 2)
norm2u3_lem_example =
    norm2u3_lem natural (λ x y e. ground (arith, e)) (λ x y z d e. ground (arith, d, e)) ramp 4 4 4
      2 2 2
