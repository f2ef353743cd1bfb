-- ===== src/Npb/Mg/Charges/Tests.antt =====
-- `zran3` on a grid of 2 x 2 x 2 points between the borders, with one charge of each sign.
use hardposit_fpga.Base.{ℕ, ◌*◌, ◌%◌, ◌^◌, ◌≡◌, true, false, some, ltb, ◌&&◌, if◌then◌else◌, arith}
use hardposit_fpga.Npb.Mg.{Grid, zero3}
use hardposit_fpga.Npb.Mg.Charges.{Numbers, zran3}
use hardposit_fpga.Npb.Mg.Charges.Filling.{within, number_of}
use hardposit_fpga.Npb.Mg.Charges.Whole.{IsStrict, AreCharges, zran3_lem}

abbrev pub numbers : Numbers
numbers = record {
  null = 0;
  one = 2 ^ 46;
  minus = 2 ^ 47;
  greater = λ x y. ltb y x;
  less = λ x y. ltb x y;
  bits = λ n. n;
  a = 1220703125;
}

pub up : IsStrict numbers true
up = record {
  asymmetric = λ x y e. ground (arith, e);
  transitive = λ x y z d e. ground (arith, d, e);
}

pub low : IsStrict numbers false
low = record {
  asymmetric = λ x y e. ground (arith, e);
  transitive = λ x y z d e. ground (arith, d, e);
}

abbrev blank : Grid ℕ
blank i3 i2 i1 = 0

zran3_lem_example :
    (w : Grid ℕ) × (out : Grid ℕ) × (zran3 numbers 1 4 4 4 2 2 2 314159265 blank ≡ some out)
    × ((i3 i2 i1 : ℕ)
        → w i3 i2 i1 ≡ (
            if within 2 i3 && (within 2 i2 && within 2 i1)
            then 1220703125 ^ number_of 2 2 i3 i2 i1 * 314159265 % 2 ^ 46
            else zero3 0 4 4 4 blank i3 i2 i1))
    × AreCharges numbers up low 1 4 4 4 w out
zran3_lem_example =
    zran3_lem numbers up low 1 4 4 4 2 2 2 314159265 blank (omega arith) (omega arith) (omega arith)
