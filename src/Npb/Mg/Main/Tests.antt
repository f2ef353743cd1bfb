-- ===== src/Npb/Mg/Main/Tests.antt =====
-- The benchmark on two levels with three cycles, and one charge of each sign.
use hardposit_fpga.Base.{ℕ, ◌*◌, ◌%◌, ◌^◌, ◌≡◌, refl, true, some, ◌&&◌}
use hardposit_fpga.Npb.Mg.{Grid}
use hardposit_fpga.Npb.Mg.Cycle.{Levels}
use hardposit_fpga.Npb.Mg.Cycle.Reference.{SameAt}
use hardposit_fpga.Npb.Mg.Cycle.Tests.{natural, setting, setting-IsNested, ramp, ramps}
use hardposit_fpga.Npb.Mg.Charges.Filling.{within, number_of}
use hardposit_fpga.Npb.Mg.Charges.Whole.{AreCharges}
use hardposit_fpga.Npb.Mg.Charges.Tests.{numbers, up, low}
use hardposit_fpga.Npb.Mg.Main.{benchmark}
use hardposit_fpga.Npb.Mg.Main.Whole.{iterate, residue, benchmark_lem}

benchmark_lem_example :
    (w : Grid ℕ) × (b : Grid ℕ) × (out : Levels ℕ) × (benchmark natural setting numbers 6 6 6 1 4 4
        4 314159265 2 3 ramp ramps
      ≡ some out)
    × ((i3 i2 i1 : ℕ)
        → (within 4 i3 && (within 4 i2 && within 4 i1)) ≡ true
        → w i3 i2 i1 ≡ 1220703125 ^ number_of 4 4 i3 i2 i1 * 314159265 % 2 ^ 46)
    × AreCharges numbers up low 1 6 6 6 w b
    × SameAt natural setting 2 (out.u 2) (iterate natural setting 0 b 3)
    × SameAt natural setting 2
        (out.r 2)
        (residue natural setting 2 b (iterate natural setting 0 b 3))
benchmark_lem_example =
    benchmark_lem natural setting numbers setting-IsNested up low 0 6 6 6 1 4 4 4 314159265 3 refl
      refl refl ramp ramps
