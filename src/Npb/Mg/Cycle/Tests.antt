-- ===== src/Npb/Mg/Cycle/Tests.antt =====
-- `setup` for a grid of 8 x 8 x 8 points, and the V-cycle over two levels.
use hardposit_fpga.Base.{ℕ, zero, suc, ◌+◌, ◌-◌, ◌*◌, ◌^◌, ◌≤◌, ◌≡◌, refl, arith}
use hardposit_fpga.Npb.Mg.{Grid, Arith}
use hardposit_fpga.Npb.Mg.Cycle.{Sizes3, setup, Levels, Setting, mg3_p}
use hardposit_fpga.Npb.Mg.Cycle.Sizes.{setup_lem}
use hardposit_fpga.Npb.Mg.Cycle.Reference.{IsNested, SameAt, improved}
use hardposit_fpga.Npb.Mg.Cycle.Whole.{mg3_p_lem}

abbrev eights : Sizes3
eights = record { nx = λ k. 8; ny = λ k. 8; nz = λ k. 8; m1 = λ k. 0; m2 = λ k. 0; m3 = λ k. 0 }

setup_lem_example :
    ((k : ℕ)
      → 1 ≤ k
      → k ≤ 3
      → ((setup 3 eights).0.m1 k ≡ 2 ^ k + 2)
        × ((setup 3 eights).0.m2 k ≡ 2 ^ k + 2)
        × ((setup 3 eights).0.m3 k ≡ 2 ^ k + 2))
    × ((setup 3 eights).1 ≡ 2 ^ 3 + 2)
    × ((setup 3 eights).2 ≡ 2 ^ 3 + 2)
    × ((setup 3 eights).3 ≡ 2 ^ 3 + 2)
setup_lem_example = setup_lem 3 eights (omega arith) refl refl refl

abbrev pub side : ℕ → ℕ
side zero = 3
side (suc k) = 2 * (side k - 1)

side_large : (k : ℕ) → 3 ≤ side k
side_large zero = omega arith
side_large (suc k) = let ih = side_large k in omega (arith, ih)

abbrev pub natural : Arith ℕ
natural = record { add = λ x y. x + y; sub = λ x y. x - y; mul = λ x y. x * y }

abbrev pub setting : Setting ℕ
setting = record {
  null = 0;
  junk = λ i. 7;
  w = λ k. 1;
  a = λ i. i + 1;
  c = λ i. i + 2;
  m1 = side;
  m2 = side;
  m3 = side;
}

pub setting-IsNested : IsNested setting
setting-IsNested = record {
  size1 = λ k lo. side_large k;
  size2 = λ k lo. side_large k;
  size3 = λ k lo. side_large k;
  double1 = λ k lo. refl;
  double2 = λ k lo. refl;
  double3 = λ k lo. refl;
}

abbrev pub ramp : Grid ℕ
ramp i3 i2 i1 = 36 * i3 + 6 * i2 + i1

abbrev pub ramps : Levels ℕ
ramps = record { u = λ k. ramp; r = λ k. ramp }

mg3_p_lem_example :
    SameAt natural setting 2
      ((mg3_p natural setting 2 6 6 6 ramp ramps).u 2)
      (improved natural setting 0 ramp ramp ramp)
mg3_p_lem_example = mg3_p_lem natural setting setting-IsNested 0 ramp ramps
