-- ===== src/Npb/Ft/Tests.antt =====
-- `compute_initial_conditions` on 2 x 3 x 2 points.
use hardposit_fpga.Base.{ℕ, ◌≡◌, some, ltb, ◌&&◌, if◌then◌else◌}
use hardposit_fpga.Npb.Ft.{Cube, Planes, compute_initial_conditions}
use hardposit_fpga.Npb.Ft.Initial.{drawn, compute_initial_conditions_lem}

abbrev blank : Cube
blank k j i = record { real = 0; imag = 0 }

compute_initial_conditions_lem_example :
    (s : Planes) × (compute_initial_conditions (λ n. n) 1220703125 314159265 2 3 2 blank (λ j. 0)
      ≡ some s)
    × ((u q c : ℕ)
        → s.cube u q c ≡ (
            if ltb u 2 && (ltb q 3 && ltb c 2)
            then drawn (λ n. n) 1220703125 314159265 2 3 u q c
            else blank u q c))
compute_initial_conditions_lem_example =
    compute_initial_conditions_lem (λ n. n) 1220703125 314159265 2 3 2 blank (λ j. 0)
