-- ===== src/Npb/Ft.antt =====
-- sw/NPBhardposit/FT/ft.cpp: `compute_initial_conditions`, which fills the grid with random numbers.
-- The starts of the layout are 1 and its sizes NX, NY and NZ, as `setup` sets them.
pub mod Initial
pub mod Tests
use hardposit_fpga.Base.{
  ℕ, suc, ◌+◌, ◌*◌, ◌-◌, Option, none, some, ◌==◌, ◌&&◌, if◌then◌else◌, times,
}
use hardposit_fpga.Npb.Random.{randlc, vranlc}
use hardposit_fpga.Npb.Powers.{ipow46}

-- The parts are the words of Hardposit objects.
pub record Pcomplex : Type 0 where
  pub real : ℕ
  pub imag : ℕ

abbrev pub Cube : Type 0
Cube = ℕ → ℕ → ℕ → Pcomplex

-- The loops over a plane have the grid and the place `t` in the array.
pub record Scan : Type 0 where
  pub u0 : Cube
  pub t : ℕ

-- The loop over the planes has the grid, the seed and the array, which is static.
pub record Planes : Type 0 where
  pub cube : Cube
  pub start : ℕ
  pub tmp : ℕ → ℕ

-- `bits` is what assigning a double, r46 times a seed, to a part makes.
module _ (bits : ℕ → ℕ) where
  -- The body of the loop over `i`.
  abbrev pub set_point : (ℕ → ℕ) → ℕ → ℕ → ℕ → Scan → Scan
  set_point tmp k j i s = record {
    u0 = λ u q c.
        if (u == k) && ((q == j) && (c == i))
        then record { real = bits (tmp s.t); imag = bits (tmp (s.t + 1)) }
        else s.u0 u q c;
    t = s.t + 2;
  }

  unfoldable pub scan_plane : (ℕ → ℕ) → ℕ → ℕ → ℕ → Cube → Scan
  scan_plane tmp nx ny k u0 =
      times (λ j. times (set_point tmp k j) nx) ny (record { u0 = u0; t = 1 })

  -- The body of the loop over `k`. Its last test is true for every k below the number of planes.
  unfoldable pub next_square : ℕ → ℕ → ℕ → ℕ → ℕ → ℕ → Planes → Planes
  next_square a an nx ny nz k s =
      let tmp = (vranlc (2 * nx * ny) s.start a s.tmp).1 in
      record {
        cube = (scan_plane tmp nx ny k s.cube).u0;
        start = if k == nz then s.start else randlc s.start an;
        tmp = tmp;
      }

  unfoldable pub compute_initial_conditions : ℕ → ℕ → ℕ → ℕ → ℕ → Cube → (ℕ → ℕ) → Option Planes
  compute_initial_conditions a seed nx ny nz u0 tmp =
      elim (ipow46 a ((1 - 1) * 2 * nx * ny + (1 - 1) * 2 * nx)) [
        | none ↦ none
        | some an ↦ elim (ipow46 a (2 * nx * ny)) [
          | none ↦ none
          | some an' ↦ some (
              times (next_square a an' nx ny nz) nz
                (record { cube = u0; start = randlc seed an; tmp = tmp }))
        ]
      ]
