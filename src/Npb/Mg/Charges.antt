-- ===== src/Npb/Mg/Charges.antt =====
-- sw/NPBhardposit/MG/mg.cpp: the search of `zran3` for the ten largest and the ten smallest numbers of
-- a grid, and the charges put at their places.
pub mod Search
pub mod Placing
pub mod Filling
pub mod Whole
pub mod Tests
use hardposit_fpga.Base.{
  ℕ, zero, suc, ◌+◌, ◌-◌, Bool, true, false, List, [], ◌∷◌, if◌then◌else◌, times, Option, none,
  some, leb, ◌*◌, ◌==◌, ◌&&◌,
}
use hardposit_fpga.Npb.Random.{randlc, vranlc}
use hardposit_fpga.Npb.Powers.{power}
use hardposit_fpga.Npb.Bubble.{Row, out_of_order, bubble}
use hardposit_fpga.Npb.Mg.{Grid, put3, zero3, comm3}

-- The two columns of the arrays `ten`, `j1`, `j2` and `j3`.
pub record Tens : Type 0 where
  pub largest : List Row
  pub smallest : List Row

-- The rows that the first loop of the search sets, for ten `count`s.
unfoldable pub blank_rows : ℕ → ℕ → List Row
blank_rows ten zero = []
blank_rows ten (suc count) = record { ten = ten; j1 = 0; j2 = 0; j3 = 0 } ∷ blank_rows ten count

abbrev pub point : Grid ℕ → ℕ → ℕ → ℕ → Row
point z i3 i2 i1 = record { ten = z i3 i2 i1; j1 = i1; j2 = i2; j3 = i3 }

module _ (greater less : ℕ → ℕ → Bool) where
  -- The body of one of the two tests: the point takes the first row, and `bubble` moves it.
  unfoldable pub consider : Bool → Row → List Row → List Row
  consider ind p [] = []
  consider ind p (x ∷ rows) =
      if out_of_order greater less ind p.ten x.ten
      then bubble greater less ind (p ∷ rows)
      else x ∷ rows

  abbrev pub consider_both : Grid ℕ → ℕ → ℕ → ℕ → Tens → Tens
  consider_both z i3 i2 i1 t = record {
    largest = consider true (point z i3 i2 i1) t.largest;
    smallest = consider false (point z i3 i2 i1) t.smallest;
  }

  -- The three loops of the search.
  unfoldable pub search : Grid ℕ → ℕ → ℕ → ℕ → Tens → Tens
  search z n1 n2 n3 t =
      times
        (λ i3.
          times (λ i2. times (λ i1. consider_both z (suc i3) (suc i2) (suc i1)) (n1 - 2)) (n2 - 2))
        (n3 - 2) t

-- A loop that puts a number at the places of the rows, from the last row to the first.
unfoldable pub put_charges : ℕ → List Row → Grid ℕ → Grid ℕ
put_charges v [] z = z
put_charges v (x ∷ rows) z = put3 x.j3 x.j2 x.j1 v (put_charges v rows z)

-- The grid after the search: zero, then the charges, and the borders exchanged. `one` and `minus`
-- are the words of 1.0 and -1.0.
unfoldable pub charge : ℕ → ℕ → ℕ → ℕ → ℕ → ℕ → Tens → Grid ℕ → Grid ℕ
charge null one minus n1 n2 n3 t z =
    comm3 n1 n2 n3
      (put_charges one t.largest (put_charges minus t.smallest (zero3 null n1 n2 n3 z)))

-- The grid and the seeds of the planes and of the rows.
pub record Fill : Type 0 where
  pub grid : Grid ℕ
  pub x0 : ℕ
  pub x1 : ℕ

module _ (bits : ℕ → ℕ) (a nx : ℕ) where
  -- The call of `vranlc` for a row; `bits` is what assigning r46 times a seed to an element makes.
  abbrev pub fill_row : ℕ → ℕ → ℕ → Grid ℕ → Grid ℕ
  fill_row i3 i2 xx z p q c =
      if (p == i3) && ((q == i2) && (leb 1 c && leb c nx))
      then bits ((vranlc nx xx a (λ j. 0)).1 c)
      else z p q c

  -- The body of the loop over `i2`.
  unfoldable pub row_step : ℕ → ℕ → ℕ → Fill → Fill
  row_step a1 i3 i2 s = record s { grid = fill_row i3 i2 s.x1 s.grid; x1 = randlc s.x1 a1 }

  -- The body of the loop over `i3`.
  unfoldable pub plane_step : ℕ → ℕ → ℕ → ℕ → Fill → Fill
  plane_step ny a1 a2 i3 s =
      let t = times (λ k. row_step a1 i3 (suc k)) ny (record s { x1 = s.x0 }) in
      record t { x0 = randlc t.x0 a2 }

  -- The first part of `zran3`, on the grid that `zero3` has cleared: since the grid is not divided,
  -- the first jump is by no number.
  unfoldable pub fill : ℕ → ℕ → ℕ → Grid ℕ → Option (Grid ℕ)
  fill ny nz x z = elim (power a nx) [
    | none ↦ none
    | some a1 ↦ elim (power a (nx * ny)) [
      | none ↦ none
      | some a2 ↦ elim (power a 0) [
        | none ↦ none
        | some ai ↦
            some
              (times (λ k. plane_step ny a1 a2 (suc k)) nz
                (record { grid = z; x0 = randlc x ai; x1 = 0 })).grid
      ]
    ]
  ]

-- The words of 0.0, 1.0 and -1.0, the tests `>` and `<` of Hardposit, the conversion of r46 times a
-- seed, and the multiplier of the sequence.
pub record Numbers : Type 0 where
  pub null : ℕ
  pub one : ℕ
  pub minus : ℕ
  pub greater : ℕ → ℕ → Bool
  pub less : ℕ → ℕ → Bool
  pub bits : ℕ → ℕ
  pub a : ℕ

-- The row of an index, which is below the number of rows.
abbrev pub row_at : List Row → ℕ → Row
row_at [] i = record { ten = 0; j1 = 0; j2 = 0; j3 = 0 }
row_at (x ∷ rows) zero = x
row_at (x ∷ rows) (suc i) = row_at rows i

abbrev pub drop : ℕ → List Row → List Row
drop zero rows = rows
drop (suc n) [] = []
drop (suc n) (x ∷ rows) = drop n rows

-- The loop that asks which rows are the best of all processors, for one sign: `m` is i1 + 1, and
-- m1 after the loop. Hardposit compares words.
abbrev pub ask_best : Grid ℕ → List Row → ℕ → ℕ
ask_best z rows m =
    let x = row_at rows (m - 1) in
    let best = z x.j3 x.j2 x.j1 in if best == z x.j3 x.j2 x.j1 then m - 1 else m

unfoldable pub first_best : Grid ℕ → List Row → ℕ → ℕ
first_best z rows ten = times (λ i. ask_best z rows) ten ten

-- The parts of `zran3` after the grid is filled, for the number `ten` of charges of each sign.
unfoldable pub place_charges : Numbers → ℕ → ℕ → ℕ → ℕ → Grid ℕ → Grid ℕ
place_charges g ten n1 n2 n3 z =
    let t =
      search g.greater g.less z n1 n2 n3
        (record { largest = blank_rows g.null ten; smallest = blank_rows g.one ten }) in
    let best : Tens = record {
      largest = drop (first_best z t.largest ten) t.largest;
      smallest = drop (first_best z t.smallest ten) t.smallest;
    } in
    charge g.null g.one g.minus n1 n2 n3 best z

-- `zran3`, where `x` is the first seed; `nz` is the number of planes, which the source has in ie3.
unfoldable pub zran3 : Numbers → ℕ → ℕ → ℕ → ℕ → ℕ → ℕ → ℕ → ℕ → Grid ℕ → Option (Grid ℕ)
zran3 g ten n1 n2 n3 nx ny nz x z = elim (fill g.bits g.a nx ny nz x (zero3 g.null n1 n2 n3 z)) [
  | none ↦ none
  | some w ↦ some (place_charges g ten n1 n2 n3 w)
]
