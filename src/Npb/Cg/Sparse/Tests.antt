-- ===== src/Npb/Cg/Sparse/Tests.antt =====
-- The theorem on the bucket sort of `sparse`, for a matrix of two rows with three triples, two of them of one element.
use hardposit_fpga.Base.{ℕ, suc, ◌+◌, ◌≤◌, ◌≡◌, ltb, if◌then◌else◌, arith}
use hardposit_fpga.Npb.Cg.Sparse.{Triples, Csr, arrange}
use hardposit_fpga.Npb.Cg.Sparse.Starts.{in_row, RowsInRange}
use hardposit_fpga.Npb.Cg.Sparse.Totals.{element, total, IsPlaced}
use hardposit_fpga.Npb.Cg.Sparse.Arranged.{arrange_lem}

abbrev three : Triples ℕ
three = record { arow = λ u. if ltb u 2 then 2 else 1; acol = λ u. 2; aelt = λ u. u + 4 }

abbrev empty : Csr ℕ
empty = record { a = λ k. 0; colidx = λ k. 0; rowstr = λ k. 0 }

rows : RowsInRange 1 2 three.arow 3
rows u lo hi = ground arith

abbrev run : Csr ℕ
run = arrange 0 2 1 2 three 3 empty

arrange_lem_example :
    (run.rowstr 1 ≡ 1)
    × ((j : ℕ)
        → 1 ≤ j
        → j ≤ 2
        → (run.rowstr (suc j) ≡ run.rowstr j + in_row 1 three.arow j 3)
          × ((i : ℕ)
              → total 0
                  (λ x y. x + y)
                  i
                  (in_row 1 three.arow j 3)
                  (λ k. run.a (run.rowstr j + k))
                  (λ k. run.colidx (run.rowstr j + k))
                ≡ element 0 (λ x y. x + y) 1 three j i 3))
    × IsPlaced 1 3 three run.a run.colidx
arrange_lem_example = arrange_lem 0 (λ x y. x + y) 2 1 2 3 three rows (omega arith) empty
