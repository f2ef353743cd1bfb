-- ===== src/Npb/Cg/Make/Tests.antt =====
-- The triples of `makea` for a matrix of two rows.
use hardposit_fpga.Base.{ℕ, zero, suc, ◌+◌, ◌*◌, ◌≤◌, ◌≡◌, refl, true, none, some, times, arith}
use hardposit_fpga.Npb.Random.{randlc}
use hardposit_fpga.Npb.Cg.{
  Draw, double_until, sprnvc_round, sprnvc_loop, unmark, sprnvc, vecset_loop, vecset,
}
use hardposit_fpga.Npb.Cg.Sparse.{Triples}
use hardposit_fpga.Npb.Cg.Make.List.{IsInside, value_of}
use hardposit_fpga.Npb.Cg.Make.{made, Filled, Shape, between, first_draw, draw_vector, make_triples}
use hardposit_fpga.Npb.Cg.Make.Whole.{AreDrawn, matrix_value, make_triples_lem}

abbrev two_rows : Shape
two_rows = record {
  n = 2;
  nz = 10;
  nonzer = 1;
  firstrow = 1;
  lastrow = 2;
  firstcol = 1;
  lastcol = 2;
}

abbrev no_triples : Triples ℕ
no_triples = record { arow = λ k. 0; acol = λ k. 0; aelt = λ k. 0 }

unfoldable vectors : ℕ → Draw
vectors zero = first_draw 2 314159265 (λ j. 0) (λ j. 0) (λ k. 0)
vectors (suc k) =
    let d = vectors k in
    elim (draw_vector (λ e. e) 1220703125 5 1 two_rows (suc k) d) [ none ↦ d | some e ↦ e ]

vectors-AreDrawn :
    AreDrawn (λ x y. x + y) (λ x y. x * y) 0 1 1 two_rows vectors (λ e. e) 1220703125 5 1
unfolding vectors draw_vector sprnvc sprnvc_loop sprnvc_round double_until randlc unmark vecset
    vecset_loop times
vectors-AreDrawn zero lt = refl
vectors-AreDrawn (suc zero) lt = refl
vectors-AreDrawn (suc (suc k)) lt = absurd (omega (arith, lt))

make_triples_lem_example :
    (m : Filled) × (make_triples
        (λ e. e)
        1220703125
        5
        1
        two_rows
        (λ x y. x * y)
        1
        1
        3
        314159265
        (λ j. 0)
        (λ j. 0)
        (λ k. 0)
        no_triples
      ≡ made m)
    × (m.nnza ≤ 10)
    × IsInside two_rows m
    × ((r i : ℕ)
        → between 1 2 r ≡ true
        → value_of (λ x y. x + y) 0 two_rows m r i
          ≡ matrix_value (λ x y. x + y) (λ x y. x * y) 0 1 1 two_rows vectors 3 r i)
unfolding vectors
make_triples_lem_example =
    make_triples_lem (λ e. e) 1220703125 5 1 (λ x y. x + y) (λ x y. x * y) 0 1 1 3 two_rows vectors
      314159265 (λ j. 0) (λ j. 0) (λ k. 0) no_triples (λ x le. refl) refl vectors-AreDrawn
      (omega arith)
