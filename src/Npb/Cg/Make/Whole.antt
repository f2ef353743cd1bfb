-- ===== src/Npb/Cg/Make/Whole.antt =====
-- The triples of `makea`: the sum of the outer products of the vectors drawn, and the diagonal.
use native.Mathlib.Nat.{mul-le-mul}
use hardposit_fpga.Base.{
  ℕ, zero, suc, ◌+◌, ◌-◌, ◌*◌, ◌≤◌, ◌<◌, ◌≡◌, refl, subst, ◌∙◌, true, some, ◌&&◌, ◌==◌,
  if◌then◌else◌, times, times-put, arith,
}
use hardposit_fpga.Npb.Cg.{Draw}
use hardposit_fpga.Npb.Cg.Vectors.{occurs}
use hardposit_fpga.Npb.Cg.Sparse.{Triples}
use hardposit_fpga.Npb.Cg.Make.{
  made, Filled, Shape, between, make_outer, first_draw, Round, draw_vector, make_round, make_rounds,
  make_triples,
}
use hardposit_fpga.Npb.Cg.Make.List.{IsInside, value_of}
use hardposit_fpga.Npb.Cg.Make.Outer.{look, make_outer-Gives}
use hardposit_fpga.Npb.Cg.Make.Draws.{IsUnmarked, draw_vector-IsUnmarked}
use hardposit_fpga.Npb.Cg.Make.Diagonal.{is_met, make_diagonal-Gives}

module _ (add mul : ℕ → ℕ → ℕ) (null one ratio : ℕ) (g : Shape) (ds : ℕ → Draw) where
  -- The scale of a round.
  abbrev pub size_at : ℕ → ℕ
  size_at zero = one
  size_at (suc k) = mul (size_at k) ratio

  -- The value of a vector at an index.
  abbrev pub at : Draw → ℕ → ℕ
  at d i = look null d i d.nzv

  -- The sum over the first k vectors: each adds the product of its values at the row and, scaled,
  -- at the column, if it has both.
  abbrev pub outer_sum : ℕ → ℕ → ℕ → ℕ
  outer_sum r i zero = null
  outer_sum r i (suc k) =
      let d = ds (suc k) in
      if occurs i d.nzv d.iv && (between g.firstcol g.lastcol i && occurs r d.nzv d.iv)
      then add (outer_sum r i k) (mul (at d r) (mul (size_at k) (at d i)))
      else outer_sum r i k

  -- The element of the matrix at row r and column i.
  abbrev pub matrix_value : ℕ → ℕ → ℕ → ℕ
  matrix_value elt r i =
      if (r == i) && between g.firstcol g.lastcol i
      then add (outer_sum r i g.n) elt
      else outer_sum r i g.n

  module _ (bits : ℕ → ℕ) (amult fuel half : ℕ) where
    -- The vectors are the ones that the rounds draw one after the other.
    abbrev pub AreDrawn : Type 0
    AreDrawn =
        (k : ℕ) → k < g.n → draw_vector bits amult fuel half g (suc k) (ds k) ≡ some (ds (suc k))

    drawn-IsUnmarked : AreDrawn → IsUnmarked (ds 0) → (k : ℕ) → k ≤ g.n → IsUnmarked (ds k)
    drawn-IsUnmarked drawn clear zero le = clear
    drawn-IsUnmarked drawn clear (suc k) le =
        (draw_vector-IsUnmarked bits amult fuel half g (suc k) (ds k) (ds (suc k))
          (drawn-IsUnmarked drawn clear k (omega (arith, le))) (drawn k le)).2

    make_round-made :
        (iouter : ℕ) (s : Round) (d : Draw) (m : Filled)
        → draw_vector bits amult fuel half g iouter s.drawn ≡ some d
        → make_outer mul g d s.size d.nzv (made s.filled) ≡ made m
        → make_round bits amult fuel half g mul ratio iouter s
          ≡ made (record { drawn = d; size = mul s.size ratio; filled = m })
    make_round-made iouter s d m e f = rw (e, make_round, f) refl

    -- What k rounds leave.
    record IsRun (list : Triples ℕ) (k : ℕ) : Type 0 where
      filled : Filled
      is_made :
          make_rounds bits amult fuel half g mul ratio k
            (made (record { drawn = ds 0; size = one; filled = record { list = list; nnza = 0 } }))
          ≡ made (record { drawn = ds k; size = size_at k; filled = filled })
      few : filled.nnza ≤ k * (suc g.nonzer * suc g.nonzer)
      inside : IsInside g filled
      values :
          (r i : ℕ)
          → between g.firstrow g.lastrow r ≡ true
          → value_of add null g filled r i ≡ outer_sum r i k

    rounds-IsRun :
        AreDrawn
        → IsUnmarked (ds 0)
        → g.n * (suc g.nonzer * suc g.nonzer) ≤ g.nz
        → (list : Triples ℕ) (k : ℕ) → k ≤ g.n
        → IsRun list k
    unfolding make_rounds times
    rounds-IsRun drawn clear room list zero le = record {
      filled = record { list = list; nnza = 0 };
      is_made = refl;
      few = omega arith;
      inside = λ u lo hi. absurd (omega (arith, lo, hi));
      values = λ r i e. refl;
    }
    rounds-IsRun drawn clear room list (suc k) le =
        let s = suc g.nonzer * suc g.nonzer in
        let ih = rounds-IsRun drawn clear room list k (omega (arith, le)) in
        let d = ds (suc k) in
        let (distinct, few, _) =
          draw_vector-IsUnmarked bits amult fuel half g (suc k) (ds k) d
            (drawn-IsUnmarked drawn clear k (omega (arith, le))) (drawn k le) in
        let square : d.nzv * d.nzv ≤ s = mul-le-mul few few in
        let upto : suc k * s ≤ g.n * s = mul-le-mul le (omega arith) in
        let next : suc k * s ≡ k * s + s = omega arith in
        let h =
          make_outer-Gives add mul null g d (size_at k) d.nzv ih.filled distinct (omega arith)
            ih.inside (omega (arith, ih.few, square, upto, next, room)) in
        record {
          filled = h.filled;
          is_made = rw ih.is_made (
              make_round-made (suc k)
                (record { drawn = ds k; size = size_at k; filled = ih.filled }) d h.filled
                (drawn k le) h.is_made);
          few = omega (arith, h.few, ih.few, square, next);
          inside = h.inside;
          values = λ r i e. h.values r i e ∙ rw (ih.values r i e) refl;
        }

first_draw-IsUnmarked :
    (n tran : ℕ) (v iv colidx : ℕ → ℕ)
    → ((x : ℕ) → n ≤ x → colidx x ≡ 0)
    → IsUnmarked (first_draw n tran v iv colidx)
first_draw-IsUnmarked n tran v iv colidx outside x =
    ground (arith, times-put 0 n (λ i. colidx (n + i)) x, outside (n + x))

-- The diagonal is met in every row asked for.
all-met :
    (add : ℕ → ℕ → ℕ) (null diagonal : ℕ) (g : Shape) (r i : ℕ)
    → g.firstrow ≤ r
    → r ≤ g.lastrow
    → is_met add null g diagonal (g.lastrow + 1 - g.firstrow) r i
      ≡ ((r == i) && between g.firstcol g.lastcol i)
all-met add null diagonal g r i lo hi = ground (arith, lo, hi)

-- If the n vectors are drawn, colidx is zero from n on before, and the arrays have space for n
-- times the square of one more than the number of nonzeros asked for and for an element per row
-- more, then `makea` reaches its call of `sparse` without an exit, with a list of triples that
-- fits the arrays, all of rows and columns asked for; and for a row asked for, the sum of its
-- triples at a column, in the order of the list, is the sum, in the order of the vectors that
-- have both indices, of the product of the value at the row and the scaled value at the column,
-- plus the difference of rcond and shift on the diagonal.
pub make_triples_lem :
    (bits : ℕ → ℕ) (amult fuel half : ℕ) (add mul : ℕ → ℕ → ℕ) (null one ratio diagonal : ℕ)
    (g : Shape) (ds : ℕ → Draw) (tran : ℕ) (v iv colidx : ℕ → ℕ) (list : Triples ℕ)
    → ((x : ℕ) → g.n ≤ x → colidx x ≡ 0)
    → ds 0 ≡ first_draw g.n tran v iv colidx
    → AreDrawn add mul null one ratio g ds bits amult fuel half
    → g.n * (suc g.nonzer * suc g.nonzer) + (g.lastrow + 1 - g.firstrow) ≤ g.nz
    → (m : Filled) × (make_triples bits amult fuel half g mul one ratio diagonal tran v iv colidx
          list
        ≡ made m)
      × (m.nnza ≤ g.nz)
      × IsInside g m
      × ((r i : ℕ)
          → between g.firstrow g.lastrow r ≡ true
          → value_of add null g m r i ≡ matrix_value add mul null one ratio g ds diagonal r i)
unfolding make_triples
make_triples_lem bits amult fuel half add mul null one ratio diagonal g ds tran v iv colidx list
      outside first drawn room =
    let nrows = g.lastrow + 1 - g.firstrow in
    let clear : IsUnmarked (ds 0) = rw first (first_draw-IsUnmarked g.n tran v iv colidx outside) in
    let run =
      rounds-IsRun add mul null one ratio g ds bits amult fuel half drawn clear
        (omega (arith, room)) list g.n (omega arith) in
    let start : Draw → Round =
      λ d. record { drawn = d; size = one; filled = record { list = list; nnza = 0 } } in
    let e =
      subst
        (λ d.
          make_rounds bits amult fuel half g mul ratio g.n (made (start d))
          ≡ made (record {
            drawn = ds g.n;
            size = size_at add mul null one ratio g ds g.n;
            filled = run.filled;
          }))
        first run.is_made in
    let h =
      make_diagonal-Gives add null g diagonal nrows run.filled (omega arith) run.inside
        (omega (arith, run.few, room)) in
    (
      h.filled,
      rw (e, h.is_made) refl,
      omega (arith, h.few, run.few, room),
      h.inside,
      λ r i e'.
          let met = all-met add null diagonal g r i (ground (arith, e')) (ground (arith, e')) in
          h.values r i e' ∙ rw (met, run.values r i e') refl,
    )
