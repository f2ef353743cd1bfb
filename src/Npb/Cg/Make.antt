-- ===== src/Npb/Cg/Make.antt =====
-- sw/NPBhardposit/CG/cg.cpp: `makea`, which makes the triples of the matrix out of random sparse
-- vectors, up to the call of `sparse`. A number is the word that an object stands for; the operators
-- are parameters.
pub mod List
pub mod Outer
pub mod Draws
pub mod Diagonal
pub mod Whole
pub mod Tests
use hardposit_fpga.Base.{
  ℕ, zero, suc, ◌+◌, ◌-◌, Bool, not, ◌==◌, Option, none, some, ltb, leb, ◌&&◌, if◌then◌else◌, put,
  times,
}
use hardposit_fpga.Npb.Cg.{Draw, sprnvc, Entries, vecset}
use hardposit_fpga.Npb.Cg.Sparse.{Triples}

-- How a part of `makea` ends: in a result, in `exit(1)` since the space is exceeded by the element
-- of the number printed, or in a vector that is not drawn within the fuel.
pub data Made {ℓ} (A : Type ℓ) : Type ℓ where
  made : A → Made A
  exceeded : ℕ → Made A
  undrawn : Made A

abbrev pub then_do {ℓ} : {A B : Type ℓ} → Made A → (A → Made B) → Made B
then_do (made x) f = f x
then_do (exceeded k) f = exceeded k
then_do undrawn f = undrawn

-- The triples made so far.
pub record Filled : Type 0 where
  pub list : Triples ℕ
  pub nnza : ℕ

-- One more triple, if there is space.
unfoldable pub add_triple : ℕ → ℕ → ℕ → ℕ → Filled → Made Filled
add_triple nz row col elt m =
    let k = suc m.nnza in
    if ltb nz k
    then exceeded k
    else made (record {
      list = record {
        arow = put k row m.list.arow;
        acol = put k col m.list.acol;
        aelt = put k elt m.list.aelt;
      };
      nnza = k;
    })

abbrev pub between : ℕ → ℕ → ℕ → Bool
between low high i = leb low i && leb i high

-- The numbers, rows and columns that `makea` is given.
pub record Shape : Type 0 where
  pub n : ℕ
  pub nz : ℕ
  pub nonzer : ℕ
  pub firstrow : ℕ
  pub lastrow : ℕ
  pub firstcol : ℕ
  pub lastcol : ℕ

module _ (mul : ℕ → ℕ → ℕ) (g : Shape) where
  -- The loop over `ivelt1`, up to `count`.
  unfoldable pub make_column : Draw → ℕ → ℕ → ℕ → Made Filled → Made Filled
  make_column d jcol scale count =
      times
        (λ l r. then_do r (λ m.
          let irow = d.iv (suc l) in
          if between g.firstrow g.lastrow irow
          then add_triple g.nz irow jcol (mul (d.v (suc l)) scale) m
          else made m))
        count

  -- The loop over `ivelt`, up to `count`.
  unfoldable pub make_outer : Draw → ℕ → ℕ → Made Filled → Made Filled
  make_outer d size count =
      times
        (λ k r. then_do r (λ m.
          let jcol = d.iv (suc k) in
          if between g.firstcol g.lastcol jcol
          then make_column d jcol (mul size (d.v (suc k))) d.nzv (made m)
          else made m))
        count

-- The last loop: the diagonal.
unfoldable pub make_diagonal : Shape → ℕ → ℕ → Made Filled → Made Filled
make_diagonal g elt count =
    times
      (λ k r. then_do r (λ m.
        let i = g.firstrow + k in
        if between g.firstcol g.lastcol i then add_triple g.nz i i elt m else made m))
      count

-- The work space of `sprnvc` before the first round: the marks from 1 to n are cleared.
abbrev pub first_draw : ℕ → ℕ → (ℕ → ℕ) → (ℕ → ℕ) → (ℕ → ℕ) → Draw
first_draw n tran v iv colidx = record {
  tran = tran;
  v = v;
  iv = iv;
  nzloc = colidx;
  mark = times (λ i. put (suc i) 0) n (λ i. colidx (n + i));
  nzrow = 0;
  nzv = 0;
}

-- What a round of the loop over `iouter` carries on.
pub record Round : Type 0 where
  pub drawn : Draw
  pub size : ℕ
  pub filled : Filled

module _ (bits : ℕ → ℕ) (amult fuel half : ℕ) (g : Shape) where
  -- The calls of `sprnvc` and `vecset` in one round.
  unfoldable pub draw_vector : ℕ → Draw → Option Draw
  draw_vector iouter s = elim (sprnvc bits amult fuel g.n g.nonzer s) [
    | none ↦ none
    | some t ↦
        let e = vecset iouter half (record { v = t.v; iv = t.iv; nzv = g.nonzer }) in
        some (record t { v = e.v; iv = e.iv; nzv = e.nzv })
  ]

  abbrev pub make_round : (ℕ → ℕ → ℕ) → ℕ → ℕ → Round → Made Round
  make_round mul ratio iouter s = elim (draw_vector iouter s.drawn) [
    | none ↦ undrawn
    | some d ↦
        then_do (make_outer mul g d s.size d.nzv (made s.filled))
          (λ m. made (record { drawn = d; size = mul s.size ratio; filled = m }))
  ]

  unfoldable pub make_rounds : (ℕ → ℕ → ℕ) → ℕ → ℕ → Made Round → Made Round
  make_rounds mul ratio count = times (λ k r. then_do r (make_round mul ratio (suc k))) count

  -- `makea` before the call of `sparse`, from the seed and the arrays as they are at the call; `one`
  -- is 1.0, `half` 0.5, `diagonal` the difference of rcond and shift, `ratio` what `pow` gives.
  -- `sprnvc` has the lower part of `colidx` for the places and the upper part for the marks.
  unfoldable pub make_triples :
      (ℕ → ℕ → ℕ) → ℕ → ℕ → ℕ → ℕ → (ℕ → ℕ) → (ℕ → ℕ) → (ℕ → ℕ) → Triples ℕ → Made Filled
  make_triples mul one ratio diagonal tran v iv colidx list =
      let start : Round = record {
        drawn = first_draw g.n tran v iv colidx;
        size = one;
        filled = record { list = list; nnza = 0 };
      } in
      then_do (make_rounds mul ratio g.n (made start))
        (λ r. make_diagonal g diagonal (g.lastrow + 1 - g.firstrow) (made r.filled))
