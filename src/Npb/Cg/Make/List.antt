-- ===== src/Npb/Cg/Make/List.antt =====
-- What one more triple does to the matrix that a list of triples stands for.
use hardposit_fpga.Base.{
  ℕ, zero, suc, ◌+◌, ◌-◌, ◌≤◌, ◌<◌, ◌≡◌, refl, true, false, ◌&&◌, ltb, ◌==◌, if◌then◌else◌, put,
  arith,
}
use hardposit_fpga.Npb.Cg.Sparse.{Triples}
use hardposit_fpga.Npb.Cg.Sparse.Totals.{element}
use hardposit_fpga.Npb.Cg.Make.{Made, made, Filled, Shape, add_triple, between}

-- The triples are of the rows and columns asked for.
abbrev pub IsInside : Shape → Filled → Type 0
IsInside g m =
    (u : ℕ)
    → 1 ≤ u
    → u ≤ m.nnza
    → (between g.firstrow g.lastrow (m.list.arow u) ≡ true)
      × (between g.firstcol g.lastcol (m.list.acol u) ≡ true)

module _ (add : ℕ → ℕ → ℕ) (null : ℕ) (g : Shape) where
  -- The element at row r and column i.
  abbrev pub value_of : Filled → ℕ → ℕ → ℕ
  value_of m r i = element null add g.firstrow m.list (r + 1 - g.firstrow) i m.nnza

  -- The run gives a list of at most `most` triples, of given values.
  pub record Gives (x : Made Filled) (most : ℕ) (value : ℕ → ℕ → ℕ) : Type 0 where
    pub filled : Filled
    pub is_made : x ≡ made filled
    pub few : filled.nnza ≤ most
    pub inside : IsInside g filled
    pub values : (r i : ℕ) → between g.firstrow g.lastrow r ≡ true → value_of filled r i ≡ value r i

  element-put :
      (row col elt p j i k : ℕ) (t : Triples ℕ)
      → k < p
      → element null add g.firstrow
          (record { arow = put p row t.arow; acol = put p col t.acol; aelt = put p elt t.aelt })
          j
          i
          k
        ≡ element null add g.firstrow t j i k
  element-put row col elt p j i zero t lt = refl
  element-put row col elt p j i (suc k) t lt =
      let ih = element-put row col elt p j i k t (omega (arith, lt)) in
      let miss : (suc k == p) ≡ false = ground (arith, lt) in rw (miss, ih) refl

  pub add_triple-Gives :
      (row col elt : ℕ) (m : Filled)
      → IsInside g m
      → m.nnza < g.nz
      → between g.firstrow g.lastrow row ≡ true
      → between g.firstcol g.lastcol col ≡ true
      → Gives
          (add_triple g.nz row col elt m)
          (suc m.nnza)
          (λ r i. if (r == row) && (i == col) then add (value_of m r i) elt else value_of m r i)
  unfolding add_triple
  add_triple-Gives row col elt m inside room rows columns =
      let k = suc m.nnza in
      let fits : ltb g.nz k ≡ false = ground (arith, room) in
      record {
        filled = record {
          list = record {
            arow = put k row m.list.arow;
            acol = put k col m.list.acol;
            aelt = put k elt m.list.aelt;
          };
          nnza = k;
        };
        is_made = rw fits refl;
        few = omega arith;
        inside = λ u lo hi. ground (arith, inside u lo, hi, rows, columns);
        values = λ r i e.
            let ih = element-put row col elt k (r + 1 - g.firstrow) i m.nnza m.list (omega arith) in
            let here : (k == k) ≡ true = ground arith in
            let same : ((row + 1 - g.firstrow == r + 1 - g.firstrow) && (col == i))
                ≡ ((r == row) && (i == col)) =
              ground (arith, rows, e) in
            rw (here, ih, same) refl;
      }
