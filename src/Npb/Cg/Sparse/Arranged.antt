-- ===== src/Npb/Cg/Sparse/Arranged.antt =====
-- The bucket sort of `sparse` as a whole.
use hardposit_fpga.Base.{
  ℕ, zero, suc, ◌+◌, ◌-◌, ◌≤◌, ◌≡◌, refl, sym, leb, ◌&&◌, if◌then◌else◌, put, arith,
}
use hardposit_fpga.Npb.Cg.Sparse.{
  Triples, Csr, set_pointers, shift_down, shift_back, preload, sort_triples, arrange,
}
use hardposit_fpga.Npb.Cg.Sparse.Starts.{
  start_of, in_row, RowsInRange, start-next, start_first, set_pointers_lem,
}
use hardposit_fpga.Npb.Cg.Sparse.Sort.{rowstr-sort, sort_triples_lem}
use hardposit_fpga.Npb.Cg.Sparse.Totals.{element, total, IsPlaced, total-placed}

shift_down_lem :
    (k i : ℕ) (r : ℕ → ℕ) → shift_down k r (suc i) ≡ (if leb 1 i && leb i k then r i else r (suc i))
unfolding shift_down
shift_down_lem zero i r = ground arith
shift_down_lem (suc k) i r = ground (arith, shift_down_lem k i (put (suc (suc k)) (r (suc k)) r))

module _ (firstrow nrows nnza : ℕ) (arow rowstr : ℕ → ℕ) where
  -- After the sort the pointers are put back to where the rows start.
  shift_back_lem :
      RowsInRange firstrow nrows arow nnza
      → ((j : ℕ)
          → 1 ≤ j
          → j ≤ nrows
          → rowstr j ≡ start_of firstrow arow nnza j + in_row firstrow arow j nnza)
      → (j : ℕ) → 1 ≤ j
      → j ≤ suc nrows
      → shift_back nrows rowstr j ≡ start_of firstrow arow nnza j
  shift_back_lem range ends zero lo le = absurd (omega (arith, lo))
  shift_back_lem range ends (suc zero) lo le = sym (start_first firstrow arow nrows nnza range)
  shift_back_lem range ends (suc (suc j)) lo le = ground (
    arith,
    shift_down_lem nrows (suc j) rowstr,
    ends (suc j) (omega arith) (omega (arith, le)),
    start-next firstrow arow (suc j) nnza,
    le,
  )

module _ {A : Type 0} (null : A) (add : A → A → A) (n firstrow lastrow nnza : ℕ)
    (t : Triples A) where
  -- If every triple is of a row of the matrix and the matrix has at most n rows, then after the
  -- bucket sort of `sparse` the rows stand one after the other from 1 on, each as long as the
  -- list has triples of it; the sum of the entries of a row with a column is that of the triples
  -- of that row and column in the order of the list; and every triple stands at its place, behind
  -- the triples of the rows before and behind those of its own row that come earlier in the list;
  -- whatever the arrays held before.
  pub arrange_lem :
      RowsInRange firstrow (lastrow + 1 - firstrow) t.arow nnza
      → lastrow + 1 - firstrow ≤ n
      → (s : Csr A)
      → ((arrange null n firstrow lastrow t nnza s).rowstr 1 ≡ 1)
        × ((j : ℕ)
            → 1 ≤ j
            → j ≤ lastrow + 1 - firstrow
            → ((arrange null n firstrow lastrow t nnza s).rowstr (suc j)
                ≡ (arrange null n firstrow lastrow t nnza s).rowstr j
                  + in_row firstrow t.arow j nnza)
              × ((i : ℕ)
                  → total null add i
                      (in_row firstrow t.arow j nnza)
                      (λ k.
                        (arrange null n firstrow lastrow t nnza s).a
                          ((arrange null n firstrow lastrow t nnza s).rowstr j + k))
                      (λ k.
                        (arrange null n firstrow lastrow t nnza s).colidx
                          ((arrange null n firstrow lastrow t nnza s).rowstr j + k))
                    ≡ element null add firstrow t j i nnza))
        × IsPlaced firstrow nnza t
            (arrange null n firstrow lastrow t nnza s).a
            (arrange null n firstrow lastrow t nnza s).colidx
  unfolding arrange
  arrange_lem range fits s =
      let nrows = lastrow + 1 - firstrow in
      let pointers = set_pointers n nrows firstrow t.arow nnza s.rowstr in
      let starts = λ (i : ℕ). set_pointers_lem firstrow n nrows nnza t.arow range fits s.rowstr i in
      let s0 : Csr A = record {
        a = preload null nrows pointers s.a;
        colidx = s.colidx;
        rowstr = pointers;
      } in
      let sorted = sort_triples firstrow t nnza s0 in
      let placed : IsPlaced firstrow nnza t sorted.a sorted.colidx =
        sort_triples_lem firstrow nrows nnza t s0 range
          (λ i lo' hi'. starts i lo' (omega (arith, hi'))) nnza (omega arith) in
      let back : (i : ℕ)
          → 1 ≤ i
          → i ≤ suc nrows
          → shift_back nrows sorted.rowstr i ≡ start_of firstrow t.arow nnza i =
        shift_back_lem firstrow nrows nnza t.arow sorted.rowstr range (λ i lo' hi'. omega (
          arith,
          rowstr-sort firstrow nrows nnza t s0 nnza i,
          starts i lo' (omega (arith, hi')),
        )) in
      (
        refl,
        λ j lo hi. (
          omega (
            arith,
            back j lo (omega (arith, hi)),
            back (suc j) (omega arith) (omega (arith, hi)),
            start-next firstrow t.arow j nnza,
          ),
          λ i. rw (back j lo (omega (arith, hi))) (
              total-placed firstrow nnza t sorted.a sorted.colidx null add placed j i nnza
                (omega arith)),
        ),
        placed,
      )
