-- ===== src/Npb/Cg/Sparse.antt =====
-- sw/NPBhardposit/CG/cg.cpp: the phases of `sparse` that sort the triples of the matrix by rows. The
-- elements are of any type. They are only copied here, except that the preloading clears elements of
-- the array that no result has been assigned to. The last phase, which adds up the rows, clears
-- elements that may still stand in a slot of the FPGA, so plain values do not describe it.
pub mod Starts
pub mod Sort
pub mod Totals
pub mod Arranged
pub mod Tests
use hardposit_fpga.Base.{
  ℕ, zero, suc, ◌+◌, ◌-◌, Bool, true, false, not, ◌&&◌, if◌then◌else◌, put, times,
}

-- The list of triples, from 1 on.
pub record Triples {ℓ} (A : Type ℓ) : Type ℓ where
  pub arow : ℕ → ℕ
  pub acol : ℕ → ℕ
  pub aelt : ℕ → A

-- The matrix: row j has the entries from `rowstr j` up to the one before `rowstr (j + 1)`.
pub record Csr {ℓ} (A : Type ℓ) : Type ℓ where
  pub a : ℕ → A
  pub colidx : ℕ → ℕ
  pub rowstr : ℕ → ℕ

-- `arow[nza] - firstrow + 1`, for a row from firstrow on.
abbrev pub row_of : ℕ → (ℕ → ℕ) → ℕ → ℕ
row_of firstrow arow nza = arow nza + 1 - firstrow

unfoldable pub clear_rows : ℕ → (ℕ → ℕ) → ℕ → ℕ
clear_rows n rowstr = put (suc n) 0 (times (λ j. put (suc j) 0) n rowstr)

abbrev pub count_triple : ℕ → (ℕ → ℕ) → ℕ → (ℕ → ℕ) → ℕ → ℕ
count_triple firstrow arow nza rowstr =
    let j = suc (row_of firstrow arow nza) in put j (suc (rowstr j)) rowstr

unfoldable pub count_triples : ℕ → (ℕ → ℕ) → ℕ → (ℕ → ℕ) → ℕ → ℕ
count_triples firstrow arow nnza rowstr =
    times (λ k. count_triple firstrow arow (suc k)) nnza rowstr

-- `rowstr[1] = 1`, and every pointer from the second to the one after the last row adds the one
-- before it.
unfoldable pub accumulate : ℕ → (ℕ → ℕ) → ℕ → ℕ
accumulate nrows rowstr =
    times (λ k r. put (suc (suc k)) (r (suc (suc k)) + r (suc k)) r) nrows (put 1 1 rowstr)

-- The three loops that set the pointers.
abbrev pub set_pointers : ℕ → ℕ → ℕ → (ℕ → ℕ) → ℕ → (ℕ → ℕ) → ℕ → ℕ
set_pointers n nrows firstrow arow nnza rowstr =
    accumulate nrows (count_triples firstrow arow nnza (clear_rows n rowstr))

-- `rowstr[j+1] = rowstr[j]` from the last row down to the first.
unfoldable pub shift_down : ℕ → (ℕ → ℕ) → ℕ → ℕ
shift_down zero rowstr = rowstr
shift_down (suc j) rowstr = shift_down j (put (suc (suc j)) (rowstr (suc j)) rowstr)

-- The pointers, which the bucket sort has moved to the end of each row, back to its start.
abbrev pub shift_back : ℕ → (ℕ → ℕ) → ℕ → ℕ
shift_back nrows rowstr = put 1 1 (shift_down nrows rowstr)

module _ {ℓ} {A : Type ℓ} where
  -- The loops that preload the data pages, with the index and bounds that they have.
  unfoldable pub preload : A → ℕ → (ℕ → ℕ) → (ℕ → A) → ℕ → A
  preload null nrows rowstr a =
      times (λ j. times (λ m. put (rowstr j + m) null) (rowstr (suc j) - rowstr j)) nrows a

  -- The bucket sort: a triple goes where the pointer of its row stands.
  abbrev pub sort_triple : ℕ → Triples A → ℕ → Csr A → Csr A
  sort_triple firstrow t nza s =
      let j = row_of firstrow t.arow nza in
      let k = s.rowstr j in
      record {
        a = put k (t.aelt nza) s.a;
        colidx = put k (t.acol nza) s.colidx;
        rowstr = put j (suc (s.rowstr j)) s.rowstr;
      }

  unfoldable pub sort_triples : ℕ → Triples A → ℕ → Csr A → Csr A
  sort_triples firstrow t nnza s = times (λ k. sort_triple firstrow t (suc k)) nnza s

  -- The phases of `sparse` before the rows are added up: afterwards the triples stand by rows, and
  -- the pointers at the start of each.
  unfoldable pub arrange : A → ℕ → ℕ → ℕ → Triples A → ℕ → Csr A → Csr A
  arrange null n firstrow lastrow t nnza s =
      let nrows = lastrow + 1 - firstrow in
      let rowstr = set_pointers n nrows firstrow t.arow nnza s.rowstr in
      let a = preload null nrows rowstr s.a in
      let sorted =
        sort_triples firstrow t nnza (record { a = a; colidx = s.colidx; rowstr = rowstr }) in
      record { a = sorted.a; colidx = sorted.colidx; rowstr = shift_back nrows sorted.rowstr }
