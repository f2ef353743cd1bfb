-- ===== src/Npb/Cg/Sparse/Sort.antt =====
-- The bucket sort of `sparse`.
use hardposit_fpga.Base.{
  ℕ, zero, suc, ◌+◌, ◌-◌, ◌≤◌, ◌<◌, ◌≡◌, ap, ◌∙◌, inl, inr, true, false, Bool-cases, ltb, ◌==◌,
  put_hit, put_miss, times, tally, tally-passes, arith,
}
use hardposit_fpga.Npb.Cg.Sparse.{Triples, Csr, row_of, sort_triples}
use hardposit_fpga.Npb.Cg.Sparse.Starts.{start_of, in_row, RowsInRange, start-apart}

module _ (firstrow : ℕ) (arow : ℕ → ℕ) (nnza : ℕ) where
  -- Where a triple goes: behind the triples of the rows before its own, and behind those of its
  -- own row that come before it in the list.
  abbrev pub place : ℕ → ℕ
  place t =
      start_of firstrow arow nnza (row_of firstrow arow t)
      + in_row firstrow arow (row_of firstrow arow t) (t - 1)

  place-apart : (s t : ℕ) → s < t → t < nnza → (place (suc s) == place (suc t)) ≡ false
  place-apart s t lt le =
      let i = row_of firstrow arow (suc s) in
      let j = row_of firstrow arow (suc t) in
      let a = tally-passes (λ u. row_of firstrow arow u == i) s t (ground arith) lt in
      let b =
        tally-passes (λ u. row_of firstrow arow u == i) s nnza (ground arith)
          (omega (arith, lt, le)) in
      let c = tally-passes (λ u. row_of firstrow arow u == j) t nnza (ground arith) le in
      elim (Bool-cases (i == j)) [
        | inl e ↦ let e' : j ≡ i = ground (arith, e) in rw e' (ground (arith, a))
        | inr ne ↦ elim (Bool-cases (ltb i j)) [
          | inl less ↦
              let d = start-apart firstrow arow i j nnza (ground (arith, less)) in
              ground (arith, b, c, d)
          | inr more ↦
              let d = start-apart firstrow arow j i nnza (ground (arith, more, ne)) in
              ground (arith, b, c, d)
        ]
      ]

module _ {ℓ} {A : Type ℓ} (firstrow nrows nnza : ℕ) (t : Triples A) (s : Csr A) where
  pub rowstr-sort :
      (k j : ℕ) → (sort_triples firstrow t k s).rowstr j ≡ s.rowstr j + in_row firstrow t.arow j k
  unfolding sort_triples times tally
  rowstr-sort zero j = omega arith
  rowstr-sort (suc k) j =
      let a = rowstr-sort k j in
      let b = rowstr-sort k (row_of firstrow t.arow (suc k)) in ground (arith, a, b)

  -- If all triples are of the rows of the matrix and the pointers stand where the rows start,
  -- then after the sort each triple is at its place.
  pub sort_triples_lem :
      RowsInRange firstrow nrows t.arow nnza
      → ((j : ℕ) → 1 ≤ j → j ≤ nrows → s.rowstr j ≡ start_of firstrow t.arow nnza j)
      → (k : ℕ) → k ≤ nnza
      → (u : ℕ) → u < k
      → ((sort_triples firstrow t k s).a (place firstrow t.arow nnza (suc u)) ≡ t.aelt (suc u))
        × ((sort_triples firstrow t k s).colidx (place firstrow t.arow nnza (suc u))
            ≡ t.acol (suc u))
  unfolding sort_triples times
  sort_triples_lem range starts zero le u lt = absurd (omega (arith, lt))
  sort_triples_lem range starts (suc k) le u lt =
      let j = row_of firstrow t.arow (suc k) in
      let r = range (suc k) (omega arith) le in
      let here : (sort_triples firstrow t k s).rowstr j ≡ place firstrow t.arow nnza (suc k) =
        ground (arith, rowstr-sort k j, starts j r.0 r.1) in
      let q = place firstrow t.arow nnza (suc u) in
      let d = (sort_triples firstrow t k s).rowstr j in
      elim (Bool-cases (u == k)) [
        | inl e ↦
            let hit : (q == d) ≡ true = ground (arith, e, here) in
            let e' : k ≡ u = ground (arith, e) in
            (
              put_hit d q (t.aelt (suc k)) (sort_triples firstrow t k s).a hit
                  ∙ ap (λ v. t.aelt (suc v)) e',
              put_hit d q (t.acol (suc k)) (sort_triples firstrow t k s).colidx hit
                  ∙ ap (λ v. t.acol (suc v)) e',
            )
        | inr ne ↦
            let below : u < k = ground (arith, lt, ne) in
            let ih = sort_triples_lem range starts k (omega (arith, le)) u below in
            let miss : (q == d) ≡ false =
              ground (arith, here, place-apart firstrow t.arow nnza u k below le) in
            (
              put_miss d q (t.aelt (suc k)) (sort_triples firstrow t k s).a miss ∙ ih.0,
              put_miss d q (t.acol (suc k)) (sort_triples firstrow t k s).colidx miss ∙ ih.1,
            )
      ]
