-- ===== src/Npb/Cg/Sparse/Starts.antt =====
-- The row pointers that `sparse` computes before it sorts.
use hardposit_fpga.Base.{
  ℕ, zero, suc, ◌+◌, ◌≤◌, ◌<◌, ◌≡◌, refl, ◌∙◌, inl, inr, Bool-cases, ltb, leb, ◌==◌, if◌then◌else◌,
  times, times-put, tally, arith,
}
use hardposit_fpga.Npb.Cg.Sparse.{row_of, clear_rows, count_triples, accumulate, set_pointers}

-- Where row j starts if the rows are stored one after the other: after the triples of all rows
-- before it.
abbrev pub start_of : ℕ → (ℕ → ℕ) → ℕ → ℕ → ℕ
start_of firstrow arow nnza j = suc (tally (λ t. ltb (row_of firstrow arow t) j) nnza)

-- How many of the first k triples are of row j.
abbrev pub in_row : ℕ → (ℕ → ℕ) → ℕ → ℕ → ℕ
in_row firstrow arow j k = tally (λ t. row_of firstrow arow t == j) k

-- The triples 1 to nnza are of the rows 1 to nrows.
abbrev pub RowsInRange : ℕ → ℕ → (ℕ → ℕ) → ℕ → Type 0
RowsInRange firstrow nrows arow nnza =
    (t : ℕ) → 1 ≤ t → t ≤ nnza → (1 ≤ row_of firstrow arow t) × (row_of firstrow arow t ≤ nrows)

module _ (firstrow : ℕ) (arow : ℕ → ℕ) where
  pub start-next :
      (j k : ℕ)
      → start_of firstrow arow k (suc j) ≡ start_of firstrow arow k j + in_row firstrow arow j k
  unfolding tally
  start-next j zero = omega arith
  start-next j (suc k) = ground (arith, start-next j k)

  -- The rows before row j end where it starts.
  pub start-apart :
      (i j k : ℕ)
      → i < j
      → start_of firstrow arow k i + in_row firstrow arow i k ≤ start_of firstrow arow k j
  unfolding tally
  start-apart i j zero lt = omega arith
  start-apart i j (suc k) lt = ground (arith, lt, start-apart i j k lt)

  pub start_first :
      (nrows k : ℕ) → RowsInRange firstrow nrows arow k → start_of firstrow arow k 1 ≡ 1
  unfolding tally
  start_first nrows zero range = refl
  start_first nrows (suc k) range =
      let r = range (suc k) (omega arith) (omega arith) in
      let ih = start_first nrows k (λ t lo hi. range t lo (omega (arith, hi))) in
      ground (arith, r.0, ih)

  count_triples_lem :
      (k j : ℕ) (r : ℕ → ℕ)
      → count_triples firstrow arow k r (suc j) ≡ r (suc j) + in_row firstrow arow j k
  unfolding count_triples times tally
  count_triples_lem zero j r = omega arith
  count_triples_lem (suc k) j r =
      let a = count_triples_lem k j r in
      let b = count_triples_lem k (row_of firstrow arow (suc k)) r in ground (arith, a, b)

clear_rows_lem : (n j : ℕ) (r : ℕ → ℕ) → 1 ≤ j → j ≤ suc n → clear_rows n r j ≡ 0
unfolding clear_rows
clear_rows_lem n j r lo hi = ground (arith, times-put 0 n r j, lo, hi)

accumulate_lem :
    (r s : ℕ → ℕ) (n : ℕ)
    → s 1 ≡ 1
    → ((k : ℕ) → k < n → s (suc (suc k)) ≡ s (suc k) + r (suc (suc k)))
    → (k : ℕ) → k ≤ n
    → (j : ℕ) → 1 ≤ j
    → accumulate k r j ≡ (if leb j (suc k) then s j else r j)
unfolding accumulate times
accumulate_lem r s n e next zero le j lo = elim (Bool-cases (j == 1)) [
  | inl one ↦ let one' : j ≡ 1 = ground (arith, one) in rw one' (ground (arith, e))
  | inr more ↦ ground (arith, more, lo)
]
accumulate_lem r s n e next (suc k) le j lo =
    let ih = accumulate_lem r s n e next k (omega (arith, le)) in
    let a = ih (suc (suc k)) (omega arith) in
    let b = ih (suc k) (omega arith) in
    let c = ih j lo in
    let d = next k le in
    elim (Bool-cases (j == suc (suc k))) [
      | inl top ↦
          let top' : j ≡ suc (suc k) = ground (arith, top) in rw top' (ground (arith, a, b, d))
      | inr other ↦ ground (arith, c, other)
    ]

module _ (firstrow n nrows nnza : ℕ) (arow : ℕ → ℕ) where
  -- If all triples are of the rows of the matrix, and these are at most n, then after the
  -- pointers are set the one of each row, and the one after the last row, is one more than the
  -- number of triples in the rows before it, whatever the pointers were.
  pub set_pointers_lem :
      RowsInRange firstrow nrows arow nnza
      → nrows ≤ n
      → (rowstr : ℕ → ℕ) (j : ℕ) → 1 ≤ j
      → j ≤ suc nrows
      → set_pointers n nrows firstrow arow nnza rowstr j ≡ start_of firstrow arow nnza j
  set_pointers_lem range le rowstr j lo hi =
      let r = count_triples firstrow arow nnza (clear_rows n rowstr) in
      accumulate_lem r (start_of firstrow arow nnza) nrows
        (start_first firstrow arow nrows nnza range)
        (λ k lt. ground (
          arith,
          count_triples_lem firstrow arow nnza (suc k) (clear_rows n rowstr),
          clear_rows_lem n (suc (suc k)) rowstr (omega arith) (omega (arith, lt, le)),
          start-next firstrow arow (suc k) nnza,
        ))
        nrows (omega arith) j lo
      ∙ ground (arith, hi)
