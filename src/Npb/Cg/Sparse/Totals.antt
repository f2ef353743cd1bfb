-- ===== src/Npb/Cg/Sparse/Totals.antt =====
-- The sum of the elements of a row with the same column, in the list and in the sorted arrays.
use hardposit_fpga.Base.{
  ℕ, zero, suc, ◌+◌, ◌-◌, ◌≤◌, ◌<◌, ◌≡◌, refl, sym, true, inl, inr, Bool-cases, ◌&&◌, ◌==◌,
  if◌then◌else◌, tally, arith,
}
use hardposit_fpga.Npb.Cg.Sparse.{Triples, row_of}
use hardposit_fpga.Npb.Cg.Sparse.Starts.{start_of, in_row}
use hardposit_fpga.Npb.Cg.Sparse.Sort.{place}

module _ {A : Type 0} (null : A) (add : A → A → A) where
  -- The element of the matrix that the first k triples of the list stand for: the sum of those
  -- of row j and column i, in the order of the list.
  abbrev pub element : ℕ → Triples A → ℕ → ℕ → ℕ → A
  element firstrow t j i zero = null
  element firstrow t j i (suc k) =
      if (row_of firstrow t.arow (suc k) == j) && (t.acol (suc k) == i)
      then add (element firstrow t j i k) (t.aelt (suc k))
      else element firstrow t j i k

  -- The sum of the first n entries with an index.
  abbrev pub total : ℕ → ℕ → (ℕ → A) → (ℕ → ℕ) → A
  total i zero v iv = null
  total i (suc n) v iv = if iv n == i then add (total i n v iv) (v n) else total i n v iv

  pub total_congr :
      (i n : ℕ) (v w : ℕ → A) (iv iw : ℕ → ℕ)
      → ((m : ℕ) → m < n → (v m ≡ w m) × (iv m ≡ iw m))
      → total i n v iv ≡ total i n w iw
  total_congr i zero v w iv iw e = refl
  total_congr i (suc n) v w iv iw e =
      let (a, b) = e n (omega arith) in
      let ih = total_congr i n v w iv iw (λ m lt. e m (omega (arith, lt))) in rw (a, b, ih) refl

module _ {ℓ} {A : Type ℓ} (null : A) where
  -- The entry with an index among the first n, or else `null`.
  abbrev pub lookup : ℕ → ℕ → (ℕ → A) → (ℕ → ℕ) → A
  lookup i zero v iv = null
  lookup i (suc n) v iv = if iv n == i then v n else lookup i n v iv

  pub lookup_congr :
      (i n : ℕ) (v w : ℕ → A) (iv iw : ℕ → ℕ)
      → ((m : ℕ) → m < n → (v m ≡ w m) × (iv m ≡ iw m))
      → lookup i n v iv ≡ lookup i n w iw
  lookup_congr i zero v w iv iw e = refl
  lookup_congr i (suc n) v w iv iw e =
      let (a, b) = e n (omega arith) in
      let ih = lookup_congr i n v w iv iw (λ m lt. e m (omega (arith, lt))) in rw (a, b, ih) refl

module _ {A : Type 0} (firstrow nnza : ℕ) (t : Triples A) (a : ℕ → A) (colidx : ℕ → ℕ) where
  -- Each triple is at its place.
  abbrev pub IsPlaced : Type 0
  IsPlaced =
      (u : ℕ)
      → u < nnza
      → (a (place firstrow t.arow nnza (suc u)) ≡ t.aelt (suc u))
        × (colidx (place firstrow t.arow nnza (suc u)) ≡ t.acol (suc u))

  row-place :
      (j k : ℕ)
      → (row_of firstrow t.arow (suc k) == j) ≡ true
      → place firstrow t.arow nnza (suc k)
        ≡ start_of firstrow t.arow nnza j + in_row firstrow t.arow j k
  row-place j k e =
      let e' : row_of firstrow t.arow (suc k) ≡ j = ground (arith, e) in
      let less : suc k - 1 ≡ k = omega arith in rw (less, e') refl

  pub total-placed :
      (null : A) (add : A → A → A)
      → IsPlaced
      → (j i k : ℕ) → k ≤ nnza
      → total null add i
          (in_row firstrow t.arow j k)
          (λ m. a (start_of firstrow t.arow nnza j + m))
          (λ m. colidx (start_of firstrow t.arow nnza j + m))
        ≡ element null add firstrow t j i k
  unfolding tally
  total-placed null add placed j i zero le = refl
  total-placed null add placed j i (suc k) le =
      let ih = total-placed null add placed j i k (omega (arith, le)) in
      elim (Bool-cases (row_of firstrow t.arow (suc k) == j)) [
        | inl e ↦
            let p = placed k le in let here = row-place j k e in rw (e, sym here, p.0, p.1, ih) refl
        | inr ne ↦ rw ne ih
      ]

  pub column-placed :
      (n : ℕ)
      → IsPlaced
      → ((u : ℕ) → 1 ≤ u → u ≤ nnza → (1 ≤ t.acol u) × (t.acol u ≤ n))
      → (j k : ℕ) → k ≤ nnza
      → (m : ℕ) → m < in_row firstrow t.arow j k
      → (1 ≤ colidx (start_of firstrow t.arow nnza j + m))
        × (colidx (start_of firstrow t.arow nnza j + m) ≤ n)
  unfolding tally
  column-placed n placed range j zero le m lt = absurd (omega (arith, lt))
  column-placed n placed range j (suc k) le m lt =
      let ih = column-placed n placed range j k (omega (arith, le)) m in
      let r = range (suc k) (omega arith) le in
      let p = placed k le in
      elim (Bool-cases (row_of firstrow t.arow (suc k) == j)) [
        | inl e ↦ elim (Bool-cases (m == in_row firstrow t.arow j k)) [
          | inl top ↦
              let top' : m ≡ in_row firstrow t.arow j k = ground (arith, top) in
              let here = row-place j k e in rw (top', sym here, p.1) r
          | inr other ↦ ih (ground (arith, lt, e, other))
        ]
        | inr ne ↦ ih (ground (arith, lt, ne))
      ]
