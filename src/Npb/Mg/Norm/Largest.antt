-- ===== src/Npb/Mg/Norm/Largest.antt =====
-- `norm2u3` against the sum of squares and the largest absolute value of the interior points.
use hardposit_fpga.Base.{
  ℕ, zero, suc, ◌-◌, ◌*◌, ◌≡◌, refl, sym, ap, subst, ◌∙◌, true, false, inl, inr, ◌⊎◌, Bool-cases,
  List, [], ◌∷◌, times,
}
use hardposit_fpga.Npb.Mg.{Grid}
use hardposit_fpga.Npb.Mg.Norm.{Measure, Norms, norm_point, norm_points, norm2u3}

module _ {A : Type 0} where
  -- The values of a row, of a plane and of the interior before those seen already, the last first.
  abbrev pub row_values : (ℕ → A) → ℕ → List A → List A
  row_values r zero seen = seen
  row_values r (suc k) seen = r (suc k) ∷ row_values r k seen

  abbrev pub plane_values : (ℕ → ℕ → A) → ℕ → ℕ → List A → List A
  plane_values r n1 zero seen = seen
  plane_values r n1 (suc k) seen = row_values (r (suc k)) n1 (plane_values r n1 k seen)

  abbrev pub grid_values : Grid A → ℕ → ℕ → ℕ → List A
  grid_values r n1 n2 zero = []
  grid_values r n1 n2 (suc k) = plane_values (r (suc k)) n1 n2 (grid_values r n1 n2 k)

  module _ (o : Measure A) where
    -- The sum of the squares, the first value of the grid first.
    abbrev pub sum_of_squares : List A → A
    sum_of_squares [] = o.null
    sum_of_squares (x ∷ xs) = o.add (sum_of_squares xs) (o.mul x x)

    -- No absolute value is greater than m, and m is one of them or null.
    abbrev pub IsAbove : A → List A → Type 0
    IsAbove m [] = o.greater o.null m ≡ false
    IsAbove m (x ∷ xs) = (o.greater (o.absolute x) m ≡ false) × IsAbove m xs

    abbrev pub IsAttained : A → List A → Type 0
    IsAttained m [] = m ≡ o.null
    IsAttained m (x ∷ xs) = (m ≡ o.absolute x) ⊎ IsAttained m xs

    abbrev after : List A → Norms A
    after [] = record { s = o.null; tmp = o.null }
    after (x ∷ xs) = norm_point o x (after xs)

    row-after :
        (r : ℕ → A) (k : ℕ) (seen : List A)
        → times (λ i1. norm_point o (r (suc i1))) k (after seen) ≡ after (row_values r k seen)
    unfolding times
    row-after r zero seen = refl
    row-after r (suc k) seen = ap (norm_point o (r (suc k))) (row-after r k seen)

    plane-after :
        (r : ℕ → ℕ → A) (n1 k : ℕ) (seen : List A)
        → times (λ i2. times (λ i1. norm_point o (r (suc i2) (suc i1))) n1) k (after seen)
          ≡ after (plane_values r n1 k seen)
    unfolding times
    plane-after r n1 zero seen = refl
    plane-after r n1 (suc k) seen =
        ap (times (λ i1. norm_point o (r (suc k) (suc i1))) n1) (plane-after r n1 k seen)
        ∙ row-after (r (suc k)) n1 (plane_values r n1 k seen)

    grid-after :
        (r : Grid A) (n1 n2 k : ℕ)
        → times
            (λ i3. times (λ i2. times (λ i1. norm_point o (r (suc i3) (suc i2) (suc i1))) n1) n2)
            k
            (after [])
          ≡ after (grid_values r n1 n2 k)
    unfolding times
    grid-after r n1 n2 zero = refl
    grid-after r n1 n2 (suc k) =
        ap (times (λ i2. times (λ i1. norm_point o (r (suc k) (suc i2) (suc i1))) n1) n2)
          (grid-after r n1 n2 k)
        ∙ plane-after (r (suc k)) n1 n2 (grid_values r n1 n2 k)

    after-sum_of_squares : (xs : List A) → (after xs).s ≡ sum_of_squares xs
    after-sum_of_squares [] = refl
    after-sum_of_squares (x ∷ xs) = ap (λ s. o.add s (o.mul x x)) (after-sum_of_squares xs)

    module _ (asymmetric : (x y : A) → o.greater x y ≡ true → o.greater y x ≡ false)
        (transitive : (x y z : A)
          → o.greater x y ≡ false
          → o.greater y z ≡ false
          → o.greater x z ≡ false) where
      irreflexive : (x : A) → o.greater x x ≡ false
      irreflexive x = elim (Bool-cases (o.greater x x)) [ inl e ↦ asymmetric x x e | inr e ↦ e ]

      IsAbove-greater :
          (m n : A) (xs : List A) → o.greater m n ≡ false → IsAbove m xs → IsAbove n xs
      IsAbove-greater m n [] e b = transitive o.null m n b e
      IsAbove-greater m n (x ∷ xs) e b =
          (transitive (o.absolute x) m n b.0 e, IsAbove-greater m n xs e b.1)

      after-IsAbove : (xs : List A) → IsAbove (after xs).tmp xs
      after-IsAbove [] = irreflexive o.null
      after-IsAbove (x ∷ xs) =
          let m = (after xs).tmp in
          elim (Bool-cases (o.greater (o.absolute x) m)) [
            | inl e ↦
                let now : (after (x ∷ xs)).tmp ≡ o.absolute x = rw e refl in
                subst (λ n. IsAbove n (x ∷ xs)) (sym now)
                  (
                    irreflexive (o.absolute x),
                    IsAbove-greater m (o.absolute x) xs (asymmetric (o.absolute x) m e)
                        (after-IsAbove xs),
                  )
            | inr e ↦
                let still : (after (x ∷ xs)).tmp ≡ m = rw e refl in
                subst (λ n. IsAbove n (x ∷ xs)) (sym still) (e, after-IsAbove xs)
          ]

      after-IsAttained : (xs : List A) → IsAttained (after xs).tmp xs
      after-IsAttained [] = refl
      after-IsAttained (x ∷ xs) = elim (Bool-cases (o.greater (o.absolute x) (after xs).tmp)) [
        | inl e ↦ inl (rw e refl)
        | inr e ↦
            let still : (after (x ∷ xs)).tmp ≡ (after xs).tmp = rw e refl in
            inr (subst (λ n. IsAttained n xs) (sym still) (after-IsAttained xs))
      ]

      -- If the test `>` is asymmetric with a transitive negation, then `norm2u3` gives the root
      -- of the sum of the squares of the interior points, in the order of the loops, divided by
      -- nx * ny * nz, and a number that no absolute value of an interior point exceeds, nor null,
      -- and that is one of these absolute values or null.
      pub norm2u3_lem :
          (r : Grid A) (n1 n2 n3 nx ny nz : ℕ)
          → ((norm2u3 o r n1 n2 n3 nx ny nz).0
              ≡ o.root (
                  o.quotient
                    (sum_of_squares (grid_values r (n1 - 2) (n2 - 2) (n3 - 2)))
                    (o.number (nx * ny * nz))))
            × IsAbove (norm2u3 o r n1 n2 n3 nx ny nz).1 (grid_values r (n1 - 2) (n2 - 2) (n3 - 2))
            × IsAttained
                (norm2u3 o r n1 n2 n3 nx ny nz).1
                (grid_values r (n1 - 2) (n2 - 2) (n3 - 2))
      unfolding norm2u3 norm_points
      norm2u3_lem r n1 n2 n3 nx ny nz =
          let xs = grid_values r (n1 - 2) (n2 - 2) (n3 - 2) in
          let e = grid-after r (n1 - 2) (n2 - 2) (n3 - 2) in
          let s = after-sum_of_squares xs in
          rw e (
            ap (λ v. o.root (o.quotient v (o.number (nx * ny * nz)))) s,
            after-IsAbove xs,
            after-IsAttained xs,
          )
