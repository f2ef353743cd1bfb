-- ===== src/Npb/Bubble/Order.antt =====
-- `bubble` puts the first row into its place among rows that are in order.
use mathlib.Core.List.{Perm}
use mathlib.Core.List.Perm
use hardposit_fpga.Base.{ℕ, ◌≡◌, Bool, true, false, List, [], ◌∷◌, Bool-cases, inl, inr}
use hardposit_fpga.Npb.Bubble.{Row, out_of_order, bubble}

module _ (greater less : ℕ → ℕ → Bool) where
  abbrev pub InOrder : Bool → List Row → Type 0
  InOrder ind [] = Unit {0}
  InOrder ind (x ∷ []) = Unit {0}
  InOrder ind (x ∷ y ∷ rows) =
      (out_of_order greater less ind x.ten y.ten ≡ false) × InOrder ind (y ∷ rows)

  -- Only swaps: no row is lost or made up.
  bubble-Perm : (ind : Bool) (rows : List Row) → Perm (bubble greater less ind rows) rows
  unfolding bubble
  bubble-Perm ind [] = Perm.refl []
  bubble-Perm ind (x ∷ []) = Perm.refl (x ∷ [])
  bubble-Perm ind (x ∷ y ∷ rows) = elim (Bool-cases (out_of_order greater less ind x.ten y.ten)) [
    | inl e ↦
        rw (e, bubble) (Perm.trans (Perm.cons y (bubble-Perm ind (x ∷ rows))) (Perm.swap x y rows))
    | inr e ↦ rw (e, bubble) (Perm.refl (x ∷ y ∷ rows))
  ]

  module _ (ind : Bool)
      (asymmetric : (x y : ℕ)
        → out_of_order greater less ind x y ≡ true
        → out_of_order greater less ind y x ≡ false) where
    -- A row before the others stays before them and the inserted one.
    bubble-head :
        (y x : Row) (rows : List Row)
        → out_of_order greater less ind y.ten x.ten ≡ false
        → InOrder ind (y ∷ rows)
        → InOrder ind (bubble greater less ind (x ∷ rows))
        → InOrder ind (y ∷ bubble greater less ind (x ∷ rows))
    unfolding bubble
    bubble-head y x [] e o = λ b. (e, b)
    bubble-head y x (z ∷ rows) e o = elim (Bool-cases (out_of_order greater less ind x.ten z.ten)) [
      | inl s ↦ rw (s, bubble) (λ b. (o.0, b))
      | inr s ↦ rw (s, bubble) (λ b. (e, b))
    ]

    bubble-InOrder :
        (x : Row) (rows : List Row)
        → InOrder ind rows
        → InOrder ind (bubble greater less ind (x ∷ rows))
    unfolding bubble
    bubble-InOrder x [] o = tt
    bubble-InOrder x (y ∷ rows) o = elim (Bool-cases (out_of_order greater less ind x.ten y.ten)) [
      | inl s ↦
          rw (s, bubble)
            (bubble-head y x rows (asymmetric x.ten y.ten s) o
              (bubble-InOrder x rows (rest y rows o)))
      | inr s ↦ rw (s, bubble) (s, o)
    ]
      where
        rest : (y : Row) (rows : List Row) → InOrder ind (y ∷ rows) → InOrder ind rows
        rest y [] o = tt
        rest y (z ∷ rows) o = o.1

    -- In either direction, for a test that never holds both ways round: if the rows behind the
    -- first are in order, `bubble` leaves all rows in order, and they are a permutation of the
    -- rows before.
    pub bubble_lem :
        (x : Row) (rows : List Row)
        → InOrder ind rows
        → InOrder ind (bubble greater less ind (x ∷ rows))
          × Perm (bubble greater less ind (x ∷ rows)) (x ∷ rows)
    bubble_lem x rows o = (bubble-InOrder x rows o, bubble-Perm ind (x ∷ rows))
