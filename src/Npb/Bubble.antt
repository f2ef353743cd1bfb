-- ===== src/Npb/Bubble.antt =====
-- `bubble` of sw/NPBhardposit/MG/mg.cpp, which keeps the ten largest or smallest numbers in order.
-- The four arrays are one list of rows, in the column that `ind` names.
pub mod Order
use hardposit_fpga.Base.{ℕ, Bool, true, false, List, [], ◌∷◌, if◌then◌else◌}

pub record Row : Type 0 where
  pub ten : ℕ
  pub j1 : ℕ
  pub j2 : ℕ
  pub j3 : ℕ

module _ (greater less : ℕ → ℕ → Bool) where
  -- The test of the loop, by direction.
  abbrev pub out_of_order : Bool → ℕ → ℕ → Bool
  out_of_order true x y = greater x y
  out_of_order false x y = less x y

  -- The loop from row `i` on: two rows are swapped, or the function returns.
  unfoldable pub bubble : Bool → List Row → List Row
  bubble ind [] = []
  bubble ind (x ∷ []) = x ∷ []
  bubble ind (x ∷ y ∷ rows) =
      let later = bubble ind (x ∷ rows) in
      if out_of_order ind x.ten y.ten then y ∷ later else x ∷ y ∷ rows
