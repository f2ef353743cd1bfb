-- ===== src/Npb/Mg/Norm.antt =====
-- sw/NPBhardposit/MG/mg.cpp: `norm2u3`, the two norms of a grid.
pub mod Largest
pub mod Tests
use hardposit_fpga.Base.{ℕ, suc, ◌-◌, ◌*◌, Bool, if◌then◌else◌, times}
use hardposit_fpga.Npb.Mg.{Grid}

-- What the function uses of Hardposit: `absolute` is `fabs` of the number as a double, as a
-- Hardposit again, `greater` is `>`, and `number` is the conversion of an int.
pub record Measure {ℓ} (A : Type ℓ) : Type ℓ where
  pub null : A
  pub add : A → A → A
  pub mul : A → A → A
  pub quotient : A → A → A
  pub root : A → A
  pub absolute : A → A
  pub greater : A → A → Bool
  pub number : ℕ → A

-- The sum and the largest value so far.
pub record Norms {ℓ} (A : Type ℓ) : Type ℓ where
  pub s : A
  pub tmp : A

module _ {ℓ} {A : Type ℓ} (o : Measure A) where
  -- The body of the loops.
  abbrev pub norm_point : A → Norms A → Norms A
  norm_point x p = record {
    s = o.add p.s (o.mul x x);
    tmp = if o.greater (o.absolute x) p.tmp then o.absolute x else p.tmp;
  }

  unfoldable pub norm_points : Grid A → ℕ → ℕ → ℕ → Norms A
  norm_points r n1 n2 n3 =
      times
        (λ i3.
          times (λ i2. times (λ i1. norm_point (r (suc i3) (suc i2) (suc i1))) (n1 - 2)) (n2 - 2))
        (n3 - 2) (record { s = o.null; tmp = o.null })

  -- `*rnm2` and `*rnmu`.
  unfoldable pub norm2u3 : Grid A → ℕ → ℕ → ℕ → ℕ → ℕ → ℕ → A × A
  norm2u3 r n1 n2 n3 nx ny nz =
      let p = norm_points r n1 n2 n3 in (o.root (o.quotient p.s (o.number (nx * ny * nz))), p.tmp)
