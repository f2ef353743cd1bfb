-- ===== src/Npb/Mg/Main.antt =====
-- sw/NPBhardposit/MG/mg.cpp: the calls of `main` between the allocation of the grids and the report,
-- on the grids alone: the norms that it prints are left out. The sizes are those of `setup`; a grid is
-- of plain numbers, so what assigning a number to an object in the FPGA leaves behind is not seen.
pub mod Whole
pub mod Tests
use hardposit_fpga.Base.{ℕ, Option, none, some, put, times}
use hardposit_fpga.Npb.Mg.{Grid, Arith, zero3, resid}
use hardposit_fpga.Npb.Mg.Cycle.{Levels, Setting, mg3_p}
use hardposit_fpga.Npb.Mg.Charges.{Numbers, zran3}

module _ {ℓ} {A : Type ℓ} (o : Arith A) (g : Setting A) (n1 n2 n3 : ℕ) where
  -- `zero3(u[lt],n1,n2,n3)`
  abbrev pub cleared : ℕ → Levels A → Levels A
  cleared lt s = record s { u = put lt (zero3 g.null n1 n2 n3 (s.u lt)) s.u }

  -- `resid(u[lt],v,r[lt],n1,n2,n3,a,lt)`
  abbrev pub refreshed : ℕ → Grid A → Levels A → Levels A
  refreshed lt v s = record s {
    r = put lt (resid o g.junk (s.u lt) (some v) n1 n2 n3 g.a (s.r lt)) s.r;
  }

  -- The body of the loop over `it`.
  abbrev pub iteration : ℕ → Grid A → Levels A → Levels A
  iteration lt v s = refreshed lt v (mg3_p o g lt n1 n2 n3 v s)

-- The two runs of `zran3` and the cycles, from the grid v and the levels as they were allocated; n1,
-- n2 and n3 are the sizes that `setup` returns.
unfoldable pub benchmark :
    Arith ℕ
    → Setting ℕ
    → Numbers
    → ℕ
    → ℕ
    → ℕ
    → ℕ
    → ℕ
    → ℕ
    → ℕ
    → ℕ
    → ℕ
    → ℕ
    → Grid ℕ
    → Levels ℕ
    → Option (Levels ℕ)
benchmark o g k n1 n2 n3 ten nx ny nz x lt nit v s = elim (zran3 k ten n1 n2 n3 nx ny nz x v) [
  | none ↦ none
  | some first ↦
      let start = refreshed o g n1 n2 n3 lt first (cleared o g n1 n2 n3 lt s) in
      let t = iteration o g n1 n2 n3 lt first start in
      elim (zran3 k ten n1 n2 n3 nx ny nz x first) [
        | none ↦ none
        | some again ↦ some (
            times (λ it. iteration o g n1 n2 n3 lt again) nit
              (refreshed o g n1 n2 n3 lt again (cleared o g n1 n2 n3 lt t)))
      ]
]
