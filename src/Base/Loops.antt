-- ===== src/Base/Loops.antt =====
-- Counting loops, and how many numbers of a range pass a test.
use Prim.Native.Nat.{ℕ, zero, suc, ◌≤◌, ◌<◌}
use mathlib.Core.Path.{◌≡◌}
use mathlib.Core.Bool.{Bool, true, ◌&&◌}
use mathlib.Core.Logic.{inl, inr}
use native.Mathlib.Omega.{arith}
use hardposit_fpga.Base.Tests.{◌==◌, leb, if◌then◌else◌, Bool-cases}
use hardposit_fpga.Base.Lists.{put}

-- `for (i = 0; i < n; i++)`: the body for 0, then for 1, and so on.
unfoldable pub times {ℓ} : {S : Type ℓ} → (ℕ → S → S) → ℕ → S → S
times body zero s = s
times body (suc k) s = body k (times body k s)

-- How many of 1 to k pass.
unfoldable pub tally : (ℕ → Bool) → ℕ → ℕ
tally p zero = 0
tally p (suc k) = if p (suc k) then suc (tally p k) else tally p k

pub tally_mono : (p : ℕ → Bool) (k n : ℕ) → k ≤ n → tally p k ≤ tally p n
unfolding tally
tally_mono p zero zero le = omega arith
tally_mono p (suc k) zero le = absurd (omega (arith, le))
tally_mono p k (suc n) le = elim (Bool-cases (k == suc n)) [
  | inl e ↦ let e' : k ≡ suc n = ground (arith, e) in rw e' (omega arith)
  | inr less ↦ ground (arith, tally_mono p k n (ground (arith, le, less)))
]

-- A number that passes is counted from there on.
pub tally-passes : (p : ℕ → Bool) (k n : ℕ) → p (suc k) ≡ true → k < n → suc (tally p k) ≤ tally p n
unfolding tally
tally-passes p k n e lt = let r = tally_mono p (suc k) n lt in ground (arith, e, r)

-- A loop that fills the places from 1 to n.
pub times-put {ℓ} :
    {A : Type ℓ} (v : A) (n : ℕ) (f : ℕ → A) (x : ℕ)
    → times (λ i. put (suc i) v) n f x ≡ (if leb 1 x && leb x n then v else f x)
unfolding times
times-put v zero f x = ground arith
times-put v (suc n) f x = ground (arith, times-put v n f x)
