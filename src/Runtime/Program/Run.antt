-- ===== src/Runtime/Program/Run.antt =====
-- Whole programs: the library against the plain store, and the builds against one another.
use hardposit_fpga.Base.{
  ℕ, suc, ◌≡◌, ◌≢◌, refl, ap, ◌∙◌, Bool, true, false, Option, none, some, List, [], ◌∷◌, arith,
}
use hardposit_fpga.Accel.Request.{Inst, addsub, fma, mul, sqrtdiv, gt}
use hardposit_fpga.Accel.Device.{Alu}
use hardposit_fpga.Runtime.State.{Host}
use hardposit_fpga.Runtime.Objects.{of_bits, construct, copy_construct, destroy, assign}
use hardposit_fpga.Runtime.Compute.{Build}
use hardposit_fpga.Runtime.Operators.{binary, sqrt}
use hardposit_fpga.Runtime.Invariant.Issue.{IsFlagged, outcome}
use hardposit_fpga.Runtime.Invariant.Operands.{third}
use hardposit_fpga.Runtime.Program.{
  Op, make, copy, drop, set, add, sub, mul_by, div_by, root, mul_add, read, step, run, Store, num,
  spec_step, spec_run, IsLegal, AreLegal, Lives, new_at,
}
use hardposit_fpga.Runtime.Program.Simulation.{
  Simulates, with_num, Simulates-ext, next-none, construct-Simulates, copy_construct-Simulates,
  assign-Simulates, destroy-Simulates, get_val-Simulates, compute-Simulates,
}

-- A temporary neither hides an object nor changes its number.
module _ {h : Host} {s : Store} (sim : Simulates h s) where
  pub temp_num : (a v : ℕ) → Lives s a → (with_num (suc s.next) s.next v s).nums a ≡ s.nums a
  temp_num a v (n, e) = ground (arith, next-none sim)

  pub temp-Lives : (a v : ℕ) → Lives s a → Lives (with_num (suc s.next) s.next v s) a
  temp-Lives a v (n, e) = (n, temp_num a v (n, e) ∙ e)

  pub temp_kept : (a v : ℕ) → Lives s a → num (with_num (suc s.next) s.next v s) a ≡ num s a
  temp_kept a v la = ap (λ (o : Option ℕ). elim o [ none ↦ 0 | some n ↦ n ]) (temp_num a v la)

module _ (u : Alu) (flagged : IsFlagged u) (b : Build) {h : Host} {s : Store}
    (sim : Simulates h s) where
  pub binary-Simulates :
      (inst : Inst) (mode : Bool) (a c : ℕ)
      → inst ≢ gt
      → third inst 0 ≡ 0
      → Lives s a
      → Lives s c
      → (h' : Host) × (binary u b inst mode a c h ≡ some (suc s.next, h'))
        × Simulates h' (new_at (suc s.next) (outcome u inst mode (num s a) (num s c) 0) s).1
  unfolding binary
  binary-Simulates inst mode a c ne two la lc =
      let (e1, sim1) = construct-Simulates 0 sim in
      let s1 : Store = with_num (suc s.next) s.next 0 s in
      let (h2, e2, sim2) =
        compute-Simulates u flagged b a c s.next inst mode sim1 ne (temp-Lives sim a 0 la)
          (temp-Lives sim c 0 lc) (0, ground arith) in
      let gone = destroy-Simulates s.next sim2 (0, ground arith) in
      (
        destroy s.next h2,
        rw (e1, e2) refl,
        Simulates-ext _ _ gone refl
            λ x. ground (arith, next-none sim, temp_num sim a 0 la, temp_num sim c 0 lc, two),
      )

  sqrt-Simulates :
      (a : ℕ)
      → Lives s a
      → (h' : Host) × (sqrt u b a h ≡ some (suc (suc s.next), h'))
        × Simulates h' (new_at (suc (suc s.next)) (outcome u sqrtdiv true (num s a) 0 0) s).1
  unfolding sqrt
  sqrt-Simulates a la =
      let (e1, sim1) = construct-Simulates 0 sim in
      let s1 : Store = with_num (suc s.next) s.next 0 s in
      let (e2, sim2) = construct-Simulates 0 sim1 in
      let s2 : Store = with_num (suc s1.next) s1.next 0 s1 in
      let la2 : Lives s2 a = temp-Lives sim1 a 0 (temp-Lives sim a 0 la) in
      let (h3, e3, sim3) =
        compute-Simulates u flagged b a (suc s.next) s.next sqrtdiv true sim2 (λ e. absurd (cc)) la2
          (0, ground arith) (0, ground arith) in
      let gone2 = destroy-Simulates (suc s.next) sim3 (0, ground arith) in
      let gone1 = destroy-Simulates s.next gone2 (0, ground arith) in
      (
        destroy s.next (destroy (suc s.next) h3),
        rw (e1, e2, e3) refl,
        Simulates-ext _ _ gone1 refl λ x. ground (
          arith,
          next-none sim,
          next-none sim1,
          temp_num sim a 0 la,
          temp_num sim1 a 0 (temp-Lives sim a 0 la),
        ),
      )

  step_lem :
      (op : Op)
      → IsLegal op s
      → (h' : Host) × (step u b op h ≡ some ((spec_step u op s).0, h'))
        × Simulates h' (spec_step u op s).1
  unfolding step spec_step
  step_lem (make v) l =
      let (e, sim') = construct-Simulates v sim in
      ((construct (of_bits v) h).1, ap (λ n. some (n, (construct (of_bits v) h).1)) e, sim')
  step_lem (copy a) l =
      let (e, sim') = copy_construct-Simulates a sim l in
      ((copy_construct a h).1, ap (λ n. some (n, (copy_construct a h).1)) e, sim')
  step_lem (drop a) l = (destroy a h, refl, destroy-Simulates a sim l)
  step_lem (set a c) (la, lc) = (assign a c h, refl, assign-Simulates a c sim la lc)
  step_lem (add a c) (la, lc) = binary-Simulates addsub false a c (λ e. absurd (cc)) refl la lc
  step_lem (sub a c) (la, lc) = binary-Simulates addsub true a c (λ e. absurd (cc)) refl la lc
  step_lem (mul_by a c) (la, lc) = binary-Simulates mul false a c (λ e. absurd (cc)) refl la lc
  step_lem (div_by a c) (la, lc) = binary-Simulates sqrtdiv false a c (λ e. absurd (cc)) refl la lc
  step_lem (root a) l = sqrt-Simulates a l
  step_lem (mul_add a c d) (la, lc, ld) =
      compute-Simulates u flagged b a c d fma false sim (λ e. absurd (cc)) la lc ld
  step_lem (read a) l = get_val-Simulates a sim l

module _ (u : Alu) (flagged : IsFlagged u) (b : Build) where
  -- For an arithmetic unit whose flags are never all zero, in each of the three builds: a program
  -- of constructions, copies, destructions, assignments, arithmetic and reads that names only
  -- objects that are alive, run by the library on a state that stands for a store of plain
  -- numbers, returns; it returns exactly what the store of plain numbers returns (the addresses
  -- of the objects made and the numbers read), and the state after it stands for the store after
  -- it.
  pub run_refines :
      (ops : List Op) {h : Host} {s : Store}
      → Simulates h s
      → AreLegal u ops s
      → (h' : Host) × (run u b ops h ≡ some ((spec_run u ops s).0, h'))
        × Simulates h' (spec_run u ops s).1
  unfolding run spec_run
  run_refines [] {h} sim legal = (h, refl, sim)
  run_refines (op ∷ ops) sim (l, legal) =
      let (h1, e1, sim1) = step_lem u flagged b sim op l in
      let (h2, e2, sim2) = run_refines ops sim1 legal in (h2, rw (e1, e2) refl, sim2)

-- For an arithmetic unit whose flags are never all zero and any two of the builds REUSE, NOREUSE
-- and BASELINE: a program that names only objects that are alive, from a state that stands for a
-- store of plain numbers, returns in both, and the results are equal.
pub builds_agree :
    (u : Alu)
    → IsFlagged u
    → (b b' : Build) (ops : List Op) {h : Host} {s : Store} → Simulates h s
    → AreLegal u ops s
    → (rs : List ℕ) × (h1 : Host) × (h2 : Host) × (run u b ops h ≡ some (rs, h1))
      × (run u b' ops h ≡ some (rs, h2))
builds_agree u flagged b b' ops {s = s} sim legal =
    let r = run_refines u flagged b ops sim legal in
    let r' = run_refines u flagged b' ops sim legal in ((spec_run u ops s).0, r.0, r'.0, r.1, r'.1)
