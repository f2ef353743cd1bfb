-- ===== src/Runtime/Program/Mixed.antt =====
-- The operators of sw/Hardposit/include/hardposit.h that mix objects and numbers, against the plain
-- store.
use hardposit_fpga.Base.{ℕ, suc, ◌≡◌, ◌≢◌, refl, Bool, false, not, some, ◌==◌, if◌then◌else◌, arith}
use hardposit_fpga.Accel.Request.{Inst, sqrtdiv, gt}
use hardposit_fpga.Accel.Device.{Alu}
use hardposit_fpga.Runtime.State.{Host}
use hardposit_fpga.Runtime.Objects.{destroy}
use hardposit_fpga.Runtime.Compute.{Build}
use hardposit_fpga.Runtime.Operators.{compare_with, convert_with, to_bool}
use hardposit_fpga.Runtime.Mixed.{
  mixed, divide_by_int, equals_number, differs_from_float, differs_from_double,
}
use hardposit_fpga.Runtime.Invariant.Issue.{IsFlagged, outcome}
use hardposit_fpga.Runtime.Invariant.Operands.{third}
use hardposit_fpga.Runtime.Program.{Store, num, Lives, new_at}
use hardposit_fpga.Runtime.Program.Simulation.{
  Simulates, with_num, Simulates-ext, next-none, construct-Simulates, copy_construct-Simulates,
  destroy-Simulates, get_val-Simulates,
}
use hardposit_fpga.Runtime.Program.Run.{temp_kept, temp-Lives, binary-Simulates}

module _ {h : Host} {s : Store} (sim : Simulates h s) where
  -- On a state that stands for a store of plain numbers, comparing two objects that are alive
  -- returns the outcome of the test on their two numbers and changes no number.
  pub compare_with_lem :
      (test : ℕ → ℕ → Bool) (a c : ℕ)
      → Lives s a
      → Lives s c
      → (h' : Host) × (compare_with test a c h ≡ some (test (num s a) (num s c), h'))
        × Simulates h' s
  unfolding compare_with
  compare_with_lem test a c la lc =
      let (h1, e1, sim1) = get_val-Simulates a sim la in
      let (h2, e2, sim2) = get_val-Simulates c sim1 lc in (h2, rw (e1, e2) refl, sim2)

  to_bool_lem :
      (a : ℕ)
      → Lives s a
      → (h' : Host) × (to_bool a h ≡ some (not (num s a == 0), h')) × Simulates h' s
  unfolding to_bool convert_with
  to_bool_lem a la = let (h1, e1, sim1) = get_val-Simulates a sim la in (h1, rw e1 refl, sim1)

  -- A temporary that is gone leaves the store with the next address moved on.
  gone :
      {h' : Host} (v : ℕ)
      → Simulates h' (with_num (suc s.next) s.next v s)
      → Simulates (destroy s.next h') (record s { next = suc s.next })
  gone v sim' =
      Simulates-ext _ _ (destroy-Simulates s.next sim' (v, ground arith)) refl
        λ x. ground (arith, next-none sim)

module _ {h : Host} {s : Store} (sim : Simulates h s) where
  module _ (obj : ℕ) (lives : Lives s obj) (bits : ℕ) where
    pub equals_number_lem :
        (same : ℕ → ℕ → Bool)
        → (h' : Host) × (equals_number same obj bits h ≡ some (same bits (num s obj), h'))
          × Simulates h' (record s { next = suc s.next })
    unfolding equals_number
    equals_number_lem same =
        let (e1, sim1) = construct-Simulates bits sim in
        let (h2, e2, sim2) =
          compare_with_lem sim1 same s.next obj (bits, ground arith)
            (temp-Lives sim obj bits lives) in
        let kept = temp_kept sim obj bits lives in
        (destroy s.next h2, rw (e1, e2, kept) (ground arith), gone sim bits sim2)

    -- On a state that stands for a store of plain numbers, `object != float` returns the negation
    -- of the test on the float's bits and the object's number, and no object changes its number.
    pub differs_from_float_lem :
        (same : ℕ → ℕ → Bool)
        → (h' : Host) × (differs_from_float same obj bits h
            ≡ some (not (same bits (num s obj)), h'))
          × Simulates h' (record s { next = suc s.next })
    unfolding differs_from_float
    differs_from_float_lem same =
        let (h1, e1, sim1) = equals_number_lem same in (h1, rw e1 refl, sim1)

    -- On a state that stands for a store of plain numbers, `object != double` returns whether the
    -- object's number is nonzero if the double's bits are zero, and whether the object's number
    -- is zero if they are not: two nonzero numbers are never reported to differ.
    pub differs_from_double_lem :
        (h' : Host) × (differs_from_double obj bits h
          ≡ some (if bits == 0 then not (num s obj == 0) else num s obj == 0, h'))
        × Simulates h' (record s { next = suc s.next })
    unfolding differs_from_double
    differs_from_double_lem =
        let (e1, sim1) = construct-Simulates bits sim in
        let (h2, e2, sim2) = to_bool_lem sim1 s.next (bits, ground arith) in
        let (h3, e3, sim3) = to_bool_lem sim2 obj (temp-Lives sim obj bits lives) in
        let kept = temp_kept sim obj bits lives in
        (destroy s.next h3, rw (e1, e2, e3, kept) (ground arith), gone sim bits sim3)

module _ (u : Alu) (flagged : IsFlagged u) (b : Build) {h : Host} {s : Store}
    (sim : Simulates h s) where
  -- For an arithmetic unit whose flags are never all zero, in each build, for every instruction
  -- but FMA and GT: an operator between a number, of the bits SoftPosit gives, and an object that
  -- is alive returns; the result stands for what the unit makes of the two numbers in that order,
  -- and all other objects for what they stood for, the two temporaries being gone.
  pub mixed_lem :
      (inst : Inst) (mode : Bool) (bits obj : ℕ)
      → inst ≢ gt
      → third inst 0 ≡ 0
      → Lives s obj
      → (h' : Host) × (mixed u b inst mode bits obj h ≡ some (suc (suc s.next), h'))
        × Simulates h' (new_at (suc (suc s.next)) (outcome u inst mode bits (num s obj) 0) s).1
  unfolding mixed
  mixed_lem inst mode bits obj ne two lives =
      let (e1, sim1) = construct-Simulates bits sim in
      let (h2, e2, sim2) =
        binary-Simulates u flagged b sim1 inst mode s.next obj ne two (bits, ground arith)
          (temp-Lives sim obj bits lives) in
      let kept = temp_kept sim obj bits lives in
      let gone = destroy-Simulates s.next sim2 (bits, ground arith) in
      (
        destroy s.next h2,
        rw (e1, e2) refl,
        Simulates-ext _ _ gone refl λ x. ground (arith, next-none sim, kept),
      )

  -- For an arithmetic unit whose flags are never all zero, in each build: dividing an object that
  -- is alive by an int returns an object that stands for what the unit makes of the two numbers;
  -- the copy, the converted int and the third operand are gone, and all other objects stand for
  -- what they stood for.
  pub divide_by_int_lem :
      (a bits : ℕ)
      → Lives s a
      → (h' : Host) × (divide_by_int u b a bits h ≡ some (suc (suc (suc s.next)), h'))
        × Simulates h'
            (new_at (suc (suc (suc s.next))) (outcome u sqrtdiv false (num s a) bits 0) s).1
  unfolding divide_by_int
  divide_by_int_lem a bits la =
      let (e1, sim1) = copy_construct-Simulates a sim la in
      let (e2, sim2) = construct-Simulates bits sim1 in
      let (h3, e3, sim3) =
        binary-Simulates u flagged b sim2 sqrtdiv false s.next (suc s.next) (λ e. absurd (cc)) refl
          (num s a, ground arith) (bits, ground arith) in
      let gone2 = destroy-Simulates (suc s.next) sim3 (bits, ground arith) in
      let gone1 = destroy-Simulates s.next gone2 (num s a, ground arith) in
      (
        destroy s.next (destroy (suc s.next) h3),
        rw (e1, e2, e3) refl,
        Simulates-ext _ _ gone1 refl λ x. ground (arith, next-none sim, next-none sim1),
      )
