-- ===== src/Runtime/Tests/Programs.antt =====
-- The theorems on programs: a program of four operations from the start, and the operators of
-- hardposit.h at the two objects.
use hardposit_fpga.Base.{
  ℕ, ◌+◌, ◌^◌, ◌≡◌, refl, false, none, some, List, [], ◌∷◌, ◌==◌, if◌then◌else◌, arith,
}
use hardposit_fpga.Base.Numbers.{ℤ, pos}
use hardposit_fpga.Accel.Request.{mul}
use hardposit_fpga.Runtime.State.{Host}
use hardposit_fpga.Runtime.Compute.{reuse, noreuse, baseline}
use hardposit_fpga.Runtime.Mixed.{mixed, differs_from_double}
use hardposit_fpga.Runtime.Session.{
  Platform, Session, init_accel, close_accel, read_setup, write_setup,
}
use hardposit_fpga.Runtime.Invariant.{IsConsistent}
use hardposit_fpga.Runtime.Program.{
  Op, make, add, drop, read, run, spec_step, spec_run, Store, AreLegal, new_at,
}
use hardposit_fpga.Runtime.Program.Simulation.{Simulates}
use hardposit_fpga.Runtime.Program.Run.{run_refines, builds_agree}
use hardposit_fpga.Runtime.Program.Mixed.{differs_from_double_lem, mixed_lem}
use hardposit_fpga.Runtime.Program.Start.{
  fresh_host, fresh_session, empty_store, fresh-Simulates, init_accel-close_accel,
}
use hardposit_fpga.Runtime.Tests.{
  adder, adder-IsFlagged, answered, two_objects, two_objects-IsConsistent,
}

-- 5 + 7, at address 3 after a temporary at 2; its sum with itself, at 5; the first sum dies.
abbrev ops : List Op
ops = make 5 ∷ make 7 ∷ add 0 1 ∷ add 3 3 ∷ drop 3 ∷ read 5 ∷ []

ops-AreLegal : AreLegal adder ops empty_store
unfolding spec_step
ops-AreLegal =
    (tt, (tt, (((5, refl), (7, refl)), (((12, refl), (12, refl)), ((12, refl), ((24, refl), tt))))))

run_refines_example :
    (h' : Host) × (run adder reuse ops (fresh_host answered)
      ≡ some ((spec_run adder ops empty_store).0, h'))
    × Simulates h' (spec_run adder ops empty_store).1
run_refines_example =
    run_refines adder adder-IsFlagged reuse ops (fresh-Simulates answered) ops-AreLegal

test_results : (spec_run adder ops empty_store).0 ≡ 0 ∷ 1 ∷ 3 ∷ 5 ∷ 0 ∷ 24 ∷ []
unfolding spec_run spec_step
test_results = refl

builds_agree_example :
    (rs : List ℕ) × (h1 : Host) × (h2 : Host) × (run adder reuse ops (fresh_host answered)
      ≡ some (rs, h1))
    × (run adder baseline ops (fresh_host answered) ≡ some (rs, h2))
builds_agree_example =
    builds_agree adder adder-IsFlagged reuse baseline ops (fresh-Simulates answered) ops-AreLegal

abbrev two : Store
two = record { next = 2; nums = λ x. if x == 0 then some 42 else if x == 1 then some 5 else none }

two-Simulates : Simulates two_objects two
two-Simulates = record {
  consistent = two_objects-IsConsistent;
  same_next = refl;
  same_nums = λ x. ground arith;
}

-- 42 and 5 are different, and the answer is that they are not.
differs_from_double_lem_example :
    (h' : Host) × (differs_from_double 0 5 two_objects ≡ some (false, h'))
    × Simulates h' (record two { next = 3 })
differs_from_double_lem_example = differs_from_double_lem two-Simulates 0 (42, refl) 5

mixed_lem_example :
    (h' : Host) × (mixed adder noreuse mul false 10 0 two_objects ≡ some (4, h'))
    × Simulates h' (new_at 4 52 two).1
mixed_lem_example =
    mixed_lem adder adder-IsFlagged noreuse two-Simulates mul false 10 0 (λ e. absurd (cc)) refl
      (42, refl)

abbrev board : Platform
board = record { tokens = 1; req_address = 4096; result_address = 8192; reset = λ d. d }

test_setup : (write_setup board ≡ 2 ^ 48 + 128) × (read_setup board ≡ 64)
test_setup = (refl, refl)

abbrev reopened : ℤ × Session
reopened =
    init_accel board (close_accel board (init_accel board (fresh_session two_objects.dev)).1).1

init_accel-close_accel_example :
    (reopened.0 ≡ pos 0)
    × (reopened.1.connected ≡ false)
    × (reopened.1.req_allocated ≡ false)
    × (reopened.1.result_allocated ≡ false)
    × ¬ IsConsistent reopened.1.host
init_accel-close_accel_example =
    init_accel-close_accel board board board two_objects.dev (λ e. absurd (omega (arith, e)))
