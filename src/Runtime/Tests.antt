-- ===== src/Runtime/Tests.antt =====
-- A device that adds, and states with one object that a slot stands for and one of its own.
pub mod Objects
pub mod Programs
use hardposit_fpga.Base.{
  ℕ, suc, ◌+◌, ◌%◌, ◌^◌, ◌≡◌, ◌≢◌, refl, Bool, true, false, none, some, List, [], ◌∷◌, has, put,
  ◌==◌, if◌then◌else◌, arith, ◌<◌,
}
use hardposit_fpga.Accel.Device.{Alu, Device}
use hardposit_fpga.Runtime.State.{Hardposit, Host}
use hardposit_fpga.Runtime.Objects.{of_bits}
use hardposit_fpga.Runtime.Invariant.{Listed, Alive, IsConsistent}
use hardposit_fpga.Runtime.Invariant.Issue.{IsFlagged}
use hardposit_fpga.Runtime.Program.Start.{fresh_host}

abbrev pub adder : Alu
adder = record { out = λ i m a b c. (a + b + c) % 2 ^ 32; flags = λ i m a b c. 1 }

pub adder-IsFlagged : IsFlagged adder
adder-IsFlagged i m a b c = omega arith

-- Entry 3 has completed with the number 42.
abbrev pub answered : Device
answered = record {
  regs = λ s. if s == 3 then 42 else 0;
  completed = λ s. s == 3;
  res =
      λ p. if p == 192 then record { result = 42; flags = 1 } else record { result = 0; flags = 0 };
}

abbrev pub waiting : Hardposit
waiting = record {
  val = 0;
  valid = false;
  in_fpga = true;
  location = 3;
  was_computed = true;
  global_location = 11;
}

-- Object 0 waits for slot 3; object 1 is 5.
abbrev pub two_objects : Host
two_objects = record (fresh_host answered) {
  objs = λ a. if a == 0 then waiting else of_bits 5;
  live = λ a. (if a == 0 then true else a == 1);
  next = 2;
  track = λ s.
      if s == 3
      then record { ptr = some 192; crnt_posit = 0 ∷ [] }
      else record { ptr = none; crnt_posit = [] };
}

pub two_objects-IsConsistent : IsConsistent two_objects
two_objects-IsConsistent = record {
  slots = λ s a e. ground arith;
  objects = λ a e. ground arith;
  pointer = omega arith;
  running = refl;
}
