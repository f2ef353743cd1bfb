-- ===== src/Runtime/State.antt =====
-- The objects of class Hardposit, the slot table and the other globals of
-- sw/Hardposit/src/hardposit.cpp, with the object counter of sw/Hardposit/include/hardposit.h.
use hardposit_fpga.Base.{ℕ, ◌+◌, ◌-◌, ◌%◌, ◌^◌, Bool, Option, List, ltb, if◌then◌else◌}
use hardposit_fpga.Accel.Config.{Operand}
use hardposit_fpga.Accel.Device.{Device}

-- The fields of a Hardposit object.
pub record Hardposit : Type 0 where
  pub val : ℕ
  pub valid : Bool
  pub in_fpga : Bool
  pub location : ℕ
  pub was_computed : Bool
  pub global_location : ℕ

-- `struct ResultSlot`: the result line as a byte offset, and the objects that stand for the slot,
-- by address.
pub record ResultSlot : Type 0 where
  pub ptr : Option ℕ
  pub crnt_posit : List ℕ

-- `Counter<Hardposit>`: three uint64_t.
pub record Counter : Type 0 where
  pub created : ℕ
  pub living : ℕ
  pub most : ℕ

abbrev pub ullong_max : ℕ
ullong_max = 2 ^ 64 - 1

-- Both constructors of Counter.
unfoldable pub count_created : Counter → Counter
count_created c =
    let c' =
      if ltb c.created ullong_max
      then record c { created = c.created + 1; living = (c.living + 1) % 2 ^ 64 }
      else c in
    if ltb c'.most c'.living then record c' { most = c'.living } else c'

-- Its destructor.
unfoldable pub count_destroyed : Counter → Counter
count_destroyed c = if ltb 0 c.living then record c { living = c.living - 1 } else c

-- The statistics that `poll_performance` prints.
pub record Stats : Type 0 where
  pub total_reuse : ℕ
  pub total_call_memory : ℕ
  pub total_call_compute : ℕ
  pub total_effcient_compute : ℕ
  pub distances : List ℕ

-- The state: objects by address with those that are alive, the address of the next object, the slot
-- table, the request buffer by byte, and the device with the result buffer.
pub record Host : Type 0 where
  pub objs : ℕ → Hardposit
  pub live : ℕ → Bool
  pub next : ℕ
  pub track : ℕ → ResultSlot
  pub req : ℕ → Operand
  pub dev : Device
  pub global_counter : ℕ
  pub req_q_pointer : ℕ
  pub finish : Bool
  pub counter : Counter
  pub stats : Stats
