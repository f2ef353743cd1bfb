-- ===== src/Runtime/Invariant.antt =====
-- What the slot table, the objects and the device agree on, and the value an object stands for.
pub mod Settle
pub mod Keeps
pub mod Lifetime
pub mod Safe
pub mod Placing
pub mod Operands
pub mod Retire
pub mod Issue
pub mod Sent
pub mod Result
pub mod Number
pub mod Counting
use hardposit_fpga.Base.{ℕ, ◌*◌, ◌<◌, ◌≡◌, ◌≢◌, Bool, true, false, Option, some, has, if◌then◌else◌}
use hardposit_fpga.Accel.Config.{write_granularity}
use hardposit_fpga.Runtime.State.{Hardposit, Host}

-- The number an object stands for: its own, or the one in the device's entry while it is pending.
abbrev pub value : Host → ℕ → ℕ
value h a = if (h.objs a).valid then (h.objs a).val else h.dev.regs (h.objs a).location

-- An object in a slot's list is alive, says so itself, and the slot's result line is ready and
-- agrees with the device's entry.
pub record Listed (h : Host) (s a : ℕ) : Type 0 where
  pub alive : h.live a ≡ true
  pub resident : (h.objs a).in_fpga ≡ true
  pub at_slot : (h.objs a).location ≡ s
  pub slot-lt : s < 8
  pub line : (h.track s).ptr ≡ some (s * write_granularity)
  pub ready : (h.dev.res (s * write_granularity)).flags ≢ 0
  pub result : (h.dev.res (s * write_granularity)).result ≡ h.dev.regs s
  pub completed : h.dev.completed s ≡ true

-- An object that is alive lies below the next address; it is pending only while it is in the FPGA,
-- is then in the list of its slot, and if it has its value too, that is the entry's.
pub record Alive (h : Host) (a : ℕ) : Type 0 where
  pub below : a < h.next
  pub pending : (h.objs a).valid ≡ false → (h.objs a).in_fpga ≡ true
  pub listed : (h.objs a).in_fpga ≡ true → has a (h.track (h.objs a).location).crnt_posit ≡ true
  pub settled :
      (h.objs a).in_fpga ≡ true
      → (h.objs a).valid ≡ true
      → (h.objs a).val ≡ h.dev.regs (h.objs a).location

-- The state between calls, until the accelerator is closed.
pub record IsConsistent (h : Host) : Type 0 where
  pub slots : (s a : ℕ) → has a (h.track s).crnt_posit ≡ true → Listed h s a
  pub objects : (a : ℕ) → h.live a ≡ true → Alive h a
  pub pointer : h.req_q_pointer < 256
  pub running : h.finish ≡ false
