-- ===== src/Runtime/Program.antt =====
-- Client programs of class Hardposit, run by the library and by a plain store of numbers.
pub mod Simulation
pub mod Run
pub mod Mixed
pub mod Start
use hardposit_fpga.Base.{
  ℕ, suc, ◌+◌, ◌≡◌, Bool, true, false, Option, none, some, List, [], ◌∷◌, ◌==◌, if◌then◌else◌, put,
  ◌>>=◌,
}
use hardposit_fpga.Accel.Request.{Inst, addsub, fma, mul, sqrtdiv}
use hardposit_fpga.Accel.Device.{Alu}
use hardposit_fpga.Runtime.State.{Host}
use hardposit_fpga.Runtime.Slots.{get_val}
use hardposit_fpga.Runtime.Objects.{of_bits, construct, copy_construct, destroy, assign}
use hardposit_fpga.Runtime.Compute.{Build}
use hardposit_fpga.Runtime.Operators.{plus, minus, times, divide, sqrt, multiply_add}
use hardposit_fpga.Runtime.Invariant.Issue.{outcome}

-- What a client does, its objects by address.
pub data Op : Type 0 where
  make : ℕ → Op
  copy : ℕ → Op
  drop : ℕ → Op
  set : ℕ → ℕ → Op
  add sub mul_by div_by : ℕ → ℕ → Op
  root : ℕ → Op
  mul_add : ℕ → ℕ → ℕ → Op
  read : ℕ → Op

-- The address of the object that an operation makes, the number that it reads, or 0.
unfoldable pub step : Alu → Build → Op → Host → Option (ℕ × Host)
step u b (make v) h = some (construct (of_bits v) h)
step u b (copy a) h = some (copy_construct a h)
step u b (drop a) h = some (0, destroy a h)
step u b (set a c) h = some (0, assign a c h)
step u b (add a c) h = plus u b a c h
step u b (sub a c) h = minus u b a c h
step u b (mul_by a c) h = times u b a c h
step u b (div_by a c) h = divide u b a c h
step u b (root a) h = sqrt u b a h
step u b (mul_add a c d) h = multiply_add u b a c d h
step u b (read a) h = get_val a h

unfoldable pub run : Alu → Build → List Op → Host → Option (List ℕ × Host)
run u b [] h = some ([], h)
run u b (op ∷ ops) h = do (r, h1) ← step u b op h; (rs, h2) ← run u b ops h1; some (r ∷ rs, h2)

-- The plain store: eager numbers, no slots, no device.
pub record Store : Type 0 where
  pub next : ℕ
  pub nums : ℕ → Option ℕ

abbrev pub num : Store → ℕ → ℕ
num s a = elim (s.nums a) [ none ↦ 0 | some v ↦ v ]

-- A new number at `addr`; the addresses below it that temporaries took are free again.
abbrev pub new_at : ℕ → ℕ → Store → ℕ × Store
new_at addr v s = (addr, record { next = suc addr; nums = put addr (some v) s.nums })

unfoldable pub spec_step : Alu → Op → Store → ℕ × Store
spec_step u (make v) s = new_at s.next v s
spec_step u (copy a) s = new_at s.next (num s a) s
spec_step u (drop a) s = (0, record s { nums = put a none s.nums })
spec_step u (set a c) s = (0, record s { nums = put a (some (num s c)) s.nums })
spec_step u (add a c) s = new_at (suc s.next) (outcome u addsub false (num s a) (num s c) 0) s
spec_step u (sub a c) s = new_at (suc s.next) (outcome u addsub true (num s a) (num s c) 0) s
spec_step u (mul_by a c) s = new_at (suc s.next) (outcome u mul false (num s a) (num s c) 0) s
spec_step u (div_by a c) s = new_at (suc s.next) (outcome u sqrtdiv false (num s a) (num s c) 0) s
spec_step u (root a) s = new_at (suc (suc s.next)) (outcome u sqrtdiv true (num s a) 0 0) s
spec_step u (mul_add a c d) s = new_at s.next (outcome u fma false (num s a) (num s c) (num s d)) s
spec_step u (read a) s = (num s a, s)

unfoldable pub spec_run : Alu → List Op → Store → List ℕ × Store
spec_run u [] s = ([], s)
spec_run u (op ∷ ops) s =
    let (r, s1) = spec_step u op s in let (rs, s2) = spec_run u ops s1 in (r ∷ rs, s2)

-- The objects that an operation names are alive.
abbrev pub Lives : Store → ℕ → Type 0
Lives s a = (v : ℕ) × (s.nums a ≡ some v)

abbrev pub IsLegal : Op → Store → Type 0
IsLegal (make v) s = Unit {0}
IsLegal (copy a) s = Lives s a
IsLegal (drop a) s = Lives s a
IsLegal (set a c) s = Lives s a × Lives s c
IsLegal (add a c) s = Lives s a × Lives s c
IsLegal (sub a c) s = Lives s a × Lives s c
IsLegal (mul_by a c) s = Lives s a × Lives s c
IsLegal (div_by a c) s = Lives s a × Lives s c
IsLegal (root a) s = Lives s a
IsLegal (mul_add a c d) s = Lives s a × Lives s c × Lives s d
IsLegal (read a) s = Lives s a

abbrev pub AreLegal : Alu → List Op → Store → Type 0
AreLegal u [] s = Unit {0}
AreLegal u (op ∷ ops) s = IsLegal op s × AreLegal u ops (spec_step u op s).1
