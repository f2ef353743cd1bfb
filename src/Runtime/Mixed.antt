-- ===== src/Runtime/Mixed.antt =====
-- sw/Hardposit/include/hardposit.h: `hp32`, and the operators that mix a Hardposit with a number.
-- The bits of the number are what SoftPosit's `p32` or `posit32` makes of it.
use hardposit_fpga.Base.{ℕ, Bool, true, false, not, Option, some, if◌then◌else◌, ◌>>=◌}
use hardposit_fpga.Accel.Request.{Inst, addsub, mul, sqrtdiv}
use hardposit_fpga.Accel.Device.{Alu}
use hardposit_fpga.Runtime.State.{Host}
use hardposit_fpga.Runtime.Objects.{of_bits, construct, copy_construct, destroy}
use hardposit_fpga.Runtime.Compute.{Build}
use hardposit_fpga.Runtime.Operators.{binary, compare_with, to_bool}

-- `hp32(a)` for an int, a float or a double of these bits: a new object.
abbrev pub hp32 : ℕ → Host → ℕ × Host
hp32 bits = construct (of_bits bits)

module _ (u : Alu) (b : Build) where
  -- `hp32(a) op obj`; the temporary dies with the statement.
  unfoldable pub mixed : Inst → Bool → ℕ → ℕ → Host → Option (ℕ × Host)
  mixed inst mode bits obj h = do
    let (t, h1) = hp32 bits h
    (r, h2) ← binary u b inst mode t obj h1
    some (r, destroy t h2)

  abbrev pub number_plus : ℕ → ℕ → Host → Option (ℕ × Host)
  number_plus = mixed addsub false

  abbrev pub number_minus : ℕ → ℕ → Host → Option (ℕ × Host)
  number_minus = mixed addsub true

  abbrev pub number_divide : ℕ → ℕ → Host → Option (ℕ × Host)
  number_divide = mixed sqrtdiv false

  -- Both orders of a float and an object multiply with the float in front.
  abbrev pub number_times : ℕ → ℕ → Host → Option (ℕ × Host)
  number_times = mixed mul false

  -- `(Hardposit)a / (Hardposit)hp32(b)`, with a copy of `a`.
  unfoldable pub divide_by_int : ℕ → ℕ → Host → Option (ℕ × Host)
  divide_by_int a bits h = do
    let (t1, h1) = copy_construct a h
    let (t2, h2) = hp32 bits h1
    (r, h3) ← binary u b sqrtdiv false t1 t2 h2
    some (r, destroy t1 (destroy t2 h3))

-- `hp32(a)==b`, for float and double alike.
unfoldable pub equals_number : (ℕ → ℕ → Bool) → ℕ → ℕ → Host → Option (Bool × Host)
equals_number same obj bits h = do
  let (t, h1) = hp32 bits h
  (r, h2) ← compare_with same t obj h1
  some (r, destroy t h2)

-- `! (hp32(a)==b)`, the float overload of `!=`.
unfoldable pub differs_from_float : (ℕ → ℕ → Bool) → ℕ → ℕ → Host → Option (Bool × Host)
differs_from_float same obj bits h = do (r, h1) ← equals_number same obj bits h; some (not r, h1)

-- `! hp32(a)==b`, the double overload: `!` binds tighter than `==`, so two Booleans are compared,
-- `!hp32(a)` and the object converted by `operator bool`.
unfoldable pub differs_from_double : ℕ → ℕ → Host → Option (Bool × Host)
differs_from_double obj bits h = do
  let (t, h1) = hp32 bits h
  (x, h2) ← to_bool t h1
  (y, h3) ← to_bool obj h2
  some (if not x then y else not y, destroy t h3)
