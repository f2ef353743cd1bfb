-- ===== src/Runtime/Operators.antt =====
-- The operators of class Hardposit: arithmetic through `compute`, with the default-constructed
-- temporaries that the calls pass, and comparisons and conversions through `get_val`.
use hardposit_fpga.Base.{
  ℕ, zero, suc, ◌/◌, ◌%◌, ◌^◌, Bool, true, false, not, Option, some, List, [], ◌∷◌, ◌==◌, ◌>>=◌,
}
use hardposit_fpga.Accel.Request.{Inst, addsub, fma, mul, sqrtdiv}
use hardposit_fpga.Accel.Device.{Alu}
use hardposit_fpga.Runtime.State.{Host}
use hardposit_fpga.Runtime.Slots.{get_val}
use hardposit_fpga.Runtime.Objects.{of_bits, construct, destroy}
use hardposit_fpga.Runtime.Compute.{Build, compute}

module _ (u : Alu) (b : Build) where
  -- `this->compute(obj, Hardposit(), inst, mode)`; the temporary dies with the statement.
  unfoldable pub binary : Inst → Bool → ℕ → ℕ → Host → Option (ℕ × Host)
  binary inst mode this obj h = do
    let (t, h1) = construct (of_bits 0) h
    (r, h2) ← compute u b this obj t inst mode h1
    some (r, destroy t h2)

  -- `operator + - / *`
  abbrev pub plus : ℕ → ℕ → Host → Option (ℕ × Host)
  plus = binary addsub false

  abbrev pub minus : ℕ → ℕ → Host → Option (ℕ × Host)
  minus = binary addsub true

  abbrev pub divide : ℕ → ℕ → Host → Option (ℕ × Host)
  divide = binary sqrtdiv false

  abbrev pub times : ℕ → ℕ → Host → Option (ℕ × Host)
  times = binary mul false

  -- `this->compute(Hardposit(), Hardposit(), SQRTDIV, true)`, with two temporaries.
  unfoldable pub sqrt : ℕ → Host → Option (ℕ × Host)
  sqrt this h = do
    let (t1, h1) = construct (of_bits 0) h
    let (t2, h2) = construct (of_bits 0) h1
    (r, h3) ← compute u b this t2 t1 sqrtdiv true h2
    some (r, destroy t1 (destroy t2 h3))

  -- `FMA(obj1, obj2)`
  abbrev pub multiply_add : ℕ → ℕ → ℕ → Host → Option (ℕ × Host)
  multiply_add this obj1 obj2 = compute u b this obj1 obj2 fma false

-- `operator < > ==`: SoftPosit compares the two words.
unfoldable pub compare_with : (ℕ → ℕ → Bool) → ℕ → ℕ → Host → Option (Bool × Host)
compare_with test this obj h = do
  (x, h1) ← get_val this h
  (y, h2) ← get_val obj h1
  some (test x y, h2)

-- `toDouble()` and `toInt()`, through SoftPosit's conversion of the word.
unfoldable pub convert_with {ℓ} : {A : Type ℓ} → (ℕ → A) → ℕ → Host → Option (A × Host)
convert_with convert this h = do (x, h1) ← get_val this h; some (convert x, h1)

-- `operator bool`
unfoldable pub to_bool : ℕ → Host → Option (Bool × Host)
to_bool = convert_with λ x. not (x == 0)

-- `std::bitset<n>` as it is printed, the highest bit first.
abbrev pub bitset : ℕ → ℕ → List ℕ
bitset zero v = []
bitset (suc n) v = v / 2 ^ n % 2 ∷ bitset n v

-- `print_val()`: the digits it prints.
unfoldable pub print_val : ℕ → Host → Option (List ℕ × Host)
print_val = convert_with (bitset 32)
