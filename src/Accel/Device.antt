-- ===== src/Accel/Device.antt =====
-- The accelerator as the host library sees it: a register per entry, operand fetch from the request
-- ring by the rules of src/main/scala/POSIT_Locality.scala, and one result line per entry. The
-- arithmetic unit is a parameter. A request runs to its end before the host looks at memory again.
pub mod Fetch
use Prim.Native.Nat.{bit_or}
use hardposit_fpga.Base.{
  ℕ, zero, suc, ◌+◌, ◌-◌, ◌*◌, ◌/◌, ◌%◌, ◌^◌, ◌≡◌, ◌≢◌, Bool, true, false, ◌&&◌, Option, none, some,
  ◌==◌, if◌then◌else◌, put,
}
use hardposit_fpga.Accel.Config.{Operand, bits_for_offset, write_granularity}
use hardposit_fpga.Accel.Request.{Request, decode, operand_value, operand_mode}

-- The arithmetic unit: result word and flag byte of an instruction, a mode and three operands. The
-- flags hold isZero, isNaR, and the outcome of comparing the first two operands, so one is set. It
-- answers the instructions 1 to 5, which are the ones that the operators send; what it does for another
-- number is not said.
pub record Alu : Type 0 where
  pub out : ℕ → ℕ → ℕ → ℕ → ℕ → ℕ
  pub flags : ℕ → ℕ → ℕ → ℕ → ℕ → ℕ

-- `struct Result`, a line of the result buffer.
pub record Result : Type 0 where
  pub result : ℕ
  pub flags : ℕ

-- OHToUInt: the bitwise or of the positions of the bits that are set, below `n`.
oh_to_uint : ℕ → ℕ → ℕ
oh_to_uint zero v = 0
oh_to_uint (suc n) v = if v / 2 ^ n % 2 == 1 then bit_or n (oh_to_uint n v) else oh_to_uint n v

-- The byte of the request buffer that an operand address selects.
unfoldable pub fetch_byte : ℕ → ℕ
unfolding oh_to_uint operand_value
fetch_byte addr =
    oh_to_uint 11 (operand_value addr / 2 ^ bits_for_offset) * 2 ^ 6
    + operand_value addr % 2 ^ bits_for_offset * 8

-- The result register of each entry, whether the entry has completed, and the result buffer by byte.
pub record Device : Type 0 where
  pub regs : ℕ → ℕ
  pub completed : ℕ → Bool
  pub res : ℕ → Result

-- Mode 0 is an immediate value, mode 1 waits until the entry that it names has completed, and modes
-- 2 and 3 wait for a ring entry that is valid and carries the id of the mode's low bit: `none` is a
-- wait without end.
unfoldable pub fetch : Device → (ℕ → Operand) → ℕ → Option ℕ
fetch d req addr =
    if operand_mode addr == 0
    then some (operand_value addr)
    else if operand_mode addr == 1
    then (if d.completed (operand_value addr % 8)
        then some (d.regs (operand_value addr % 8))
        else none)
    else (let op = req (fetch_byte addr) in
        if (op.valid_w_id / 2 % 2 == 1) && (op.valid_w_id % 2 == operand_mode addr % 2)
        then some op.val
        else none)

-- A request takes the entry of its slot, whose result is reset.
abbrev pub accept : ℕ → Device → Device
accept slot d = record d {
  regs = put (slot % 8) 0 d.regs;
  completed = put (slot % 8) false d.completed;
}

unfoldable pub complete : Alu → Request → Device → ℕ → ℕ → ℕ → Device
complete u r d a b c = record {
  regs = put (r.wr_addr % 8) (u.out r.inst r.mode a b c) d.regs;
  completed = put (r.wr_addr % 8) true d.completed;
  res =
      put (r.wr_addr * write_granularity)
        (record { result = u.out r.inst r.mode a b c; flags = u.flags r.inst r.mode a b c }) d.res;
}

-- An operand that never arrives leaves the entry waiting and the result line as it is.
unfoldable pub run_entry : Alu → Request → (ℕ → Operand) → Device → Device
run_entry u r req d = elim (fetch d req r.ops.op0) [
  | none ↦ d
  | some a ↦ elim (fetch d req r.ops.op1) [
    | none ↦ d
    | some b ↦ elim (fetch d req r.ops.op2) [ none ↦ d | some c ↦ complete u r d a b c ]
  ]
]

unfoldable pub execute : Alu → Request → (ℕ → Operand) → Device → Device
execute u r req d = run_entry u r req (accept r.wr_addr d)

-- A write of `w` to CSR 16.
unfoldable pub submit : Alu → ℕ → (ℕ → Operand) → Device → Device
submit u w req d = execute u (decode w) req d
