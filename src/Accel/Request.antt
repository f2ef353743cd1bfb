-- ===== src/Accel/Request.antt =====
-- The 64-bit request word that `Hardposit::compute` builds and writes to CSR 16, and the fields
-- that the accelerator's top level (hw/rtl/Posit.sv) takes from it.
pub mod Fields
use hardposit_fpga.Base.{ℕ, ◌+◌, ◌*◌, ◌/◌, ◌%◌, ◌^◌, Bool, true, false}
use hardposit_fpga.Accel.Config.{calc_offset, calc_cacheline_one_hot, calc_id}

-- `enum Inst`
pub data Inst : Type 0 where
  noop addsub cmp fma mul sqrtdiv lt eq gt : Inst

abbrev pub inst_code : Inst → ℕ
inst_code noop = 0
inst_code addsub = 1
inst_code cmp = 2
inst_code fma = 3
inst_code mul = 4
inst_code sqrtdiv = 5
inst_code lt = 6
inst_code eq = 7
inst_code gt = 8

abbrev pub mode_code : Bool → ℕ
mode_code false = 0
mode_code true = 1

-- `struct OpAddr` of an operand in the request ring: offset, one-hot cache line, id, mode bit 15.
unfoldable pub memory_addr : ℕ → ℕ
memory_addr p = (calc_offset p + calc_cacheline_one_hot p + calc_id p * 2 ^ 14 + 2 ^ 15) % 2 ^ 16

-- `struct OpAddr` of an operand that is the result of an entry: the slot, and mode bit 14.
unfoldable pub reuse_addr : ℕ → ℕ
reuse_addr location = (location + 2 ^ 14) % 2 ^ 16

-- The three addresses of a request.
pub record Operands : Type 0 where
  pub op0 : ℕ
  pub op1 : ℕ
  pub op2 : ℕ

-- `mempcpy(((uint8_t*)&write_req)+1, ops, 3*sizeof(OpAddr))`, little-endian: bytes 1 to 6.
abbrev pub copy_ops : ℕ → Operands → ℕ
copy_ops w ops =
    w % 2 ^ 8 + ops.op0 * 2 ^ 8 + ops.op1 * 2 ^ 24 + ops.op2 * 2 ^ 40 + w / 2 ^ 56 * 2 ^ 56

abbrev pub insmod : Inst → Bool → ℕ
insmod inst mode = (inst_code inst + mode_code mode * 2 ^ 3) % 2 ^ 8

-- The request word: slot in byte 0, addresses in bytes 1 to 6, instruction and mode in byte 7.
unfoldable pub write_req : ℕ → Operands → Inst → Bool → ℕ
write_req slot ops inst mode = (copy_ops slot ops + insmod inst mode * 2 ^ 56) % 2 ^ 64

-- What the top level reads: bits 7:0, 21:8 and 23:22 and so on, 58:56, 60:59. The value of an
-- operand is declared eight bits wide there, so its upper six bits are dropped.
pub record Request : Type 0 where
  pub wr_addr : ℕ
  pub ops : Operands
  pub inst : ℕ
  pub mode : ℕ

unfoldable pub operand_value : ℕ → ℕ
operand_value addr = addr % 2 ^ 14 % 2 ^ 8

unfoldable pub operand_mode : ℕ → ℕ
operand_mode addr = addr / 2 ^ 14

-- What is left of an address: the two bits of the mode, and eight of the fourteen bits of the value.
unfoldable pub latched : ℕ → ℕ
latched addr = addr / 2 ^ 14 * 2 ^ 14 + addr % 2 ^ 14 % 2 ^ 8

unfoldable pub decode : ℕ → Request
decode w = record {
  wr_addr = w % 2 ^ 8;
  ops = record {
    op0 = latched (w / 2 ^ 8 % 2 ^ 16);
    op1 = latched (w / 2 ^ 24 % 2 ^ 16);
    op2 = latched (w / 2 ^ 40 % 2 ^ 16);
  };
  inst = w / 2 ^ 56 % 2 ^ 3;
  mode = w / 2 ^ 59 % 2 ^ 2;
}
