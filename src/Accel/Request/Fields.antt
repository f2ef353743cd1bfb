-- ===== src/Accel/Request/Fields.antt =====
-- The request word carries its fields: what is packed comes back from the decoder.
use hardposit_fpga.Base.{
  ℕ, ◌+◌, ◌*◌, ◌/◌, ◌%◌, ◌^◌, ◌<◌, ◌≡◌, refl, ap, ◌∙◌, ◌≢◌, Bool, true, false, ◌==◌, if◌then◌else◌,
  passes, passes_sound, arith,
}
use hardposit_fpga.Accel.Request.{
  Inst, noop, addsub, cmp, fma, mul, sqrtdiv, lt, eq, gt, inst_code, mode_code, Operands, write_req,
  Request, latched, decode, memory_addr, reuse_addr, operand_value, operand_mode,
}

-- The code of an instruction fits the three bits that the decoder reads, except for GT.
pub inst_code-lt : (i : Inst) → i ≢ gt → inst_code i < 8
inst_code-lt noop h = omega arith
inst_code-lt addsub h = omega arith
inst_code-lt cmp h = omega arith
inst_code-lt fma h = omega arith
inst_code-lt mul h = omega arith
inst_code-lt sqrtdiv h = omega arith
inst_code-lt lt h = omega arith
inst_code-lt eq h = omega arith
inst_code-lt gt h = absurd (h refl)

mode_code-lt : (b : Bool) → mode_code b < 2
mode_code-lt true = omega arith
mode_code-lt false = omega arith

abbrev word : (slot a b c i m : ℕ) → ℕ
word slot a b c i m =
    (slot % 2 ^ 8
      + a * 2 ^ 8
      + b * 2 ^ 24
      + c * 2 ^ 40
      + slot / 2 ^ 56 * 2 ^ 56
      + (i + m * 2 ^ 3) % 2 ^ 8 * 2 ^ 56)
    % 2 ^ 64

module _ (slot a b c i m : ℕ) (hs : slot < 2 ^ 8) (ha : a < 2 ^ 16) (hb : b < 2 ^ 16)
    (hc : c < 2 ^ 16) (hi : i < 8) (hm : m < 2) where
  word_fields :
      (word slot a b c i m % 2 ^ 8 ≡ slot)
      × (word slot a b c i m / 2 ^ 8 % 2 ^ 16 ≡ a)
      × (word slot a b c i m / 2 ^ 24 % 2 ^ 16 ≡ b)
      × (word slot a b c i m / 2 ^ 40 % 2 ^ 16 ≡ c)
      × (word slot a b c i m / 2 ^ 56 % 2 ^ 3 ≡ i)
      × (word slot a b c i m / 2 ^ 59 % 2 ^ 2 ≡ m)
  word_fields = omega arith

-- The addresses of a request fit their sixteen bits.
pub record FitsWord (ops : Operands) : Type 0 where
  pub op0 : ops.op0 < 2 ^ 16
  pub op1 : ops.op1 < 2 ^ 16
  pub op2 : ops.op2 < 2 ^ 16

abbrev pub latched_ops : Operands → Operands
latched_ops ops = record { op0 = latched ops.op0; op1 = latched ops.op1; op2 = latched ops.op2 }

-- The instruction that the arithmetic unit takes a number of three bits for. The unit has names for
-- 1 to 5 (`object Instruction` of src/main/scala/POSIT.scala).
abbrev pub instruction : ℕ → Inst
instruction n =
    if n == 1
    then addsub
    else if n == 2
    then cmp
    else if n == 3
    then fma
    else if n == 4
    then mul
    else if n == 5
    then sqrtdiv
    else if n == 6
    then lt
    else if n == 7
    then eq
    else noop

instruction-inst_code : (i : Inst) → i ≢ gt → instruction (inst_code i) ≡ i
instruction-inst_code noop h = refl
instruction-inst_code addsub h = refl
instruction-inst_code cmp h = refl
instruction-inst_code fma h = refl
instruction-inst_code mul h = refl
instruction-inst_code sqrtdiv h = refl
instruction-inst_code lt h = refl
instruction-inst_code eq h = refl
instruction-inst_code gt h = absurd (h refl)

abbrev pub request : ℕ → Operands → Inst → Bool → Request
request slot ops inst mode = record {
  wr_addr = slot;
  ops = ops;
  inst = inst_code inst;
  mode = mode_code mode;
}

pub decode_all :
    (slot : ℕ) (ops : Operands) (inst : Inst) (mode : Bool)
    → slot < 2 ^ 8
    → FitsWord ops
    → inst ≢ gt
    → decode (write_req slot ops inst mode) ≡ request slot (latched_ops ops) inst mode
unfolding write_req decode
decode_all slot ops inst mode hs fits ne =
    let f =
      word_fields slot ops.op0 ops.op1 ops.op2 (inst_code inst) (mode_code mode) hs fits.op0
        fits.op1 fits.op2 (inst_code-lt inst ne) (mode_code-lt mode) in
    λ k. record {
      wr_addr = f.0 k;
      ops = record { op0 = latched (f.1 k); op1 = latched (f.2 k); op2 = latched (f.3 k) };
      inst = f.4 k;
      mode = f.5 k;
    }

memory_addr_table : passes (λ p. latched (memory_addr p) == memory_addr p) 256 ≡ true
unfolding passes latched memory_addr
memory_addr_table = refl

latched-memory_addr : (p : ℕ) → p < 256 → latched (memory_addr p) ≡ memory_addr p
latched-memory_addr p le = ground (arith, passes_sound _ p 256 le memory_addr_table)

latched-reuse_addr : (s : ℕ) → s < 8 → latched (reuse_addr s) ≡ reuse_addr s
unfolding latched reuse_addr
latched-reuse_addr s le = omega (arith, le)

-- For a slot of one byte, three addresses of sixteen bits and every instruction but GT, the
-- decoder reads from the request word exactly the slot, the mode, the number of that instruction
-- and no other, and of each address the two mode bits and the lower eight bits of the value; and
-- it loses nothing of the addresses that the host puts into requests: those of the 256 ring
-- positions and those of the eight slots.
pub decode-write_req :
    (slot : ℕ) (ops : Operands) (inst : Inst) (mode : Bool)
    → slot < 2 ^ 8
    → FitsWord ops
    → inst ≢ gt
    → (decode (write_req slot ops inst mode) ≡ request slot (latched_ops ops) inst mode)
      × (instruction (decode (write_req slot ops inst mode)).inst ≡ inst)
      × ((p : ℕ) → p < 256 → latched (memory_addr p) ≡ memory_addr p)
      × ((s : ℕ) → s < 8 → latched (reuse_addr s) ≡ reuse_addr s)
decode-write_req slot ops inst mode hs fits ne =
    let e = decode_all slot ops inst mode hs fits ne in
    (
      e,
      ap (λ r. instruction r.inst) e ∙ instruction-inst_code inst ne,
      latched-memory_addr,
      latched-reuse_addr,
    )

-- The device takes the same value and mode from what is left of an address.
pub latched-value : (addr : ℕ) → operand_value (latched addr) ≡ operand_value addr
unfolding operand_value latched
latched-value addr = omega arith

pub latched-mode : (addr : ℕ) → operand_mode (latched addr) ≡ operand_mode addr
unfolding operand_mode latched
latched-mode addr = omega arith

-- GT does not fit: with the mode off it makes, for all addresses, the word of NOOP with mode on.
pub gt_collides :
    (slot : ℕ) (ops : Operands) → write_req slot ops gt false ≡ write_req slot ops noop true
unfolding write_req
gt_collides slot ops = refl
