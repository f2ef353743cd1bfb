-- ===== src/Accel/Device/Fetch.antt =====
-- Operand fetch finds what the host placed.
use hardposit_fpga.Base.{
  ℕ, ◌+◌, ◌^◌, ◌<◌, ◌≡◌, ◌≢◌, refl, ap, ◌∙◌, Bool, true, ◌&&◌, some, ◌==◌, passes, passes_sound,
  put, arith,
}
use hardposit_fpga.Accel.Config.{Operand, calc_id, byte_of, bump}
use hardposit_fpga.Accel.Request.{
  memory_addr, reuse_addr, operand_mode, operand_value, Operands, Inst, gt, write_req, Request,
  latched,
}
use hardposit_fpga.Accel.Request.Fields.{
  FitsWord, decode_all, latched_ops, latched-value, latched-mode, request,
}
use hardposit_fpga.Accel.Device.{
  Alu, fetch_byte, fetch, Device, accept, run_entry, execute, submit, complete,
}

-- The operand that the host writes for a value at ring position `p`.
abbrev pub entry : ℕ → ℕ → Operand
entry p v = record { val = v; valid_w_id = calc_id p + 2 }

byte_table :
    passes
      (λ p.
        (fetch_byte (memory_addr p) == byte_of p)
        && (operand_mode (memory_addr p) == calc_id p + 2))
      256
    ≡ true
unfolding passes fetch_byte memory_addr operand_mode
byte_table = refl

-- The device looks where the host wrote, under the id that the host gave.
memory_addr_fields :
    (p : ℕ)
    → p < 256
    → (fetch_byte (memory_addr p) ≡ byte_of p) × (operand_mode (memory_addr p) ≡ calc_id p + 2)
memory_addr_fields p h = ground (arith, passes_sound _ p 256 h byte_table)

-- For every position of the request ring's 8-bit pointer: if the entry at the byte that the
-- host's macros compute holds the value and the id that the host writes there, the device's
-- operand fetch, given the address the host puts into the request, finds that value.
pub fetch-memory_addr :
    (d : Device) (req : ℕ → Operand) (p v : ℕ)
    → p < 256
    → req (byte_of p) ≡ entry p v
    → fetch d req (memory_addr p) ≡ some v
unfolding fetch
fetch-memory_addr d req p v h e = let f = memory_addr_fields p h in rw (f.0, f.1, e) (ground arith)

pub fetch-reuse_addr :
    (d : Device) (req : ℕ → Operand) (s : ℕ)
    → s < 8
    → d.completed s ≡ true
    → fetch d req (reuse_addr s) ≡ some (d.regs s)
unfolding fetch reuse_addr operand_mode operand_value
fetch-reuse_addr d req s h done = ground arith

pub fetch-zero : (d : Device) (req : ℕ → Operand) → fetch d req 0 ≡ some 0
unfolding fetch operand_mode operand_value
fetch-zero d req = refl

-- A write elsewhere in the ring leaves an operand in place.
pub fetch-put :
    (d : Device) (req : ℕ → Operand) (p q : ℕ) (op : Operand)
    → p < 256
    → byte_of p ≢ byte_of q
    → fetch d (put (byte_of q) op req) (memory_addr p) ≡ fetch d req (memory_addr p)
unfolding fetch
fetch-put d req p q op h ne = let f = memory_addr_fields p h in rw (f.0, f.1) (ground arith)

run_entry-complete :
    (u : Alu) (req : ℕ → Operand) (d : Device) (r : Request) (a b c : ℕ)
    → fetch d req r.ops.op0 ≡ some a
    → fetch d req r.ops.op1 ≡ some b
    → fetch d req r.ops.op2 ≡ some c
    → run_entry u r req d ≡ complete u r d a b c
unfolding run_entry
run_entry-complete u req d r a b c ha hb hc = rw (ha, hb, hc, run_entry) refl

fetch-latched :
    (d : Device) (req : ℕ → Operand) (addr : ℕ) → fetch d req (latched addr) ≡ fetch d req addr
unfolding fetch fetch_byte
fetch-latched d req addr = let v = latched-value addr in let m = latched-mode addr in rw (v, m) refl

-- When the three operands can be had once the request has taken its entry, it runs, with exactly
-- the packed fields.
pub submit-complete :
    (u : Alu) (req : ℕ → Operand) (d : Device) (slot : ℕ) (ops : Operands) (inst : Inst)
    (mode : Bool) (a b c : ℕ)
    → slot < 2 ^ 8
    → FitsWord ops
    → inst ≢ gt
    → fetch (accept slot d) req ops.op0 ≡ some a
    → fetch (accept slot d) req ops.op1 ≡ some b
    → fetch (accept slot d) req ops.op2 ≡ some c
    → submit u (write_req slot ops inst mode) req d
      ≡ complete u (request slot ops inst mode) (accept slot d) a b c
unfolding submit execute complete
submit-complete u req d slot ops inst mode a b c hs fits ne ha hb hc =
    ap (λ r. execute u r req d) (decode_all slot ops inst mode hs fits ne)
    ∙ run_entry-complete u req (accept slot d) (request slot (latched_ops ops) inst mode) a b c
        (fetch-latched (accept slot d) req ops.op0 ∙ ha)
        (fetch-latched (accept slot d) req ops.op1 ∙ hb)
        (fetch-latched (accept slot d) req ops.op2 ∙ hc)

pub memory_addr-lt : (p : ℕ) → memory_addr p < 2 ^ 16
unfolding memory_addr
memory_addr-lt p = omega arith

pub reuse_addr-lt : (p : ℕ) → reuse_addr p < 2 ^ 16
unfolding reuse_addr
reuse_addr-lt p = omega arith

-- Neighbours in the ring, and the next but one, are in other places.
pub byte_of-bump : (p : ℕ) → byte_of p ≢ byte_of (bump p)
byte_of-bump p = omega arith

pub byte_of-bump-bump : (p : ℕ) → byte_of p ≢ byte_of (bump (bump p))
byte_of-bump-bump p = omega arith
