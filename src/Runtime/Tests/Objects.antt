-- ===== src/Runtime/Tests/Objects.antt =====
-- The theorems on single operations, at the two objects.
use hardposit_fpga.Base.{
  ℕ, ◌+◌, ◌*◌, ◌-◌, ◌%◌, ◌^◌, ◌≡◌, ◌<◌, ◌↔◌, ◌⊎◌, refl, Bool, true, false, none, some, List, [],
  ◌∷◌, has, put, ◌==◌, if◌then◌else◌, arith,
}
use hardposit_fpga.Accel.Config.{byte_of}
use hardposit_fpga.Accel.Request.{
  fma, Operands, memory_addr, reuse_addr, write_req, latched, decode,
}
use hardposit_fpga.Accel.Request.Fields.{request, instruction, latched_ops, decode-write_req}
use hardposit_fpga.Accel.Device.{fetch}
use hardposit_fpga.Accel.Device.Fetch.{entry, fetch-memory_addr}
use hardposit_fpga.Runtime.State.{Host, Counter}
use hardposit_fpga.Runtime.Slots.{get_val}
use hardposit_fpga.Runtime.Objects.{
  copy_construct, destroy, assign, assign_number, flip_sign, negate,
}
use hardposit_fpga.Runtime.Compute.{reuse, compute}
use hardposit_fpga.Runtime.Invariant.{IsConsistent}
use hardposit_fpga.Runtime.Invariant.Keeps.{Keeps, get_val-Keeps}
use hardposit_fpga.Runtime.Invariant.Lifetime.{view}
use hardposit_fpga.Runtime.Invariant.Lifetime.Refine.{
  copy_construct_refines, assign_refines, destroy_refines,
}
use hardposit_fpga.Runtime.Invariant.Number.{assign_number-stale, negate-stale, flip_sign_iff}
use hardposit_fpga.Runtime.Invariant.Result.{compute_refines}
use hardposit_fpga.Runtime.Tests.{
  adder, adder-IsFlagged, answered, two_objects, two_objects-IsConsistent,
}

abbrev h : Host
h = two_objects

-- 42 + 5 + 42 in the build with reuse, with objects 0, 1 and 0.
compute_refines_example :
    (h' : Host) × (compute adder reuse 0 1 0 fma false h ≡ some (2, h'))
    × IsConsistent h'
    × (h'.next ≡ 3)
    × ((x : ℕ) → view h' x ≡ (if x == 2 then some 89 else view h x))
compute_refines_example =
    compute_refines adder adder-IsFlagged reuse fma (λ e. absurd (cc)) false 0 1 0
      two_objects-IsConsistent refl refl refl

get_val-Keeps_example : (h' : Host) × (get_val 0 h ≡ some (42, h')) × Keeps h h'
get_val-Keeps_example = get_val-Keeps 0 two_objects-IsConsistent refl

copy_construct_refines_example :
    IsConsistent (copy_construct 0 h).1
    × ((x : ℕ) → view (copy_construct 0 h).1 x ≡ (if x == 2 then some 42 else view h x))
copy_construct_refines_example = copy_construct_refines two_objects-IsConsistent 0 refl

assign_refines_example :
    IsConsistent (assign 1 0 h)
    × ((x : ℕ) → view (assign 1 0 h) x ≡ (if x == 1 then some 42 else view h x))
assign_refines_example = assign_refines two_objects-IsConsistent 1 0 refl refl

destroy_refines_example :
    IsConsistent (destroy 0 h)
    × ((x : ℕ) → view (destroy 0 h) x ≡ (if x == 0 then none else view h x))
destroy_refines_example = destroy_refines two_objects-IsConsistent 0 refl

assign_number-stale_example :
    (¬ IsConsistent (assign_number 0 9 h))
    × ((destroy 0 (assign_number 0 9 h)).live 0 ≡ false)
    × (has 0 ((destroy 0 (assign_number 0 9 h)).track 3).crnt_posit ≡ true)
assign_number-stale_example = assign_number-stale two_objects-IsConsistent 0 refl refl 9

negate-stale_example :
    (h' : Host) × (negate 0 h ≡ some h')
    × ((h'.objs 0).val ≡ 2 ^ 31 + 42)
    × ((h'.objs 0).in_fpga ≡ true)
    × (h'.dev.regs (h'.objs 0).location ≡ 42)
    × ¬ IsConsistent h'
negate-stale_example = negate-stale two_objects-IsConsistent 0 refl refl

-- Zero is sent to the word that stands for no number.
flip_sign_iff_example : (flip_sign 0 ≡ (2 ^ 32 - 0) % 2 ^ 32) ↔ ((0 ≡ 2 ^ 30) ⊎ (0 ≡ 3 * 2 ^ 30))
flip_sign_iff_example = flip_sign_iff 0 (omega arith)

abbrev addresses : Operands
addresses = record { op0 = memory_addr 0; op1 = memory_addr 255; op2 = 2 ^ 14 + 3 }

decode-write_req_example :
    (decode (write_req 7 addresses fma true) ≡ request 7 (latched_ops addresses) fma true)
    × (instruction (decode (write_req 7 addresses fma true)).inst ≡ fma)
    × ((p : ℕ) → p < 256 → latched (memory_addr p) ≡ memory_addr p)
    × ((s : ℕ) → s < 8 → latched (reuse_addr s) ≡ reuse_addr s)
unfolding memory_addr
decode-write_req_example =
    decode-write_req 7 addresses fma true (omega arith)
      (record { op0 = omega arith; op1 = omega arith; op2 = omega arith }) (λ e. absurd (cc))

-- The last ring position before the id changes back.
fetch-memory_addr_example :
    fetch answered (put (byte_of 63) (entry 63 8) two_objects.req) (memory_addr 63) ≡ some 8
fetch-memory_addr_example =
    fetch-memory_addr answered (put (byte_of 63) (entry 63 8) two_objects.req) 63 8 (omega arith)
      refl

abbrev none_yet : Counter
none_yet = record { created = 0; living = 0; most = 0 }

abbrev made_two : List Bool
made_two = true ∷ true ∷ false ∷ []
