-- ===== src/Runtime/Invariant/Issue.antt =====
-- The request is sent: the returned object stands for the device's result.
use hardposit_fpga.Base.{
  ℕ, ◌+◌, ◌*◌, ◌%◌, ◌^◌, ◌<◌, ◌≡◌, ◌≢◌, refl, inl, inr, Bool, true, false, some, [], ◌∷◌, ◌++◌, has,
  ◌==◌, if◌then◌else◌, put, Bool-cases, arith,
}
use hardposit_fpga.Accel.Config.{Operand, write_granularity}
use hardposit_fpga.Accel.Request.{Inst, gt, inst_code, mode_code, Operands}
use hardposit_fpga.Accel.Request.Fields.{FitsWord, request}
use hardposit_fpga.Accel.Device.{Alu, Device, fetch, accept, complete}
use hardposit_fpga.Accel.Device.Fetch.{submit-complete}
use hardposit_fpga.Runtime.State.{Host}
use hardposit_fpga.Runtime.Compute.{pending, clear_flags, issue}
use hardposit_fpga.Runtime.Invariant.{value, Listed, Alive, IsConsistent}

-- Clearing flags changes nothing that operands are fetched from.
fetch-clear_flags :
    (slot p : ℕ) (d : Device) (req : ℕ → Operand) (addr : ℕ)
    → fetch (accept slot (clear_flags p d)) req addr ≡ fetch (accept slot d) req addr
unfolding fetch
fetch-clear_flags slot p d req addr = refl

-- What the arithmetic unit makes of a request.
abbrev pub outcome : Alu → Inst → Bool → ℕ → ℕ → ℕ → ℕ
outcome u inst mode a b c = u.out (inst_code inst) (mode_code mode) a b c

-- The result flags of the unit are never all zero.
abbrev pub IsFlagged : Alu → Type 0
IsFlagged u = (i m a b c : ℕ) → u.flags i m a b c ≢ 0

module _ (u : Alu) (flagged : IsFlagged u) (ret slot : ℕ) (small : slot < 8) (ops : Operands)
    (inst : Inst) (mode : Bool) (a b c : ℕ) {h : Host} (inv : IsConsistent h)
    (empty : (h.track slot).crnt_posit ≡ [])
    (free : (x : ℕ) → h.live x ≡ true → (h.objs x).in_fpga ≡ true → (h.objs x).location ≢ slot)
    (fresh : h.live ret ≡ true) (outside : (h.objs ret).in_fpga ≡ false) where
  abbrev done : Device
  done =
      complete u (request slot ops inst mode)
        (accept slot (clear_flags (slot * write_granularity) h.dev)) a b c

  abbrev pub issued : Host
  issued = record h {
    objs = put ret (pending slot h.global_counter (h.objs ret)) h.objs;
    track =
        put slot
          (record {
            ptr = some (slot * write_granularity);
            crnt_posit = (h.track slot).crnt_posit ++ (ret ∷ []);
          })
          h.track;
    global_counter = (h.global_counter + 1) % 2 ^ 64;
    dev = done;
  }

  pub issue-issued :
      FitsWord ops
      → inst ≢ gt
      → fetch (accept slot h.dev) h.req ops.op0 ≡ some a
      → fetch (accept slot h.dev) h.req ops.op1 ≡ some b
      → fetch (accept slot h.dev) h.req ops.op2 ≡ some c
      → issue u ret slot ops inst mode h ≡ issued
  unfolding issue
  issue-issued fits ne fa fb fc =
      let d = clear_flags (slot * write_granularity) h.dev in
      let sent =
        submit-complete u h.req d slot ops inst mode a b c (omega arith) fits ne
          (rw fetch-clear_flags fa) (rw fetch-clear_flags fb) (rw fetch-clear_flags fc) in
      rw sent refl

  issued-slots : (s x : ℕ) → has x (issued.track s).crnt_posit ≡ true → Listed issued s x
  unfolding complete
  issued-slots s x e = elim (Bool-cases (s == slot)) [
    | inl here ↦ ground (arith, empty, fresh, flagged (inst_code inst) (mode_code mode) a b c)
    | inr away ↦ let L = inv.slots s x (ground arith) in ground (arith, L, outside)
  ]

  issued-objects : (x : ℕ) → h.live x ≡ true → Alive issued x
  unfolding complete
  issued-objects x alive = elim (Bool-cases (x == ret)) [
    | inl e ↦ ground (arith, empty, inv.objects ret fresh)
    | inr e ↦ let O = inv.objects x alive in ground (arith, O, free x alive)
  ]

  pub issued-IsConsistent : IsConsistent issued
  issued-IsConsistent = record {
    slots = issued-slots;
    objects = issued-objects;
    pointer = inv.pointer;
    running = inv.running;
  }

  pub issued-value :
      (x : ℕ)
      → h.live x ≡ true
      → value issued x ≡ (if x == ret then outcome u inst mode a b c else value h x)
  unfolding complete
  issued-value x alive = ground (arith, free x alive, (inv.objects x alive).pending)
