-- ===== src/Runtime/Invariant/Lifetime.antt =====
-- One object takes new fields, or leaves: the frame of construction, copy, assignment and
-- destruction, against the plain view of the objects, a number for each address that is alive.
pub mod Copy
pub mod Refine
use hardposit_fpga.Base.{
  ℕ, suc, ◌*◌, ◌<◌, ◌≤◌, ◌≡◌, ◌≢◌, refl, ap, sym, ◌∙◌, inl, inr, Bool, true, false, not, ◌&&◌,
  Option, none, some, List, [], ◌∷◌, ◌++◌, has, remove, has-remove, has-append, put, ◌==◌,
  if◌then◌else◌, Bool-cases, arith, subst, ◌||◌,
}
use hardposit_fpga.Accel.Config.{write_granularity}
use hardposit_fpga.Runtime.State.{Hardposit, ResultSlot, Host}
use hardposit_fpga.Runtime.Objects.{
  of_bits, construct, enlist, delist, copy_construct, destroy, assign,
}
use hardposit_fpga.Runtime.Invariant.{value, Listed, Alive, IsConsistent}

abbrev pub view : Host → ℕ → Option ℕ
view h a = if h.live a then some (value h a) else none

-- The number that fields stand for, given the device's entries.
abbrev pub number : Host → Hardposit → ℕ
number h o = if o.valid then o.val else h.dev.regs o.location

-- Slot `s` has a result line that is ready and agrees with the device.
pub record IsReady (h : Host) (s : ℕ) : Type 0 where
  pub slot-lt : s < 8
  pub line : (h.track s).ptr ≡ some (s * write_granularity)
  pub ready : (h.dev.res (s * write_granularity)).flags ≢ 0
  pub result : (h.dev.res (s * write_granularity)).result ≡ h.dev.regs s
  pub completed : h.dev.completed s ≡ true

-- Fields that an object may take.
pub record IsSound (h : Host) (o : Hardposit) : Type 0 where
  pub pending : o.valid ≡ false → o.in_fpga ≡ true
  pub ready : o.in_fpga ≡ true → IsReady h o.location
  pub settled : o.in_fpga ≡ true → o.valid ≡ true → o.val ≡ h.dev.regs o.location

pub of_bits-IsSound : (h : Host) (v : ℕ) → IsSound h (of_bits v)
of_bits-IsSound h v = record {
  pending = λ e. cc;
  ready = λ e. absurd (cc);
  settled = λ e. absurd (cc);
}

pub Alive-IsSound : {h : Host} (a : ℕ) → IsConsistent h → h.live a ≡ true → IsSound h (h.objs a)
Alive-IsSound {h} a inv alive = record {
  pending = O.pending;
  ready = λ e.
      let L = inv.slots (h.objs a).location a (O.listed e) in
      record {
        slot-lt = L.slot-lt;
        line = L.line;
        ready = L.ready;
        result = L.result;
        completed = L.completed;
      };
  settled = O.settled;
}
  where
    O : Alive h a
    O = inv.objects a alive

-- `h'` is `h` with the fields `o` at `a`, and with `a` in the lists where `o` says.
pub record Takes (h h' : Host) (a : ℕ) (o : Hardposit) : Type 0 where
  pub objs : (x : ℕ) → h'.objs x ≡ (if x == a then o else h.objs x)
  pub live : (x : ℕ) → h'.live x ≡ (if x == a then true else h.live x)
  pub lists :
      (s x : ℕ)
      → has x (h'.track s).crnt_posit
        ≡ (if x == a then o.in_fpga && (s == o.location) else has x (h.track s).crnt_posit)
  pub ptrs : (s : ℕ) → (h'.track s).ptr ≡ (h.track s).ptr
  pub dev : h'.dev ≡ h.dev
  pub pointer : h'.req_q_pointer ≡ h.req_q_pointer
  pub finish : h'.finish ≡ h.finish
  pub next-le : h.next ≤ h'.next
  pub below : a < h'.next

module _ {h h' : Host} (inv : IsConsistent h) {a : ℕ} {o : Hardposit} (sound : IsSound h o)
    (t : Takes h h' a o) where
  Takes-slots : (s x : ℕ) → has x (h'.track s).crnt_posit ≡ true → Listed h' s x
  Takes-slots s x e = elim (Bool-cases (x == a)) [
    | inl p ↦
        let at : s ≡ o.location = ground (arith, t.lists s x) in
        let resident : o.in_fpga ≡ true = ground (arith, t.lists s x) in
        let R = subst (IsReady h) (sym at) (sound.ready resident) in
        ground (arith, R, t.objs x, t.live x, t.ptrs s, t.dev)
    | inr p ↦
        let L = inv.slots s x (ground (arith, t.lists s x)) in
        ground (arith, L, t.objs x, t.live x, t.ptrs s, t.dev)
  ]

  Takes-objects : (x : ℕ) → h'.live x ≡ true → Alive h' x
  Takes-objects x alive = elim (Bool-cases (x == a)) [
    | inl p ↦ ground (arith, t.objs x, t.live x, t.lists (h'.objs x).location x, sound)
    | inr p ↦ ground (
      arith,
      t.objs x,
      t.live x,
      t.lists (h'.objs x).location x,
      inv.objects x (ground (arith, t.live x)),
    )
  ]

  pub Takes-view : (x : ℕ) → view h' x ≡ (if x == a then some (number h o) else view h x)
  Takes-view x = ground (arith, t.objs x, t.live x, t.dev)

  pub Takes-IsConsistent : IsConsistent h'
  Takes-IsConsistent = record {
    slots = Takes-slots;
    objects = Takes-objects;
    pointer = rw t.pointer inv.pointer;
    running = t.finish ∙ inv.running;
  }
