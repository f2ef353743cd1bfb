-- ===== src/Runtime/Invariant/Keeps.antt =====
-- A step that the caller of the library cannot see: no object changes its number, and the slot
-- table and the device stay as they are.
use hardposit_fpga.Base.{ℕ, ◌≡◌, refl, ap, sym, ◌∙◌, inl, inr, true, some, has, Bool-cases, arith}
use hardposit_fpga.Runtime.State.{Host}
use hardposit_fpga.Runtime.Slots.{store_loop, get_val}
use hardposit_fpga.Runtime.Invariant.{value, Listed, Alive, IsConsistent}
use hardposit_fpga.Runtime.Invariant.Settle.{store_loop-has, after_get_val, get_val_lem}

pub record Keeps (h h' : Host) : Type 0 where
  pub consistent : IsConsistent h'
  pub same_dev : h'.dev ≡ h.dev
  pub same_live : h'.live ≡ h.live
  pub same_next : h'.next ≡ h.next
  pub same_track : h'.track ≡ h.track
  pub same_counter : h'.global_counter ≡ h.global_counter
  pub same_value : (a : ℕ) → h.live a ≡ true → value h' a ≡ value h a
  pub same_in_fpga : (a : ℕ) → (h'.objs a).in_fpga ≡ (h.objs a).in_fpga
  pub same_location : (a : ℕ) → (h'.objs a).location ≡ (h.objs a).location

pub Keeps-refl : {h : Host} → IsConsistent h → Keeps h h
Keeps-refl inv = record {
  consistent = inv;
  same_dev = refl;
  same_live = refl;
  same_next = refl;
  same_track = refl;
  same_counter = refl;
  same_value = λ a alive. refl;
  same_in_fpga = λ a. refl;
  same_location = λ a. refl;
}

pub Keeps-trans : {h h' h'' : Host} → Keeps h h' → Keeps h' h'' → Keeps h h''
Keeps-trans {h} k l = record {
  consistent = l.consistent;
  same_dev = l.same_dev ∙ k.same_dev;
  same_live = l.same_live ∙ k.same_live;
  same_next = l.same_next ∙ k.same_next;
  same_track = l.same_track ∙ k.same_track;
  same_counter = l.same_counter ∙ k.same_counter;
  same_value = λ a alive. l.same_value a (rw k.same_live alive) ∙ k.same_value a alive;
  same_in_fpga = λ a. l.same_in_fpga a ∙ k.same_in_fpga a;
  same_location = λ a. l.same_location a ∙ k.same_location a;
}

-- What an object is after a slot's number went to the slot's list.
module _ {h : Host} (inv : IsConsistent h) (s : ℕ) where
  abbrev stored : Host
  stored = record h { objs = store_loop true (h.dev.regs s) (h.track s).crnt_posit h.objs }

  stored-in_fpga : (a : ℕ) → (stored.objs a).in_fpga ≡ (h.objs a).in_fpga
  stored-in_fpga a = elim (Bool-cases (has a (h.track s).crnt_posit)) [
    | inl e ↦ rw (store_loop-has, e) (ground (arith, (inv.slots s a e).resident))
    | inr e ↦ rw (store_loop-has, e) refl
  ]

  stored-location : (a : ℕ) → (stored.objs a).location ≡ (h.objs a).location
  stored-location a = rw store_loop-has (ground arith)

  stored-value : (a : ℕ) → h.live a ≡ true → value stored a ≡ value h a
  stored-value a alive = elim (Bool-cases (has a (h.track s).crnt_posit)) [
    | inl e ↦
        let L = inv.slots s a e in
        let O = inv.objects a alive in
        rw (store_loop-has, e)
          (ground (arith, L.at_slot, ap h.dev.regs L.at_slot, O.settled L.resident))
    | inr e ↦ rw (store_loop-has, e) refl
  ]

  stored-Listed : (t a : ℕ) → Listed h t a → Listed stored t a
  stored-Listed t a l = record {
    alive = l.alive;
    resident = stored-in_fpga a ∙ l.resident;
    at_slot = stored-location a ∙ l.at_slot;
    slot-lt = l.slot-lt;
    line = l.line;
    ready = l.ready;
    result = l.result;
    completed = l.completed;
  }

  stored-Alive : (a : ℕ) → h.live a ≡ true → Alive stored a
  stored-Alive a alive = elim (Bool-cases (has a (h.track s).crnt_posit)) [
    | inl e ↦
        let L = inv.slots s a e in
        record {
          below = o.below;
          pending = λ _. stored-in_fpga a ∙ L.resident;
          listed = λ _. rw (stored-location a) (o.listed L.resident);
          settled =
              λ _ _. rw (stored-location a, store_loop-has, e) (ap h.dev.regs (sym L.at_slot));
        }
    | inr e ↦
        let same = store_loop-has true (h.dev.regs s) (h.track s).crnt_posit h.objs a in
        record {
          below = o.below;
          pending = rw (same, e) o.pending;
          listed = rw (same, e) o.listed;
          settled = rw (same, e) o.settled;
        }
  ]
    where
      o : Alive h a
      o = inv.objects a alive

  stored-Keeps : Keeps h stored
  stored-Keeps = record {
    consistent = record {
      slots = λ t a e. stored-Listed t a (inv.slots t a e);
      objects = stored-Alive;
      pointer = inv.pointer;
      running = inv.running;
    };
    same_dev = refl;
    same_live = refl;
    same_next = refl;
    same_track = refl;
    same_counter = refl;
    same_value = stored-value;
    same_in_fpga = stored-in_fpga;
    same_location = stored-location;
  }

pub after_get_val-Keeps : {h : Host} (inv : IsConsistent h) (a : ℕ) → Keeps h (after_get_val inv a)
after_get_val-Keeps {h} inv a = elim (Bool-cases (h.objs a).valid) [
  | inl e ↦ rw e (Keeps-refl inv)
  | inr e ↦ rw e (stored-Keeps inv (h.objs a).location)
]

-- On every consistent state, `get_val` of an object that is alive returns the number the object
-- stands for, and the state after it is consistent, with the same slot table, device and objects
-- alive, and no object's number, slot or residence changed.
pub get_val-Keeps :
    {h : Host} (a : ℕ)
    → IsConsistent h
    → h.live a ≡ true
    → (h' : Host) × (get_val a h ≡ some (value h a, h')) × Keeps h h'
get_val-Keeps a inv alive =
    (after_get_val inv a, get_val_lem inv a alive, after_get_val-Keeps inv a)
