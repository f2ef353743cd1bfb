-- ===== src/Runtime/Invariant/Retire.antt =====
-- Before a slot is taken again, its objects get their number and leave it.
use hardposit_fpga.Base.{
  ℕ, ◌+◌, ◌-◌, ◌%◌, ◌<◌, ◌≡◌, ◌≢◌, refl, ap, inl, inr, true, false, none, some, [], has, ◌==◌, put,
  Bool-cases, arith, subst,
}
use hardposit_fpga.Runtime.State.{Host}
use hardposit_fpga.Runtime.Slots.{store_loop}
use hardposit_fpga.Runtime.Compute.{retire}
use hardposit_fpga.Runtime.Invariant.{value, Listed, Alive, IsConsistent}
use hardposit_fpga.Runtime.Invariant.Settle.{store_loop-has, get_val_at_slot_lem}

module _ (slot : ℕ) (small : slot < 8) {h : Host} (inv : IsConsistent h) where
  abbrev pub retired : Host
  retired = record h {
    objs = store_loop false (h.dev.regs slot) (h.track slot).crnt_posit h.objs;
    track = put slot (record { ptr = none; crnt_posit = [] }) h.track;
  }

  pub retire-retired : retire slot h ≡ some retired
  unfolding retire
  retire-retired = rw (same, get_val_at_slot_lem inv slot false) refl
    where
      same : (slot + 8 - 8) % 8 ≡ slot
      same = omega arith

  -- Where the objects of the slot go: they have their number and are out of the FPGA.
  retired-here :
      (a : ℕ)
      → has a (h.track slot).crnt_posit ≡ true
      → ((retired.objs a).valid ≡ true)
        × ((retired.objs a).in_fpga ≡ false)
        × ((retired.objs a).val ≡ h.dev.regs slot)
  retired-here a e = rw (store_loop-has, e) (refl, refl, refl)

  retired-elsewhere : (a : ℕ) → has a (h.track slot).crnt_posit ≡ false → retired.objs a ≡ h.objs a
  retired-elsewhere a e = rw (store_loop-has, e) refl

  pub retired-value : (a : ℕ) → h.live a ≡ true → value retired a ≡ value h a
  retired-value a alive = elim (Bool-cases (has a (h.track slot).crnt_posit)) [
    | inl e ↦
        let L = inv.slots slot a e in
        let O = inv.objects a alive in
        ground (arith, retired-here a e, ap h.dev.regs L.at_slot, O.settled L.resident)
    | inr e ↦ rw (retired-elsewhere a e) refl
  ]

  -- No object that is still in the FPGA stands for the slot.
  pub retired-free :
      (a : ℕ) → h.live a ≡ true → (retired.objs a).in_fpga ≡ true → (retired.objs a).location ≢ slot
  retired-free a alive e p = elim (Bool-cases (has a (h.track slot).crnt_posit)) [
    | inl here ↦ absurd (ground (arith, retired-here a here))
    | inr away ↦
        let same = retired-elsewhere a away in
        let resident : (h.objs a).in_fpga ≡ true = rw same at e in
        let place : (h.objs a).location ≡ slot = rw same at p in
        let listed = (inv.objects a alive).listed resident in
        cc (subst (λ t. has a (h.track t).crnt_posit ≡ true) place listed)
  ]

  retired-slots : (s a : ℕ) → has a (retired.track s).crnt_posit ≡ true → Listed retired s a
  retired-slots s a e = elim (Bool-cases (has a (h.track slot).crnt_posit)) [
    | inl here ↦ absurd (ground (arith, (inv.slots slot a here).at_slot, L.at_slot))
    | inr away ↦ ground (arith, L, retired-elsewhere a away)
  ]
    where
      other : (s == slot) ≡ false
      other = ground arith

      L : Listed h s a
      L = inv.slots s a (ground arith)

  retired-objects : (a : ℕ) → h.live a ≡ true → Alive retired a
  retired-objects a alive = elim (Bool-cases (has a (h.track slot).crnt_posit)) [
    | inl here ↦ ground (arith, retired-here a here, O.below)
    | inr away ↦
        let same = retired-elsewhere a away in
        record {
          below = O.below;
          pending = rw same O.pending;
          listed = λ e. kept same e (retired-free a alive e);
          settled = rw same O.settled;
        }
  ]
    where
      O : Alive h a
      O = inv.objects a alive

      kept :
          retired.objs a ≡ h.objs a
          → (retired.objs a).in_fpga ≡ true
          → (retired.objs a).location ≢ slot
          → has a (retired.track (retired.objs a).location).crnt_posit ≡ true
      kept same e ne =
          rw same (ground (arith, O.listed, ap (λ o. o.location) same, ap (λ o. o.in_fpga) same))

  pub retired-IsConsistent : IsConsistent retired
  retired-IsConsistent = record {
    slots = retired-slots;
    objects = retired-objects;
    pointer = inv.pointer;
    running = inv.running;
  }

  pub retired-outside : (a : ℕ) → (h.objs a).in_fpga ≡ false → (retired.objs a).in_fpga ≡ false
  retired-outside a e = rw store_loop-has (ground arith)

  pub retired-empty : (retired.track slot).crnt_posit ≡ []
  retired-empty = ground arith
