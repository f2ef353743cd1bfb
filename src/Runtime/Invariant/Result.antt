-- ===== src/Runtime/Invariant/Result.antt =====
-- `compute` from end to end, in the three builds.
use hardposit_fpga.Base.{
  ℕ, suc, ◌%◌, ◌<◌, ◌≡◌, ◌≢◌, refl, ◌∙◌, Bool, true, false, ◌||◌, some, ◌==◌, if◌then◌else◌, arith,
  subst, ◌⊎◌, inl, inr, Bool-cases,
}
use hardposit_fpga.Accel.Request.{Inst, gt}
use hardposit_fpga.Accel.Device.{Alu}
use hardposit_fpga.Runtime.State.{Host}
use hardposit_fpga.Runtime.Objects.{of_bits, construct}
use hardposit_fpga.Runtime.Compute.{Build, Placed, tally_compute, compute, place, place_third}
use hardposit_fpga.Runtime.Invariant.{value, IsConsistent}
use hardposit_fpga.Runtime.Invariant.Keeps.{Keeps}
use hardposit_fpga.Runtime.Invariant.Lifetime.{view}
use hardposit_fpga.Runtime.Invariant.Lifetime.Refine.{construct_refines}
use hardposit_fpga.Runtime.Invariant.Placing.{Placement, retouch-Keeps}
use hardposit_fpga.Runtime.Invariant.Operands.{
  third, Ready, Placement-Ready, place-Placement, place_third-Placement,
}
use hardposit_fpga.Runtime.Invariant.Issue.{IsFlagged, outcome}
use hardposit_fpga.Runtime.Invariant.Sent.{Computed, finish-Computed, send}

tally_compute-Keeps : {h : Host} → IsConsistent h → Keeps h (tally_compute h)
unfolding tally_compute
tally_compute-Keeps {h} inv = retouch-Keeps h.req h.req_q_pointer _ inv inv.pointer

module _ (u : Alu) (flagged : IsFlagged u) (b : Build) (inst : Inst) (ne : inst ≢ gt) (mode : Bool)
    (this obj1 obj2 : ℕ) {h : Host} (inv : IsConsistent h) (l0 : h.live this ≡ true)
    (l1 : h.live obj1 ≡ true) (l2 : h.live obj2 ≡ true) where
  -- The number that `compute` is to return.
  abbrev pub result : ℕ
  result = outcome u inst mode (value h this) (value h obj1) (third inst (value h obj2))

  abbrev h0 : Host
  h0 = (construct (of_bits 0) (tally_compute h)).1

  abbrev slot0 : ℕ
  slot0 = h0.global_counter % 8

  small0 : slot0 < 8
  small0 = omega arith

  tallied : Keeps h (tally_compute h)
  tallied = tally_compute-Keeps inv

  new :
      IsConsistent h0
      × ((x : ℕ)
          → view h0 x ≡ (if x == (tally_compute h).next then some 0 else view (tally_compute h) x))
  new = construct_refines tallied.consistent 0

  next0 : (tally_compute h).next ≡ h.next
  next0 = tallied.same_next

  live0 : (x : ℕ) → h0.live x ≡ (if x == h.next then true else h.live x)
  unfolding construct tally_compute
  live0 x = refl

  -- An object that was there keeps its number beside the new one.
  value0 : (x : ℕ) → h.live x ≡ true → value h0 x ≡ value h x
  unfolding construct tally_compute
  value0 x e = ground (arith, (inv.objects x e).below)

  fresh0 : h0.live h.next ≡ true
  fresh0 = rw live0 (ground arith)

  outside0 : (h0.objs h.next).in_fpga ≡ false
  unfolding construct tally_compute
  outside0 = ground arith

  old0 : (x : ℕ) → h.live x ≡ true → h0.live x ≡ true
  old0 x e = rw live0 (ground arith)

  h0_next : h0.next ≡ suc h.next
  unfolding construct tally_compute
  h0_next = refl

  ret0 : (construct (of_bits 0) (tally_compute h)).0 ≡ h.next
  unfolding construct tally_compute
  ret0 = refl

  Outcome : Type 0
  Outcome =
      (h' : Host) × (compute u b this obj1 obj2 inst mode h ≡ some (h.next, h'))
      × Computed h0 h.next result h'

  -- The three placements, named, make the outcome.
  module _ (p0 p1 p2 : Placed) (e0 : place b slot0 this h0 ≡ some p0)
      (e1 : place b slot0 obj1 p0.host ≡ some p1)
      (e2 : place_third b inst slot0 obj2 p1.host ≡ some p2)
      (q0 : Placement slot0 h0 (value h0 this) p0)
      (q1 : Placement slot0 p0.host (value p0.host obj1) p1)
      (q2 : Placement slot0 p1.host (third inst (value p1.host obj2)) p2) where
    v1 : value p0.host obj1 ≡ value h obj1
    v1 = q0.kept.same_value obj1 (old0 obj1 l1) ∙ value0 obj1 l1

    v2 : value p1.host obj2 ≡ value h obj2
    v2 =
        q1.kept.same_value obj2 (rw q0.kept.same_live (old0 obj2 l2))
        ∙ q0.kept.same_value obj2 (old0 obj2 l2)
        ∙ value0 obj2 l2

    ready : Ready slot0 h0 (value h this) (value h obj1) (third inst (value h obj2)) p0 p1 p2
    ready =
        Placement-Ready (subst (λ v. Placement slot0 h0 v p0) (value0 this l0) q0)
          (subst (λ v. Placement slot0 p0.host v p1) v1 q1)
          (subst (λ v. Placement slot0 p1.host (third inst v) p2) v2 q2)

    assemble : Outcome
    unfolding compute Outcome
    assemble =
        let m = p0.through_memory || p1.through_memory || p2.through_memory in
        let s = send u flagged b m h.next slot0 small0 inst ne mode ready fresh0 outside0 in
        let f = finish-Computed b s.2 fresh0 in (f.0, rw (ret0, e0, e1, e2, s.1, f.1) refl, f.2)

  compute-Computed : Outcome
  compute-Computed =
      let q0 = place-Placement slot0 small0 new.0 this (old0 this l0) b in
      let k0 = q0.2.kept in
      let q1 = place-Placement slot0 small0 k0.consistent obj1 (rw k0.same_live (old0 obj1 l1)) b in
      let k1 = q1.2.kept in
      let alive2 : q1.0.host.live obj2 ≡ true = rw (k1.same_live, k0.same_live) (old0 obj2 l2) in
      let q2 = place_third-Placement slot0 small0 k1.consistent obj2 alive2 b inst in
      assemble q0.0 q1.0 q2.0 q0.1 q1.1 q2.1 q0.2 q1.2 q2.2

  -- For an arithmetic unit whose flags are never all zero, on every consistent state, in each of
  -- the three builds and for every instruction but GT: `compute` on three objects that are alive
  -- returns; the returned object takes the next address and stands for what the unit makes of the
  -- numbers of the operands (a zero for the third operand without FMA); every other object that
  -- is alive keeps its number; and the state is consistent again.
  pub compute_refines :
      (h' : Host) × (compute u b this obj1 obj2 inst mode h ≡ some (h.next, h'))
      × IsConsistent h'
      × (h'.next ≡ suc h.next)
      × ((x : ℕ) → view h' x ≡ (if x == h.next then some result else view h x))
  unfolding Outcome
  compute_refines =
      let (h', e, c) = compute-Computed in
      (h', e, c.consistent, c.next ∙ h0_next, λ x. seen h' c x (Bool-cases (h.live x)))
    where
      seen :
          (h' : Host)
          → Computed h0 h.next result h'
          → (x : ℕ) → (h.live x ≡ true) ⊎ (h.live x ≡ false)
          → view h' x ≡ (if x == h.next then some result else view h x)
      seen h' c x (inl e) = ground (arith, c.alive x, live0 x, c.numbers x, value0 x e, old0 x e)
      seen h' c x (inr e) = ground (arith, c.alive x, live0 x, c.numbers x)
