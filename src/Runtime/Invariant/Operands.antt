-- ===== src/Runtime/Invariant/Operands.antt =====
-- The three operands of a request in the three builds.
use hardposit_fpga.Base.{ℕ, ◌<◌, ◌≡◌, refl, ap, inl, true, false, some, arith}
use hardposit_fpga.Accel.Request.{Inst, fma}
use hardposit_fpga.Accel.Request.Fields.{FitsWord}
use hardposit_fpga.Accel.Device.{Device, fetch, accept}
use hardposit_fpga.Accel.Device.Fetch.{fetch-zero}
use hardposit_fpga.Runtime.State.{Host}
use hardposit_fpga.Runtime.Compute.{
  Build, reuse, noreuse, baseline, Placed, place, place_third, tally_distance, tally_memory,
}
use hardposit_fpga.Runtime.Invariant.{value, IsConsistent}
use hardposit_fpga.Runtime.Invariant.Keeps.{Keeps, Keeps-refl, Keeps-trans}
use hardposit_fpga.Runtime.Invariant.Safe.{IsSafe-constant, IsSafe-Moves, IsSafe-fetch}
use hardposit_fpga.Runtime.Invariant.Placing.{
  Placement, tally_distance-stats, reuse-Placement, ring-Placement,
}

-- The third operand: without a multiply-add the device is sent a zero.
abbrev pub third : Inst → ℕ → ℕ
third fma v = v
third _ v = 0

module _ (slot : ℕ) (small : slot < 8) {h : Host} (inv : IsConsistent h) (a : ℕ)
    (alive : h.live a ≡ true) where
  pub place-Placement :
      (b : Build) → (p : Placed) × (place b slot a h ≡ some p) × Placement slot h (value h a) p
  unfolding place tally_memory
  place-Placement reuse =
      reuse-Placement slot small inv a alive (tally_distance a (tally_memory h)) _
        (tally_distance-stats a (tally_memory h))
  place-Placement noreuse = ring-Placement slot small inv a alive h h.stats refl
  place-Placement baseline = ring-Placement slot small inv a alive h h.stats refl

  none-Placement : Placement slot h 0 (record { addr = 0; through_memory = false; host = h })
  none-Placement = record {
    kept = Keeps-refl inv;
    moves = inl (refl, refl);
    fits = omega arith;
    safe = IsSafe-constant 2 _ _ _ _ _ (fetch-zero (accept slot h.dev));
  }

  pub place_third-Placement :
      (b : Build) (i : Inst)
      → (p : Placed) × (place_third b i slot a h ≡ some p)
        × Placement slot h (third i (value h a)) p
  unfolding place_third tally_memory
  place_third-Placement reuse fma =
      reuse-Placement slot small inv a alive (tally_memory (tally_distance a h)) _
        (ap tally_memory (tally_distance-stats a h))
  place_third-Placement noreuse fma =
      ring-Placement slot small inv a alive (tally_distance a h) _ (tally_distance-stats a h)
  place_third-Placement baseline fma =
      ring-Placement slot small inv a alive (tally_distance a h) _ (tally_distance-stats a h)
  place_third-Placement b i = (_, refl, none-Placement)

-- What holds once all three operands are placed.
pub record Ready (slot : ℕ) (h : Host) (v0 v1 v2 : ℕ) (p0 p1 p2 : Placed) : Type 0 where
  pub kept : Keeps h p2.host
  pub fits : FitsWord (record { op0 = p0.addr; op1 = p1.addr; op2 = p2.addr })
  pub found0 : fetch (accept slot p2.host.dev) p2.host.req p0.addr ≡ some v0
  pub found1 : fetch (accept slot p2.host.dev) p2.host.req p1.addr ≡ some v1
  pub found2 : fetch (accept slot p2.host.dev) p2.host.req p2.addr ≡ some v2

-- Three placements one after the other: each operand outlives the writes for those behind it.
pub Placement-Ready :
    {slot : ℕ} {h : Host} {v0 v1 v2 : ℕ} {p0 p1 p2 : Placed}
    → Placement slot h v0 p0
    → Placement slot p0.host v1 p1
    → Placement slot p1.host v2 p2
    → Ready slot h v0 v1 v2 p0 p1 p2
Placement-Ready {slot} {h} {v0} {v1} {v2} {p0} {p1} {p2} q0 q1 q2 = record {
  kept = Keeps-trans q0.kept (Keeps-trans q1.kept q2.kept);
  fits = record { op0 = q0.fits; op1 = q1.fits; op2 = q2.fits };
  found0 =
      rw (dev2, q1.kept.same_dev, q0.kept.same_dev)
        (IsSafe-Moves 0 d p1.host p2.host p0.addr v0 q2.moves
          (IsSafe-Moves 1 d p0.host p1.host p0.addr v0 q1.moves q0.safe));
  found1 =
      rw (dev2, q1.kept.same_dev)
        (IsSafe-fetch 1 _ _ p2.host.req_q_pointer p1.addr v1
          (IsSafe-Moves 1 _ p1.host p2.host p1.addr v1 q2.moves q1.safe));
  found2 = rw dev2 (IsSafe-fetch 2 _ _ p2.host.req_q_pointer p2.addr v2 q2.safe);
}
  where
    d : Device
    d = accept slot h.dev

    dev2 : p2.host.dev ≡ p1.host.dev
    dev2 = q2.kept.same_dev
