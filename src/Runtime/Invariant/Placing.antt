-- ===== src/Runtime/Invariant/Placing.antt =====
-- Operands on their way to the device: what `place` gives can be fetched, and stays fetchable while
-- the operands behind it are placed.
use hardposit_fpga.Base.{
  ℕ, ◌+◌, ◌%◌, ◌^◌, ◌<◌, ◌≡◌, refl, sym, ap, ◌∙◌, inl, inr, true, false, not, ◌&&◌, some, ◌==◌, put,
  Bool-cases, arith,
}
use hardposit_fpga.Accel.Config.{Operand, byte_of, bump, calc_id}
use hardposit_fpga.Accel.Request.{memory_addr, reuse_addr}
use hardposit_fpga.Accel.Device.{fetch, accept}
use hardposit_fpga.Accel.Device.Fetch.{
  entry, fetch-memory_addr, fetch-reuse_addr, memory_addr-lt, reuse_addr-lt,
}
use hardposit_fpga.Runtime.State.{Stats, Host}
use hardposit_fpga.Runtime.Compute.{Placed, place_in_ring, place_reusing, tally_distance}
use hardposit_fpga.Runtime.Invariant.{value, IsConsistent}
use hardposit_fpga.Runtime.Invariant.Settle.{get_val_lem, after_get_val}
use hardposit_fpga.Runtime.Invariant.Keeps.{Keeps, Keeps-trans, after_get_val-Keeps}
use hardposit_fpga.Runtime.Invariant.Safe.{IsSafe, IsSafe-constant, ring-IsSafe, Moves}

pub record Placement (slot : ℕ) (h : Host) (v : ℕ) (p : Placed) : Type 0 where
  pub kept : Keeps h p.host
  pub moves : Moves h p.host
  pub fits : p.addr < 2 ^ 16
  pub safe : IsSafe 2 (accept slot h.dev) p.host.req p.host.req_q_pointer p.addr v

-- The ring, its pointer and the statistics carry no object's number.
abbrev pub retouch : Host → (ℕ → Operand) → ℕ → Stats → Host
retouch h r p st = record h { req = r; req_q_pointer = p; stats = st }

pub retouch-Keeps :
    {h : Host} (r : ℕ → Operand) (p : ℕ) (st : Stats)
    → IsConsistent h
    → p < 256
    → Keeps h (retouch h r p st)
retouch-Keeps {h} r p st inv lt = record {
  consistent = record {
    slots = λ s a e. ground (arith, inv.slots s a e);
    objects = λ a e. ground (arith, inv.objects a e);
    pointer = lt;
    running = inv.running;
  };
  same_dev = refl;
  same_live = refl;
  same_next = refl;
  same_track = refl;
  same_counter = refl;
  same_value = λ a e. refl;
  same_in_fpga = λ a. refl;
  same_location = λ a. refl;
}

after_get_val-ring :
    {h : Host} (inv : IsConsistent h) (a : ℕ)
    → ((after_get_val inv a).req ≡ h.req) × ((after_get_val inv a).req_q_pointer ≡ h.req_q_pointer)
after_get_val-ring inv a = ground arith

module _ (slot : ℕ) {h : Host} (inv : IsConsistent h) (a : ℕ) (alive : h.live a ≡ true) where
  abbrev ringed : Placed
  ringed =
      let g = after_get_val inv a in
      record {
        addr = memory_addr h.req_q_pointer;
        through_memory = true;
        host =
            retouch g (put (byte_of h.req_q_pointer) (entry h.req_q_pointer (value h a)) g.req)
              (bump h.req_q_pointer) g.stats;
      }

  place_in_ring-ringed : place_in_ring a h ≡ some ringed
  unfolding place_in_ring
  place_in_ring-ringed = rw (get_val_lem inv a alive, entry_byte) refl
    where
      entry_byte : (calc_id h.req_q_pointer + 2) % 2 ^ 8 ≡ calc_id h.req_q_pointer + 2
      entry_byte = omega arith

  place_in_ring-Placement :
      (p : Placed) × (place_in_ring a h ≡ some p) × Placement slot h (value h a) p
  place_in_ring-Placement = (
    ringed,
    place_in_ring-ringed,
    record {
      kept = Keeps-trans k (retouch-Keeps _ _ g.stats k.consistent (omega arith));
      moves = inr (entry h.req_q_pointer (value h a), ap (put _ _) ring.0, refl);
      fits = memory_addr-lt h.req_q_pointer;
      safe =
          ring-IsSafe _ _ h.req_q_pointer (value h a) inv.pointer
            (fetch-memory_addr _ _ h.req_q_pointer (value h a) inv.pointer (ground arith));
    },
  )
    where
      g : Host
      g = after_get_val inv a

      k : Keeps h g
      k = after_get_val-Keeps inv a

      ring : (g.req ≡ h.req) × (g.req_q_pointer ≡ h.req_q_pointer)
      ring = after_get_val-ring inv a

  -- An entry's register holds the number of each object that stands for it.
  value-regs : (h.objs a).in_fpga ≡ true → value h a ≡ h.dev.regs (h.objs a).location
  value-regs e = ground (arith, (inv.objects a alive).settled e)

  place_reusing-Placement :
      slot < 8 → (p : Placed) × (place_reusing slot a h ≡ some p) × Placement slot h (value h a) p
  unfolding place_reusing
  place_reusing-Placement lt =
      elim (Bool-cases ((h.objs a).in_fpga && not (slot % 8 == (h.objs a).location % 8))) [
        | inl e ↦
            let st = record (h.stats) { total_reuse = (h.stats.total_reuse + 1) % 2 ^ 64 } in
            (
              record {
                addr = reuse_addr (h.objs a).location;
                through_memory = false;
                host = record h { stats = st };
              },
              rw e refl,
              record {
                kept = retouch-Keeps h.req h.req_q_pointer st inv inv.pointer;
                moves = inl (refl, refl);
                fits = reuse_addr-lt (h.objs a).location;
                safe = IsSafe-constant 2 _ _ _ _ _ (reused e);
              },
            )
        | inr e ↦ let q = place_in_ring-Placement in (q.0, rw e q.1, q.2)
      ]
    where
      reused :
          ((h.objs a).in_fpga && not (slot % 8 == (h.objs a).location % 8)) ≡ true
          → (m : ℕ → Operand)
          → fetch (accept slot h.dev) m (reuse_addr (h.objs a).location) ≡ some (value h a)
      reused e m =
          let resident : (h.objs a).in_fpga ≡ true = ground arith in
          let L = inv.slots (h.objs a).location a ((inv.objects a alive).listed resident) in
          let kept : (accept slot h.dev).regs (h.objs a).location ≡ h.dev.regs (h.objs a).location =
            ground (arith, L.slot-lt) in
          fetch-reuse_addr (accept slot h.dev) m (h.objs a).location L.slot-lt
            (ground (arith, L.slot-lt, L.completed))
          ∙ ap some (kept ∙ sym (value-regs resident))

pub tally_distance-stats :
    (a : ℕ) (h : Host) → tally_distance a h ≡ record h { stats = (tally_distance a h).stats }
unfolding tally_distance
tally_distance-stats a h = ground arith

Placement-retouch :
    {slot : ℕ} {h : Host} {v : ℕ} {p : Placed} (st : Stats)
    → IsConsistent h
    → Placement slot (record h { stats = st }) v p
    → Placement slot h v p
Placement-retouch {h} st inv q = record {
  kept = Keeps-trans (retouch-Keeps h.req h.req_q_pointer st inv inv.pointer) q.kept;
  moves = q.moves;
  fits = q.fits;
  safe = q.safe;
}

module _ (slot : ℕ) (lt : slot < 8) {h : Host} (inv : IsConsistent h) (a : ℕ)
    (alive : h.live a ≡ true) where
  tallied : (st : Stats) → IsConsistent (record h { stats = st })
  tallied st = (retouch-Keeps h.req h.req_q_pointer st inv inv.pointer).consistent

  pub reuse-Placement :
      (g : Host) (st : Stats)
      → g ≡ record h { stats = st }
      → (p : Placed) × (place_reusing slot a g ≡ some p) × Placement slot h (value h a) p
  reuse-Placement g st e =
      let q = place_reusing-Placement slot (tallied st) a alive lt in
      (q.0, rw e q.1, Placement-retouch st inv q.2)

  pub ring-Placement :
      (g : Host) (st : Stats)
      → g ≡ record h { stats = st }
      → (p : Placed) × (place_in_ring a g ≡ some p) × Placement slot h (value h a) p
  ring-Placement g st e =
      let q = place_in_ring-Placement slot (tallied st) a alive in
      (q.0, rw e q.1, Placement-retouch st inv q.2)
