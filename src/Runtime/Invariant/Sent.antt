-- ===== src/Runtime/Invariant/Sent.antt =====
-- `compute` from three placed operands to the request that is sent.
use hardposit_fpga.Base.{
  ℕ, ◌<◌, ◌≡◌, ◌≢◌, refl, ap, ◌∙◌, Bool, true, false, some, ◌==◌, if◌then◌else◌, arith, [],
}
use hardposit_fpga.Accel.Request.{Inst, gt, Operands}
use hardposit_fpga.Accel.Device.{Alu}
use hardposit_fpga.Runtime.State.{Host}
use hardposit_fpga.Runtime.Compute.{
  Build, reuse, baseline, Placed, tally_efficient, retire, issue, finish_compute,
}
use hardposit_fpga.Runtime.Invariant.{value, IsConsistent}
use hardposit_fpga.Runtime.Invariant.Keeps.{Keeps, Keeps-trans, get_val-Keeps}
use hardposit_fpga.Runtime.Invariant.Placing.{retouch-Keeps}
use hardposit_fpga.Runtime.Invariant.Operands.{Ready}
use hardposit_fpga.Runtime.Invariant.Retire
use hardposit_fpga.Runtime.Invariant.Issue.{
  IsFlagged, outcome, issued, issue-issued, issued-IsConsistent, issued-value,
}

tally_efficient-stats :
    (b : Build) (m : Bool) (h : Host)
    → tally_efficient b m h ≡ record h { stats = (tally_efficient b m h).stats }
unfolding tally_efficient
tally_efficient-stats reuse false h = refl
tally_efficient-stats b m h = refl

tally_efficient-Keeps :
    (b : Build) (m : Bool) {h : Host} → IsConsistent h → Keeps h (tally_efficient b m h)
tally_efficient-Keeps b m {h} inv =
    rw (tally_efficient-stats b m h) (retouch-Keeps h.req h.req_q_pointer _ inv inv.pointer)

tally_efficient-req : (b : Build) (m : Bool) (h : Host) → (tally_efficient b m h).req ≡ h.req
tally_efficient-req b m h = ap (λ g. g.req) (tally_efficient-stats b m h)

-- A state after `compute`: the result at `ret`, all else as before.
pub record Computed (h : Host) (ret v : ℕ) (h' : Host) : Type 0 where
  pub consistent : IsConsistent h'
  pub alive : (x : ℕ) → h'.live x ≡ h.live x
  pub next : h'.next ≡ h.next
  pub numbers : (x : ℕ) → h.live x ≡ true → value h' x ≡ (if x == ret then v else value h x)

pub finish-Computed :
    (b : Build) {h h' : Host} {ret v : ℕ}
    → Computed h ret v h'
    → h.live ret ≡ true
    → (g : Host) × (finish_compute b ret h' ≡ some (ret, g)) × Computed h ret v g
unfolding finish_compute
finish-Computed baseline {h} {h'} {ret} c alive =
    let r = get_val-Keeps ret c.consistent (c.alive ret ∙ alive) in
    (
      r.0,
      rw r.1 refl,
      record {
        consistent = r.2.consistent;
        alive = λ x. ap (λ f. f x) r.2.same_live ∙ c.alive x;
        next = r.2.same_next ∙ c.next;
        numbers = λ x e. r.2.same_value x (c.alive x ∙ e) ∙ c.numbers x e;
      },
    )
finish-Computed b {h' = h'} c alive = (h', refl, c)

-- From three placed operands to the sent request.
module _ (u : Alu) (flagged : IsFlagged u) (b : Build) (m : Bool) (ret slot : ℕ) (small : slot < 8)
    (inst : Inst) (ne : inst ≢ gt) (mode : Bool) {h : Host} {v0 v1 v2 : ℕ} {p0 p1 p2 : Placed}
    (r : Ready slot h v0 v1 v2 p0 p1 p2) (fresh : h.live ret ≡ true)
    (outside : (h.objs ret).in_fpga ≡ false) where
  abbrev g : Host
  g = tally_efficient b m p2.host

  k : Keeps h g
  k = Keeps-trans r.kept (tally_efficient-Keeps b m r.kept.consistent)

  pub send :
      (h3 : Host) × (retire slot g ≡ some h3)
      × Computed h ret
          (outcome u inst mode v0 v1 v2)
          (issue u ret slot (record { op0 = p0.addr; op1 = p1.addr; op2 = p2.addr }) inst mode h3)
  send = (
    h3,
    Retire.retire-retired slot small k.consistent,
    record {
      consistent = rw sent (
          issued-IsConsistent u flagged ret slot small ops inst mode v0 v1 v2 inv3 empty free fresh3
            out3);
      alive = λ x. rw sent (ap (λ f. f x) k.same_live);
      next = rw sent k.same_next;
      numbers = λ x e. rw sent (
          ground (
            arith,
            issued-value u flagged ret slot small ops inst mode v0 v1 v2 inv3 empty free fresh3 out3
                x (live3 x ∙ e),
            Retire.retired-value slot small k.consistent x (live3 x ∙ e),
            k.same_value x e,
          ));
    },
  )
    where
      ops : Operands
      ops = record { op0 = p0.addr; op1 = p1.addr; op2 = p2.addr }

      h3 : Host
      h3 = Retire.retired slot small k.consistent

      inv3 : IsConsistent h3
      inv3 = Retire.retired-IsConsistent slot small k.consistent

      live3 : (x : ℕ) → h3.live x ≡ h.live x
      live3 x = ap (λ f. f x) k.same_live

      fresh3 : h3.live ret ≡ true
      fresh3 = live3 ret ∙ fresh

      out3 : (h3.objs ret).in_fpga ≡ false
      out3 = Retire.retired-outside slot small k.consistent ret (k.same_in_fpga ret ∙ outside)

      empty : (h3.track slot).crnt_posit ≡ []
      empty = Retire.retired-empty slot small k.consistent

      free : (x : ℕ) → h3.live x ≡ true → (h3.objs x).in_fpga ≡ true → (h3.objs x).location ≢ slot
      free = Retire.retired-free slot small k.consistent

      same_req : g.req ≡ p2.host.req
      same_req = tally_efficient-req b m p2.host

      same_dev : g.dev ≡ p2.host.dev
      same_dev = (tally_efficient-Keeps b m r.kept.consistent).same_dev

      sent :
          issue u ret slot ops inst mode h3
          ≡ issued u flagged ret slot small ops inst mode v0 v1 v2 inv3 empty free fresh3 out3
      sent =
          issue-issued u flagged ret slot small ops inst mode v0 v1 v2 inv3 empty free fresh3 out3
            r.fits ne (rw (same_dev, same_req) r.found0) (rw (same_dev, same_req) r.found1)
            (rw (same_dev, same_req) r.found2)
