-- ===== src/Runtime/Program/Simulation.antt =====
-- One operation of the library against the plain store.
use hardposit_fpga.Base.{
  ℕ, suc, ◌≡◌, ◌≢◌, refl, ap, ◌∙◌, Bool, true, false, none, some, put, arith, ◌⊎◌, inl, inr,
  Bool-cases,
}
use hardposit_fpga.Accel.Request.{Inst, gt}
use hardposit_fpga.Accel.Device.{Alu}
use hardposit_fpga.Runtime.State.{Host}
use hardposit_fpga.Runtime.Slots.{get_val}
use hardposit_fpga.Runtime.Objects.{
  of_bits, construct, enlist, delist, copy_construct, destroy, assign,
}
use hardposit_fpga.Runtime.Compute.{Build, compute}
use hardposit_fpga.Runtime.Invariant.{value, IsConsistent}
use hardposit_fpga.Runtime.Invariant.Keeps.{Keeps, get_val-Keeps}
use hardposit_fpga.Runtime.Invariant.Lifetime.{view}
use hardposit_fpga.Runtime.Invariant.Lifetime.Refine.{
  construct_refines, copy_construct_refines, assign_refines, destroy_refines,
}
use hardposit_fpga.Runtime.Invariant.Issue.{IsFlagged, outcome}
use hardposit_fpga.Runtime.Invariant.Operands.{third}
use hardposit_fpga.Runtime.Invariant.Result.{compute_refines}
use hardposit_fpga.Runtime.Program.{Store, num, Lives}

-- The library's state stands for the store.
pub record Simulates (h : Host) (s : Store) : Type 0 where
  pub consistent : IsConsistent h
  pub same_next : h.next ≡ s.next
  pub same_nums : (x : ℕ) → view h x ≡ s.nums x

module _ {h : Host} {s : Store} (sim : Simulates h s) where
  alive : (a : ℕ) → Lives s a → h.live a ≡ true
  alive a (v, e) = ground (arith, sim.same_nums a)

  number : (a : ℕ) → Lives s a → value h a ≡ num s a
  number a (v, e) = ground (arith, sim.same_nums a)

construct-next : (v : ℕ) (h : Host) → (construct (of_bits v) h).1.next ≡ suc h.next
unfolding construct
construct-next v h = refl

construct-new : (v : ℕ) (h : Host) → (construct (of_bits v) h).0 ≡ h.next
unfolding construct
construct-new v h = refl

assign-next : (a c : ℕ) (h : Host) → (assign a c h).next ≡ h.next
unfolding assign enlist delist
assign-next a c h = ground arith

destroy-next : (a : ℕ) (h : Host) → (destroy a h).next ≡ h.next
unfolding destroy delist
destroy-next a h = ground arith

copy_construct-next :
    (a : ℕ) (h : Host)
    → ((copy_construct a h).1.next ≡ suc h.next) × ((copy_construct a h).0 ≡ h.next)
unfolding copy_construct construct enlist
copy_construct-next a h = ground arith

abbrev pub with_num : ℕ → ℕ → ℕ → Store → Store
with_num next addr v s = record { next = next; nums = put addr (some v) s.nums }

-- Stores that agree number by number serve alike.
pub Simulates-ext :
    {h : Host} (s s' : Store)
    → Simulates h s
    → s.next ≡ s'.next
    → ((x : ℕ) → s.nums x ≡ s'.nums x)
    → Simulates h s'
Simulates-ext s s' sim n e = record {
  consistent = sim.consistent;
  same_next = sim.same_next ∙ n;
  same_nums = λ x. sim.same_nums x ∙ e x;
}

-- The next address holds no number.
pub next-none : {h : Host} {s : Store} → Simulates h s → s.nums s.next ≡ none
next-none {h} {s} sim = elim (Bool-cases (h.live s.next)) [
  | inl e ↦ absurd (omega (arith, (sim.consistent.objects s.next e).below, sim.same_next))
  | inr e ↦ ground (arith, sim.same_nums s.next)
]

pub construct-Simulates :
    (v : ℕ) {h : Host} {s : Store}
    → Simulates h s
    → ((construct (of_bits v) h).0 ≡ s.next)
      × Simulates (construct (of_bits v) h).1 (with_num (suc s.next) s.next v s)
construct-Simulates v {h} sim =
    let r = construct_refines sim.consistent v in
    (
      construct-new v h ∙ sim.same_next,
      record {
        consistent = r.0;
        same_next = construct-next v h ∙ ap suc sim.same_next;
        same_nums = λ x. ground (arith, r.1 x, sim.same_nums x, sim.same_next);
      },
    )

pub copy_construct-Simulates :
    (a : ℕ) {h : Host} {s : Store}
    → Simulates h s
    → Lives s a
    → ((copy_construct a h).0 ≡ s.next)
      × Simulates (copy_construct a h).1 (with_num (suc s.next) s.next (num s a) s)
copy_construct-Simulates a {h} sim (v, e) =
    let r = copy_construct_refines sim.consistent a (alive sim a (v, e)) in
    let n = copy_construct-next a h in
    (
      n.1 ∙ sim.same_next,
      record {
        consistent = r.0;
        same_next = n.0 ∙ ap suc sim.same_next;
        same_nums = λ x. ground (arith, r.1 x, sim.same_nums x, sim.same_next, sim.same_nums a);
      },
    )

pub assign-Simulates :
    (a c : ℕ) {h : Host} {s : Store}
    → Simulates h s
    → Lives s a
    → Lives s c
    → Simulates (assign a c h) (with_num s.next a (num s c) s)
assign-Simulates a c {h} sim la (v, e) =
    let r = assign_refines sim.consistent a c (alive sim a la) (alive sim c (v, e)) in
    record {
      consistent = r.0;
      same_next = assign-next a c h ∙ sim.same_next;
      same_nums = λ x. ground (arith, r.1 x, sim.same_nums x, sim.same_nums c);
    }

pub destroy-Simulates :
    (a : ℕ) {h : Host} {s : Store}
    → Simulates h s
    → Lives s a
    → Simulates (destroy a h) (record s { nums = put a none s.nums })
destroy-Simulates a {h} sim la =
    let r = destroy_refines sim.consistent a (alive sim a la) in
    record {
      consistent = r.0;
      same_next = destroy-next a h ∙ sim.same_next;
      same_nums = λ x. ground (arith, r.1 x, sim.same_nums x);
    }

pub get_val-Simulates :
    (a : ℕ) {h : Host} {s : Store}
    → Simulates h s
    → Lives s a
    → (h' : Host) × (get_val a h ≡ some (num s a, h')) × Simulates h' s
get_val-Simulates a {h} {s} sim la =
    let (h', e, k) = get_val-Keeps a sim.consistent (alive sim a la) in
    (
      h',
      e ∙ ap (λ v. some (v, h')) (number sim a la),
      record {
        consistent = k.consistent;
        same_next = k.same_next ∙ sim.same_next;
        same_nums = λ x. seen h' k x (Bool-cases (h.live x)) ∙ sim.same_nums x;
      },
    )
  where
    seen :
        (h' : Host)
        → Keeps h h'
        → (x : ℕ) → (h.live x ≡ true) ⊎ (h.live x ≡ false)
        → view h' x ≡ view h x
    seen h' k x (inl e) = ground (arith, ap (λ f. f x) k.same_live, k.same_value x e)
    seen h' k x (inr e) = ground (arith, ap (λ f. f x) k.same_live)

module _ (u : Alu) (flagged : IsFlagged u) (b : Build) where
  pub compute-Simulates :
      (a c d : ℕ) (inst : Inst) (mode : Bool) {h : Host} {s : Store}
      → Simulates h s
      → inst ≢ gt
      → Lives s a
      → Lives s c
      → Lives s d
      → (h' : Host) × (compute u b a c d inst mode h ≡ some (s.next, h'))
        × Simulates h' (
            with_num
              (suc s.next)
              s.next
              (outcome u inst mode (num s a) (num s c) (third inst (num s d)))
              s)
  compute-Simulates a c d inst mode {h} {s} sim ne la lc ld =
      let r =
        compute_refines u flagged b inst ne mode a c d sim.consistent (alive sim a la)
          (alive sim c lc) (alive sim d ld) in
      (
        r.0,
        r.1 ∙ ap (λ n. some (n, r.0)) sim.same_next,
        record {
          consistent = r.2;
          same_next = r.3 ∙ ap suc sim.same_next;
          same_nums = λ x. ground (
            arith,
            r.4 x,
            sim.same_nums x,
            sim.same_next,
            number sim a la,
            number sim c lc,
            number sim d ld,
          );
        },
      )
