-- ===== src/Runtime/Invariant/Lifetime/Copy.antt =====
-- Constructors and assignment put the fields and the list entries where they belong.
use hardposit_fpga.Base.{
  ℕ, ◌<◌, ◌≤◌, ◌≡◌, refl, sym, ◌∙◌, inl, inr, true, false, ◌&&◌, [], ◌∷◌, has, has-remove,
  has-append, ◌==◌, if◌then◌else◌, Bool-cases, arith, subst, ◌||◌,
}
use hardposit_fpga.Runtime.State.{Hardposit, Host}
use hardposit_fpga.Runtime.Objects.{of_bits, construct, enlist, delist, copy_construct, assign}
use hardposit_fpga.Runtime.Invariant.{IsConsistent}
use hardposit_fpga.Runtime.Invariant.Lifetime.{Takes}

-- What enlisting leaves alone.
module _ (a : ℕ) (h : Host) where
  enlist-objs : (enlist a h).objs ≡ h.objs
  unfolding enlist
  enlist-objs = ground arith

  enlist-live : (enlist a h).live ≡ h.live
  unfolding enlist
  enlist-live = ground arith

  enlist-dev : (enlist a h).dev ≡ h.dev
  unfolding enlist
  enlist-dev = ground arith

  enlist-pointer : (enlist a h).req_q_pointer ≡ h.req_q_pointer
  unfolding enlist
  enlist-pointer = ground arith

  enlist-finish : (enlist a h).finish ≡ h.finish
  unfolding enlist
  enlist-finish = ground arith

  enlist-next : (enlist a h).next ≡ h.next
  unfolding enlist
  enlist-next = ground arith

  enlist-ptrs : (s : ℕ) → ((enlist a h).track s).ptr ≡ (h.track s).ptr
  unfolding enlist
  enlist-ptrs s = ground arith

pub enlist-lists :
    (a : ℕ) (h : Host) (s x : ℕ)
    → has x ((enlist a h).track s).crnt_posit ≡ (
        has x (h.track s).crnt_posit
        || ((h.objs a).in_fpga && (s == (h.objs a).location) && (x == a)))
unfolding enlist
enlist-lists a h s x = ground (
  arith,
  has-append x (h.track s).crnt_posit (a ∷ []),
  has-append x (h.track (h.objs a).location).crnt_posit (a ∷ []),
)

-- `g` is `h` with the fields `o` at `a`, and with `a` in no list.
record Unlisted (h g : Host) (a : ℕ) (o : Hardposit) : Type 0 where
  objs : (x : ℕ) → g.objs x ≡ (if x == a then o else h.objs x)
  live : (x : ℕ) → g.live x ≡ (if x == a then true else h.live x)
  lists :
      (s x : ℕ)
      → has x (g.track s).crnt_posit ≡ (if x == a then false else has x (h.track s).crnt_posit)
  ptrs : (s : ℕ) → (g.track s).ptr ≡ (h.track s).ptr
  dev : g.dev ≡ h.dev
  pointer : g.req_q_pointer ≡ h.req_q_pointer
  finish : g.finish ≡ h.finish
  next-le : h.next ≤ g.next
  below : a < g.next

enlist-Takes :
    {h : Host} (g : Host) (a : ℕ) {o : Hardposit} → Unlisted h g a o → Takes h (enlist a g) a o
enlist-Takes g a u = record {
  objs = λ x. ground (arith, enlist-objs a g, u.objs x);
  live = λ x. ground (arith, enlist-live a g, u.live x);
  lists = λ s x. ground (arith, enlist-lists a g s x, u.lists s x, u.objs a);
  ptrs = λ s. enlist-ptrs a g s ∙ u.ptrs s;
  dev = enlist-dev a g ∙ u.dev;
  pointer = enlist-pointer a g ∙ u.pointer;
  finish = enlist-finish a g ∙ u.finish;
  next-le = omega (arith, enlist-next a g, u.next-le);
  below = omega (arith, enlist-next a g, u.below);
}

module _ {h : Host} (inv : IsConsistent h) where
  not-listed_next : (s : ℕ) → has h.next (h.track s).crnt_posit ≡ false
  not-listed_next s = elim (Bool-cases (has h.next (h.track s).crnt_posit)) [
    | inl e ↦ absurd (omega (arith, (inv.objects h.next (inv.slots s h.next e).alive).below))
    | inr e ↦ e
  ]

  pub construct-Takes : (v : ℕ) → Takes h (construct (of_bits v) h).1 h.next (of_bits v)
  unfolding construct
  construct-Takes v = record {
    objs = λ x. refl;
    live = λ x. refl;
    lists = λ s x. ground (arith, not-listed_next s);
    ptrs = λ s. refl;
    dev = refl;
    pointer = refl;
    finish = refl;
    next-le = omega arith;
    below = omega arith;
  }

  pub copy_construct-Takes :
      (src : ℕ) → h.live src ≡ true → Takes h (copy_construct src h).1 h.next (h.objs src)
  unfolding copy_construct construct
  copy_construct-Takes src alive = enlist-Takes _ h.next (record {
    objs = λ x. refl;
    live = λ x. refl;
    lists = λ s x. ground (arith, not-listed_next s);
    ptrs = λ s. refl;
    dev = refl;
    pointer = refl;
    finish = refl;
    next-le = omega arith;
    below = omega arith;
  })

  -- An object is in the list of its slot and in no other.
  pub listed_iff :
      (a s : ℕ)
      → h.live a ≡ true
      → has a (h.track s).crnt_posit ≡ (h.objs a).in_fpga && (s == (h.objs a).location)
  listed_iff a s alive = elim (Bool-cases (has a (h.track s).crnt_posit)) [
    | inl e ↦ ground (arith, (inv.slots s a e).resident, (inv.slots s a e).at_slot)
    | inr e ↦ elim (Bool-cases ((h.objs a).in_fpga && (s == (h.objs a).location))) [
      | inl both ↦
          let at : s ≡ (h.objs a).location = ground arith in
          let here = (inv.objects a alive).listed (ground arith) in
          absurd (cc (subst (λ t. has a (h.track t).crnt_posit ≡ true) (sym at) here))
      | inr neither ↦ e ∙ sym neither
    ]
  ]

  pub assign-Takes :
      (a src : ℕ) → h.live a ≡ true → h.live src ≡ true → Takes h (assign a src h) a (h.objs src)
  unfolding assign delist
  assign-Takes a src alive alive' = elim (Bool-cases (h.objs a).in_fpga) [
    | inl e ↦ rw e (
        enlist-Takes _ a (record {
          objs = λ x. ground arith;
          live = λ x. ground arith;
          lists = λ s x. ground (
            arith,
            has-remove x a (h.track (h.objs a).location).crnt_posit,
            listed_iff a s alive,
            e,
          );
          ptrs = λ s. ground arith;
          dev = refl;
          pointer = refl;
          finish = refl;
          next-le = omega arith;
          below = (inv.objects a alive).below;
        }))
    | inr e ↦ rw e (
        enlist-Takes _ a (record {
          objs = λ x. refl;
          live = λ x. ground arith;
          lists = λ s x. ground (arith, listed_iff a s alive);
          ptrs = λ s. refl;
          dev = refl;
          pointer = refl;
          finish = refl;
          next-le = omega arith;
          below = (inv.objects a alive).below;
        }))
  ]
