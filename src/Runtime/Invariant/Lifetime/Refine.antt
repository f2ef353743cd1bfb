-- ===== src/Runtime/Invariant/Lifetime/Refine.antt =====
-- What construction, copy, assignment and destruction mean for the numbers of the objects.
use hardposit_fpga.Base.{
  ℕ, ◌≡◌, true, false, none, some, has, has-remove, ◌==◌, if◌then◌else◌, arith,
}
use hardposit_fpga.Runtime.State.{Host}
use hardposit_fpga.Runtime.Objects.{of_bits, construct, delist, copy_construct, destroy, assign}
use hardposit_fpga.Runtime.Invariant.{Listed, Alive, IsConsistent}
use hardposit_fpga.Runtime.Invariant.Lifetime.{
  view, of_bits-IsSound, Alive-IsSound, Takes-IsConsistent, Takes-view,
}
use hardposit_fpga.Runtime.Invariant.Lifetime.Copy.{
  construct-Takes, copy_construct-Takes, listed_iff, assign-Takes,
}

module _ {h : Host} (inv : IsConsistent h) where
  -- A new object stands for its bits; nothing else changes.
  pub construct_refines :
      (v : ℕ)
      → IsConsistent (construct (of_bits v) h).1
        × ((x : ℕ)
            → view (construct (of_bits v) h).1 x ≡ (if x == h.next then some v else view h x))
  construct_refines v =
      let t = construct-Takes inv v in
      let sound = of_bits-IsSound h v in (Takes-IsConsistent inv sound t, Takes-view inv sound t)

  -- On every consistent state, a copy of an object that is alive, pending or not, stands for the
  -- same number at the next address; every other address keeps what it stood for, and the state
  -- is consistent.
  pub copy_construct_refines :
      (src : ℕ)
      → h.live src ≡ true
      → IsConsistent (copy_construct src h).1
        × ((x : ℕ)
            → view (copy_construct src h).1 x ≡ (if x == h.next then view h src else view h x))
  copy_construct_refines src alive =
      let t = copy_construct-Takes inv src alive in
      let sound = Alive-IsSound src inv alive in
      (Takes-IsConsistent inv sound t, λ x. ground (arith, Takes-view inv sound t x))

  -- On every consistent state, `a = b` between two objects that are alive (they may be the same
  -- one, and either may be pending) leaves a consistent state in which `a` stands for the number
  -- `b` stood for and every other address for what it stood for.
  pub assign_refines :
      (a src : ℕ)
      → h.live a ≡ true
      → h.live src ≡ true
      → IsConsistent (assign a src h)
        × ((x : ℕ) → view (assign a src h) x ≡ (if x == a then view h src else view h x))
  assign_refines a src alive alive' =
      let t = assign-Takes inv a src alive alive' in
      let sound = Alive-IsSound src inv alive' in
      (Takes-IsConsistent inv sound t, λ x. ground (arith, Takes-view inv sound t x))

  module _ (a : ℕ) (alive : h.live a ≡ true) where
    destroy-lists :
        (s x : ℕ)
        → has x ((destroy a h).track s).crnt_posit
          ≡ (if x == a then false else has x (h.track s).crnt_posit)
    unfolding destroy delist
    destroy-lists s x = ground (
      arith,
      inv.running,
      has-remove x a (h.track (h.objs a).location).crnt_posit,
      listed_iff inv a s alive,
    )

    destroy-slots :
        (s x : ℕ) → has x ((destroy a h).track s).crnt_posit ≡ true → Listed (destroy a h) s x
    unfolding destroy delist
    destroy-slots s x e =
        let L = inv.slots s x (ground (arith, destroy-lists s x)) in
        ground (arith, L, destroy-lists s x, inv.running)

    destroy-objects : (x : ℕ) → (destroy a h).live x ≡ true → Alive (destroy a h) x
    unfolding destroy delist
    destroy-objects x e =
        let O = inv.objects x (ground (arith, inv.running)) in
        ground (arith, O, destroy-lists (h.objs x).location x, inv.running)

    -- On every consistent state, destroying an object that is alive leaves a consistent state in
    -- which its address stands for nothing and every other address for what it stood for.
    pub destroy_refines :
        IsConsistent (destroy a h)
        × ((x : ℕ) → view (destroy a h) x ≡ (if x == a then none else view h x))
    unfolding destroy delist
    destroy_refines = (
      record {
        slots = destroy-slots;
        objects = destroy-objects;
        pointer = ground (arith, inv.pointer);
        running = ground (arith, inv.running);
      },
      λ x. ground (arith, inv.running),
    )
