-- ===== src/Runtime/Invariant/Number.antt =====
-- Changes of an object in place: `operator = (float const&)` and the unary `operator-` of
-- sw/Hardposit/src/hardposit.cpp, on an object of its own and on one that a slot stands for.
use hardposit_fpga.Base.{
  ℕ, ◌-◌, ◌*◌, ◌%◌, ◌^◌, ◌<◌, ◌≡◌, ◌≢◌, ◌↔◌, ◌⊎◌, refl, ap, ◌∙◌, inl, inr, true, false, some, has,
  put, ◌==◌, if◌then◌else◌, Bool-cases, arith,
}
use hardposit_fpga.Runtime.State.{Hardposit, Host}
use hardposit_fpga.Runtime.Slots.{get_val}
use hardposit_fpga.Runtime.Objects.{assign_number, flip_sign, negate, destroy}
use hardposit_fpga.Runtime.Invariant.{value, IsConsistent}
use hardposit_fpga.Runtime.Invariant.Keeps.{Keeps, after_get_val-Keeps}
use hardposit_fpga.Runtime.Invariant.Settle.{after_get_val, get_val_lem, store_loop-has}
use hardposit_fpga.Runtime.Invariant.Lifetime.{view, IsSound, Takes, Takes-IsConsistent, Takes-view}

-- Bit 31 alone changes, so the word does.
flip_sign-differs : (v : ℕ) → flip_sign v ≢ v
flip_sign-differs v e = absurd (ground arith)

module _ {h : Host} (inv : IsConsistent h) (a : ℕ) (alive : h.live a ≡ true) where
  module _ (outside : (h.objs a).in_fpga ≡ false) where
    unlisted : (s : ℕ) → has a (h.track s).crnt_posit ≡ false
    unlisted s = elim (Bool-cases (has a (h.track s).crnt_posit)) [
      | inl e ↦ let L = inv.slots s a e in absurd (ground (arith, L.resident))
      | inr e ↦ e
    ]

    -- Fields of its own, at an object that no slot lists.
    module _ (o : Hardposit) (own : o.in_fpga ≡ false) (valid : o.valid ≡ true) where
      retaken : Host
      retaken = record h { objs = put a o h.objs }

      retaken-IsSound : IsSound h o
      retaken-IsSound = record {
        pending = λ e. absurd (cc);
        ready = λ e. absurd (cc);
        settled = λ e. absurd (cc);
      }

      retaken-Takes : Takes h retaken a o
      unfolding retaken
      retaken-Takes = record {
        objs = λ x. refl;
        live = λ x. ground (arith, alive);
        lists = λ s x. ground (arith, unlisted s);
        ptrs = λ s. refl;
        dev = refl;
        pointer = refl;
        finish = refl;
        next-le = omega arith;
        below = (inv.objects a alive).below;
      }

      retaken_refines :
          IsConsistent retaken
          × ((x : ℕ) → view retaken x ≡ (if x == a then some o.val else view h x))
      retaken_refines = (
        Takes-IsConsistent inv retaken-IsSound retaken-Takes,
        λ x. Takes-view inv retaken-IsSound retaken-Takes x ∙ ground (arith, valid),
      )

    -- On every consistent state, assigning a number to an object that is alive and is not in the
    -- FPGA leaves a consistent state in which the object stands for that number and every other
    -- address for what it stood for.
    pub assign_number_refines :
        (bits : ℕ)
        → IsConsistent (assign_number a bits h)
          × ((x : ℕ) → view (assign_number a bits h) x ≡ (if x == a then some bits else view h x))
    unfolding assign_number retaken
    assign_number_refines bits =
        retaken_refines
          (record (h.objs a) { val = bits; in_fpga = false; valid = true; location = 0 }) refl refl

    -- On every consistent state, the unary minus of an object that is alive and not in the FPGA
    -- returns; the object itself then stands for its number with bit 31 changed, every other
    -- address for what it stood for, and the state is consistent.
    pub negate_refines :
        (h' : Host) × (negate a h ≡ some h')
        × IsConsistent h'
        × ((x : ℕ) → view h' x ≡ (if x == a then some (flip_sign (value h a)) else view h x))
    unfolding negate retaken
    negate_refines =
        let O = inv.objects a alive in
        let valid : (h.objs a).valid ≡ true = ground (arith, O.pending) in
        let r =
          retaken_refines (record (h.objs a) { val = flip_sign (h.objs a).val }) outside valid in
        let fetched : (if (h.objs a).valid then some ((h.objs a).val, h) else get_val a h)
            ≡ some ((h.objs a).val, h) =
          rw valid refl in
        (_, rw fetched refl, r.0, λ x. r.1 x ∙ ground (arith, valid))

  module _ (resident : (h.objs a).in_fpga ≡ true) where
    -- On every consistent state, assigning a number to an object that is alive and in the FPGA
    -- leaves a state that is not consistent, since the slot still lists the object; and
    -- destroying the object after it leaves the address of the dead object in the slot's list.
    pub assign_number-stale :
        (bits : ℕ)
        → (¬ IsConsistent (assign_number a bits h))
          × ((destroy a (assign_number a bits h)).live a ≡ false)
          × (has a ((destroy a (assign_number a bits h)).track (h.objs a).location).crnt_posit
              ≡ true)
    unfolding assign_number destroy
    assign_number-stale bits = (
      λ bad. let L = bad.slots (h.objs a).location a listed in absurd (ground (arith, L.resident)),
      ground arith,
      ground (arith, listed),
    )
      where
        listed : has a (h.track (h.objs a).location).crnt_posit ≡ true
        listed = (inv.objects a alive).listed resident

    abbrev g : Host
    g = after_get_val inv a

    k : Keeps h g
    k = after_get_val-Keeps inv a

    fetched :
        (if (h.objs a).valid then some ((h.objs a).val, h) else get_val a h) ≡ some (value h a, g)
    fetched = elim (Bool-cases (h.objs a).valid) [
      | inl e ↦ rw e refl
      | inr e ↦ rw e (get_val_lem inv a alive ∙ rw e refl)
    ]

    g_valid : (g.objs a).valid ≡ true
    g_valid = elim (Bool-cases (h.objs a).valid) [
      | inl e ↦ rw e e
      | inr e ↦ let L = (inv.objects a alive).listed resident in rw (e, store_loop-has, L) refl
    ]

    g_resident : (g.objs a).in_fpga ≡ true
    g_resident = k.same_in_fpga a ∙ resident

    g_val : (g.objs a).val ≡ value h a
    g_val = ground (arith, k.same_value a alive, g_valid)

    g_live : g.live a ≡ true
    g_live = ap (λ f. f a) k.same_live ∙ alive

    g_settled : (g.objs a).val ≡ g.dev.regs (g.objs a).location
    g_settled = (k.consistent.objects a g_live).settled g_resident g_valid

    abbrev flipped : Host
    flipped = record g {
      objs = put a (record (g.objs a) { val = flip_sign (g.objs a).val }) g.objs;
    }

    flipped-not-IsConsistent : ¬ IsConsistent flipped
    flipped-not-IsConsistent bad =
        let settled = (bad.objects a g_live).settled in
        flip_sign-differs (g.objs a).val (ground (arith, settled, g_resident, g_valid, g_settled))

    -- On every consistent state, the unary minus of an object that is alive and in the FPGA
    -- returns and changes bit 31 of the object's word, but the object stays in the FPGA under a
    -- device entry that holds the old number, and the state is not consistent.
    pub negate-stale :
        (h' : Host) × (negate a h ≡ some h')
        × ((h'.objs a).val ≡ flip_sign (value h a))
        × ((h'.objs a).in_fpga ≡ true)
        × (h'.dev.regs (h'.objs a).location ≡ value h a)
        × ¬ IsConsistent h'
    unfolding negate
    negate-stale = (
      flipped,
      rw fetched refl,
      ground (arith, g_val),
      ground (arith, g_resident),
      ground (arith, g_settled, g_val),
      flipped-not-IsConsistent,
    )

-- For a 32-bit word, changing bit 31 is the two's complement negation exactly for the words 2^30
-- and 3*2^30.
pub flip_sign_iff :
    (v : ℕ) → v < 2 ^ 32 → (flip_sign v ≡ (2 ^ 32 - v) % 2 ^ 32) ↔ ((v ≡ 2 ^ 30) ⊎ (v ≡ 3 * 2 ^ 30))
flip_sign_iff v lt = ground arith
