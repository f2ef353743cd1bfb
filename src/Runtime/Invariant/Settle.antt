-- ===== src/Runtime/Invariant/Settle.antt =====
-- Fetching a value: the two loops, `get_val_at_slot` and `get_val` on a consistent state.
use hardposit_fpga.Base.{
  ℕ, ◌≡◌, ◌≢◌, refl, ap, ◌∙◌, inl, inr, Bool, true, false, some, List, [], ◌∷◌, ◌==◌, if◌then◌else◌,
  put, has, Bool-cases, arith,
}
use hardposit_fpga.Runtime.State.{Hardposit, Host}
use hardposit_fpga.Runtime.Slots.{
  settled, copy_loop, store_loop, read_result, settle_slot, get_val_at_slot, get_val,
}
use hardposit_fpga.Runtime.Invariant.{value, Listed, Alive, IsConsistent}

-- Where all rounds read the same value, copying is storing.
copy_loop-eq-store_loop :
    (keep : Bool) (first v : ℕ) (posits : List ℕ) (objs : ℕ → Hardposit)
    → (objs first).val ≡ v
    → copy_loop keep first posits objs ≡ store_loop keep v posits objs
unfolding copy_loop store_loop
copy_loop-eq-store_loop keep first v [] objs e = refl
copy_loop-eq-store_loop keep first v (a ∷ posits) objs e = rw e (
    copy_loop-eq-store_loop keep first v posits (put a (settled keep v (objs a)) objs)
      (ground arith))

-- Storing changes exactly the objects of the list.
pub store_loop-has :
    (keep : Bool) (v : ℕ) (posits : List ℕ) (objs : ℕ → Hardposit) (x : ℕ)
    → store_loop keep v posits objs x ≡ (if has x posits then settled keep v (objs x) else objs x)
unfolding store_loop
store_loop-has keep v [] objs x = refl
store_loop-has keep v (a ∷ posits) objs x =
    ground (arith, store_loop-has keep v posits (put a (settled keep v (objs a)) objs) x)

-- A result line whose flags are set ends the wait.
read_result_lem :
    (h : Host) (keep : Bool) (posits : List ℕ) (p v : ℕ)
    → (h.dev.res p).flags ≢ 0
    → (h.dev.res p).result ≡ v
    → read_result keep posits (some p) h
      ≡ some (record h { objs = store_loop keep v posits h.objs })
unfolding read_result
read_result_lem h keep posits p v ready e = rw (set, e) refl
  where
    set : ((h.dev.res p).flags == 0) ≡ false
    set = ground arith

settle_slot_lem :
    (h : Host) (s : ℕ) (keep : Bool) (posits : List ℕ)
    → ((a : ℕ) → has a posits ≡ true → Listed h s a)
    → ((a : ℕ) → h.live a ≡ true → Alive h a)
    → settle_slot keep posits (h.track s).ptr h
      ≡ some (record h { objs = store_loop keep (h.dev.regs s) posits h.objs })
unfolding settle_slot store_loop read_result
settle_slot_lem h s keep [] l o = refl
settle_slot_lem h s keep (a ∷ posits) l o = elim (Bool-cases (h.objs a).valid) [
  | inl e ↦
      let same =
        copy_loop-eq-store_loop keep a (h.dev.regs s) (a ∷ posits) h.objs
          (A.settled L.resident e ∙ ap h.dev.regs L.at_slot) in
      rw (e, same) refl
  | inr e ↦ rw (e, L.line) (read_result_lem h keep (a ∷ posits) _ _ L.ready L.result)
]
  where
    L : Listed h s a
    L = l a (ground arith)

    A : Alive h a
    A = o a L.alive

module _ {h : Host} (inv : IsConsistent h) where
  -- The slot's number reaches every object of the slot's list, and nothing else changes.
  pub get_val_at_slot_lem :
      (s : ℕ) (keep : Bool)
      → get_val_at_slot s keep h
        ≡ some (record h { objs = store_loop keep (h.dev.regs s) (h.track s).crnt_posit h.objs })
  unfolding get_val_at_slot
  get_val_at_slot_lem s keep =
      settle_slot_lem h s keep (h.track s).crnt_posit (inv.slots s) inv.objects

  -- The state after `get_val(a)`.
  abbrev pub after_get_val : ℕ → Host
  after_get_val a =
      let s = (h.objs a).location in
      if (h.objs a).valid
      then h
      else record h { objs = store_loop true (h.dev.regs s) (h.track s).crnt_posit h.objs }

  -- The wait ends, and returns the number that the object stands for.
  pub get_val_lem : (a : ℕ) → h.live a ≡ true → get_val a h ≡ some (value h a, after_get_val a)
  unfolding get_val
  get_val_lem a alive = elim (Bool-cases (h.objs a).valid) [
    | inl e ↦ rw e refl
    | inr e ↦
        let A = inv.objects a alive in
        let s = (h.objs a).location in
        let stored = store_loop-has true (h.dev.regs s) (h.track s).crnt_posit h.objs a in
        rw (e, A.pending e, get_val_at_slot_lem s true, stored, A.listed (A.pending e)) refl
  ]
