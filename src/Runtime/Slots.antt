-- ===== src/Runtime/Slots.antt =====
-- `Hardposit::get_val_at_slot` and `Hardposit::get_val`: results reach the objects on demand.
use hardposit_fpga.Base.{
  ℕ, Bool, true, Option, none, some, List, [], ◌∷◌, ◌==◌, if◌then◌else◌, put, ◌>>=◌,
}
use hardposit_fpga.Runtime.State.{Hardposit, Host}

-- One round of either loop over a slot's objects.
abbrev pub settled : Bool → ℕ → Hardposit → Hardposit
settled keep v o = record o { val = v; valid = true; in_fpga = keep }

-- The loop that copies the value of the first object, read again in each round.
unfoldable pub copy_loop : Bool → ℕ → List ℕ → (ℕ → Hardposit) → ℕ → Hardposit
copy_loop keep first [] objs = objs
copy_loop keep first (a ∷ rest) objs =
    copy_loop keep first rest (put a (settled keep (objs first).val (objs a)) objs)

-- The loop that stores the device's result.
unfoldable pub store_loop : Bool → ℕ → List ℕ → (ℕ → Hardposit) → ℕ → Hardposit
store_loop keep v [] objs = objs
store_loop keep v (a ∷ rest) objs = store_loop keep v rest (put a (settled keep v (objs a)) objs)

-- The wait for the flags is a loop without a bound: `none` if they are never set.
unfoldable pub read_result : Bool → List ℕ → Option ℕ → Host → Option Host
read_result keep posits none h = some h
read_result keep posits (some p) h =
    if (h.dev.res p).flags == 0
    then none
    else some (record h { objs = store_loop keep (h.dev.res p).result posits h.objs })

unfoldable pub settle_slot : Bool → List ℕ → Option ℕ → Host → Option Host
settle_slot keep [] ptr h = some h
settle_slot keep (first ∷ rest) ptr h =
    if (h.objs first).valid
    then some (record h { objs = copy_loop keep first (first ∷ rest) h.objs })
    else read_result keep (first ∷ rest) ptr h

-- `get_val_at_slot(pos, keep)`
unfoldable pub get_val_at_slot : ℕ → Bool → Host → Option Host
get_val_at_slot pos keep h = settle_slot keep (h.track pos).crnt_posit (h.track pos).ptr h

-- `get_val()`: the value and the state after it.
unfoldable pub get_val : ℕ → Host → Option (ℕ × Host)
get_val a h = if (h.objs a).valid then some ((h.objs a).val, h) else do
  h' ← get_val_at_slot (h.objs a).location (h.objs a).in_fpga h
  some ((h'.objs a).val, h')
