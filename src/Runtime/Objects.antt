-- ===== src/Runtime/Objects.antt =====
-- Construction, copy, assignment, negation and destruction of objects.
use hardposit_fpga.Base.{
  ℕ, suc, ◌+◌, ◌-◌, ◌/◌, ◌%◌, ◌^◌, ◌==◌, true, false, not, ◌&&◌, Option, some, [], ◌∷◌, ◌++◌,
  if◌then◌else◌, put, remove, ◌>>=◌,
}
use hardposit_fpga.Runtime.State.{Hardposit, Host, count_created, count_destroyed}
use hardposit_fpga.Runtime.Slots.{get_val}

-- The fields that `Hardposit(uint32_t)` and the default constructor set. The constructors from int,
-- float and double set the same ones, from the bits that SoftPosit's conversion returns.
abbrev pub of_bits : ℕ → Hardposit
of_bits v = record {
  val = v;
  valid = true;
  in_fpga = false;
  location = 0;
  was_computed = false;
  global_location = 0;
}

-- A new object at the next address.
unfoldable pub construct : Hardposit → Host → ℕ × Host
construct o h = (
  h.next,
  record h {
    objs = put h.next o h.objs;
    live = put h.next true h.live;
    next = suc h.next;
    counter = count_created h.counter;
  },
)

-- `result_track[location].crntPosit.push_back(this)` if the object is in the FPGA.
unfoldable pub enlist : ℕ → Host → Host
enlist a h =
    let s = (h.objs a).location in
    if (h.objs a).in_fpga
    then record h {
      track =
          put s (record (h.track s) { crnt_posit = (h.track s).crnt_posit ++ (a ∷ []) }) h.track;
    }
    else h

-- `result_track[location].crntPosit.remove(this)`
unfoldable pub delist : ℕ → Host → Host
delist a h =
    let s = (h.objs a).location in
    record h {
      track = put s (record (h.track s) { crnt_posit = remove a (h.track s).crnt_posit }) h.track;
    }

-- `Hardposit(const Hardposit&)`
unfoldable pub copy_construct : ℕ → Host → ℕ × Host
copy_construct src h = let (a, h') = construct (h.objs src) h in (a, enlist a h')

-- `~Hardposit()`
unfoldable pub destroy : ℕ → Host → Host
destroy a h =
    let h' = if not h.finish && (h.objs a).in_fpga then delist a h else h in
    record h' { live = put a false h'.live; counter = count_destroyed h'.counter }

-- `operator=(Hardposit const&)`
unfoldable pub assign : ℕ → ℕ → Host → Host
assign a src h =
    let h' = if (h.objs a).in_fpga then delist a h else h in
    enlist a (record h' { objs = put a (h'.objs src) h'.objs })

-- `operator=(float const&)`, given the bits of the converted number. The slot table is left alone.
unfoldable pub assign_number : ℕ → ℕ → Host → Host
assign_number a bits h = record h {
  objs =
      put a (record (h.objs a) { val = bits; in_fpga = false; valid = true; location = 0 }) h.objs;
}

-- `v ^= (1<<31)` on a uint32_t: bit 31 alone changes.
abbrev pub flip_sign : ℕ → ℕ
flip_sign v = if v / 2 ^ 31 % 2 == 1 then v - 2 ^ 31 else v + 2 ^ 31

-- The unary `operator-`, which changes the object in place.
unfoldable pub negate : ℕ → Host → Option Host
negate a h = do
  (_, h') ← if (h.objs a).valid then some ((h.objs a).val, h) else get_val a h
  some (record h' { objs = put a (record (h'.objs a) { val = flip_sign (h'.objs a).val }) h'.objs })
