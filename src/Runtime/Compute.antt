-- ===== src/Runtime/Compute.antt =====
-- `Hardposit::compute` in its three builds, and the operators on top of it.
use hardposit_fpga.Base.{
  ℕ, ◌+◌, ◌-◌, ◌*◌, ◌%◌, ◌^◌, Bool, true, false, not, ◌&&◌, ◌||◌, Option, none, some, List, [], ◌∷◌,
  ◌++◌, leb, ◌==◌, if◌then◌else◌, get_or, set, put, ◌>>=◌,
}
use hardposit_fpga.Accel.Config.{
  num_fpga_entries, simulated_entries, write_granularity, calc_id, byte_of, bump,
}
use hardposit_fpga.Accel.Request.{Inst, fma, memory_addr, reuse_addr, Operands, write_req}
use hardposit_fpga.Accel.Device.{Alu, Device, submit}
use hardposit_fpga.Runtime.State.{Hardposit, Host}
use hardposit_fpga.Runtime.Slots.{get_val_at_slot, get_val}
use hardposit_fpga.Runtime.Objects.{of_bits, construct}

-- The macro that the library is compiled with.
pub data Build : Type 0 where
  reuse noreuse baseline : Build

-- `global_counter - global_location`, uint64_t.
abbrev pub distance : ℕ → ℕ → ℕ
distance counter location = (counter + 2 ^ 64 - location) % 2 ^ 64

-- `distances[i]++`
abbrev pub count_at : ℕ → List ℕ → List ℕ
count_at i ds = set ds i ((get_or ds i 0 + 1) % 2 ^ 64)

unfoldable pub note_distance : ℕ → List ℕ → List ℕ
note_distance d ds =
    if leb 20 d then count_at 19 ds else if leb 1 d then count_at (d - 1) ds else ds

-- The distance of an operand that was computed.
unfoldable pub tally_distance : ℕ → Host → Host
tally_distance a h =
    if (h.objs a).was_computed
    then record h {
      stats = record (h.stats) {
        distances =
            note_distance (distance h.global_counter (h.objs a).global_location) h.stats.distances;
      };
    }
    else h

-- `total_call_memory++`
unfoldable pub tally_memory : Host → Host
tally_memory h = record h {
  stats = record (h.stats) { total_call_memory = (h.stats.total_call_memory + 1) % 2 ^ 64 };
}

-- The address given to an operand, whether it went through the request ring, and the new state.
pub record Placed : Type 0 where
  pub addr : ℕ
  pub through_memory : Bool
  pub host : Host

-- The operand is written to the request ring; its value is fetched first if need be.
unfoldable pub place_in_ring : ℕ → Host → Option Placed
place_in_ring a h = do
  (v, h') ← get_val a h
  some (record {
    addr = memory_addr h.req_q_pointer;
    through_memory = true;
    host = record h' {
      req =
          put (byte_of h.req_q_pointer)
            (record { val = v; valid_w_id = (calc_id h.req_q_pointer + 2) % 2 ^ 8 }) h'.req;
      req_q_pointer = bump h.req_q_pointer;
    };
  })

-- With reuse, a result that is still in the FPGA is named by its slot, unless the slot is the one
-- that the new result takes.
unfoldable pub place_reusing : ℕ → ℕ → Host → Option Placed
place_reusing slot a h =
    if (h.objs a).in_fpga && not (slot % 8 == (h.objs a).location % 8)
    then some (record {
      addr = reuse_addr (h.objs a).location;
      through_memory = false;
      host = record h {
        stats = record (h.stats) { total_reuse = (h.stats.total_reuse + 1) % 2 ^ 64 };
      };
    })
    else place_in_ring a h

-- The first two operands.
unfoldable pub place : Build → ℕ → ℕ → Host → Option Placed
place reuse slot a h = place_reusing slot a (tally_distance a (tally_memory h))
place noreuse slot a h = place_in_ring a h
place baseline slot a h = place_in_ring a h

-- The third operand, which only a fused multiply-add has; its distance is noted in every build.
unfoldable pub place_third : Build → Inst → ℕ → ℕ → Host → Option Placed
place_third reuse fma slot a h = place_reusing slot a (tally_memory (tally_distance a h))
place_third noreuse fma slot a h = place_in_ring a (tally_distance a h)
place_third baseline fma slot a h = place_in_ring a (tally_distance a h)
place_third _ _ slot a h = some (record { addr = 0; through_memory = false; host = h })

-- `if (flag == 0) total_effcient_compute++`, in the build with reuse.
unfoldable pub tally_efficient : Build → Bool → Host → Host
tally_efficient reuse false h = record h {
  stats = record (h.stats) {
    total_effcient_compute = (h.stats.total_effcient_compute + 1) % 2 ^ 64;
  };
}
tally_efficient _ _ h = h

-- The slot that the new result takes gives its value to the objects that still stand for it.
unfoldable pub retire : ℕ → Host → Option Host
retire slot h = do
  h' ← get_val_at_slot ((slot + 8 - simulated_entries) % 8) false h
  some (record h' { track = put slot (record { ptr = none; crnt_posit = [] }) h'.track })

-- The fields of the returned object.
abbrev pub pending : ℕ → ℕ → Hardposit → Hardposit
pending slot counter o = record o {
  valid = false;
  location = slot;
  in_fpga = true;
  was_computed = true;
  global_location = counter;
}

-- `memset` of the flags of a result line.
abbrev pub clear_flags : ℕ → Device → Device
clear_flags p d = record d { res = put p (record (d.res p) { flags = 0 }) d.res }

-- The returned object takes the slot, the flags are cleared, and the request is sent.
unfoldable pub issue : Alu → ℕ → ℕ → Operands → Inst → Bool → Host → Host
issue u ret slot ops inst mode h = record h {
  objs = put ret (pending slot h.global_counter (h.objs ret)) h.objs;
  track =
      put slot
        (record {
          ptr = some (slot * write_granularity);
          crnt_posit = (h.track slot).crnt_posit ++ (ret ∷ []);
        })
        h.track;
  global_counter = (h.global_counter + 1) % 2 ^ 64;
  dev =
      submit u (write_req slot ops inst mode) h.req (clear_flags (slot * write_granularity) h.dev);
}

-- The build without laziness waits for each result.
unfoldable pub finish_compute : Build → ℕ → Host → Option (ℕ × Host)
finish_compute baseline ret h = do (_, h') ← get_val ret h; some (ret, h')
finish_compute _ ret h = some (ret, h)

-- `total_call_compute++`
unfoldable pub tally_compute : Host → Host
tally_compute h = record h {
  stats = record (h.stats) { total_call_compute = (h.stats.total_call_compute + 1) % 2 ^ 64 };
}

-- `this->compute(obj1, obj2, inst, mode)`: the address of the returned object and the new state.
-- The object is built in place of the caller's, as compilers do for a named local.
unfoldable pub compute : Alu → Build → ℕ → ℕ → ℕ → Inst → Bool → Host → Option (ℕ × Host)
compute u b this obj1 obj2 inst mode h = do
  let (ret, h0) = construct (of_bits 0) (tally_compute h)
  let slot = h0.global_counter % num_fpga_entries
  p0 ← place b slot this h0
  p1 ← place b slot obj1 p0.host
  p2 ← place_third b inst slot obj2 p1.host
  let missed = p0.through_memory || p1.through_memory || p2.through_memory
  h3 ← retire slot (tally_efficient b missed p2.host)
  let ops : Operands = record { op0 = p0.addr; op1 = p1.addr; op2 = p2.addr }
  finish_compute b ret (issue u ret slot ops inst mode h3)
