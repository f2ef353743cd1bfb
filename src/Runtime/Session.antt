-- ===== src/Runtime/Session.antt =====
-- `init_accel`, `close_accel` and `poll_performance` of sw/Hardposit/src/hardposit.cpp. OPAE is a
-- parameter: how many accelerators it finds, where it puts the two buffers, and what a reset does.
use hardposit_fpga.Base.{
  ℕ, zero, suc, ◌+◌, ◌*◌, ◌/◌, ◌%◌, ◌^◌, Bool, true, false, Option, none, some, List, [], ◌∷◌, ◌++◌,
  ◌==◌, if◌then◌else◌, ltb,
}
use hardposit_fpga.Base.Numbers.{ℤ, pos, negsuc}
use hardposit_fpga.Accel.Config.{
  Operand, num_fpga_entries, write_granularity, num_cacheline, size_of_cacheline,
}
use hardposit_fpga.Accel.Device.{Device, Result}
use hardposit_fpga.Runtime.State.{Host}

pub record Platform : Type 0 where
  pub tokens : ℕ
  pub req_address : ℕ
  pub result_address : ℕ
  pub reset : Device → Device

-- Whether the handle is set, whether it is connected, which buffers are allocated, the CSR writes so far, the latest first, and the library's state.
pub record Session : Type 0 where
  pub accel : Bool
  pub connected : Bool
  pub req_allocated : Bool
  pub result_allocated : Bool
  pub csrs : List (ℕ × ℕ)
  pub host : Host

-- `memset` of the two buffers: the bytes below their sizes.
abbrev pub zero_req : (ℕ → Operand) → ℕ → Operand
zero_req req p =
    if ltb p (num_cacheline * size_of_cacheline) then record { val = 0; valid_w_id = 0 } else req p

abbrev pub zero_res : (ℕ → Result) → ℕ → Result
zero_res res p =
    if ltb p ((num_fpga_entries + 1) * write_granularity)
    then record { result = 0; flags = 0 }
    else res p

abbrev pub read_setup : Platform → ℕ
read_setup p = p.req_address / 2 ^ 6 % 2 ^ 64

abbrev pub write_setup : Platform → ℕ
write_setup p = (p.result_address / 2 ^ 6 + write_granularity * 2 ^ 42) % 2 ^ 64

-- `init_accel()`: the status, and the session after it.
unfoldable pub init_accel : Platform → Session → ℤ × Session
init_accel p s =
    if s.accel
    then (pos 0, s)
    else if p.tokens == 0
    then (negsuc 0, s)
    else (let d = p.reset s.host.dev in
        (
          pos 0,
          record s {
            accel = true;
            connected = true;
            req_allocated = true;
            result_allocated = true;
            csrs = (8, write_setup p) ∷ (0, read_setup p) ∷ s.csrs;
            host = record (s.host) {
              req = zero_req s.host.req;
              dev = p.reset (record d { res = zero_res d.res });
            };
          },
        ))

-- `close_accel()`. The handle keeps its value.
unfoldable pub close_accel : Platform → Session → ℤ × Session
close_accel p s = (
  pos 0,
  record s {
    host = record (s.host) { finish = true; dev = p.reset s.host.dev };
    req_allocated = false;
    result_allocated = false;
    connected = false;
  },
)

-- `struct Performance_array`, whose array has twelve elements.
pub record PerformanceArray : Type 0 where
  pub total_cycles : ℕ
  pub mem_req_cycles : List ℕ
  pub valid : Bool

abbrev pub get_elem? {ℓ} : {A : Type ℓ} → List A → ℕ → Option A
get_elem? [] i = none
get_elem? (x ∷ xs) zero = some x
get_elem? (x ∷ xs) (suc i) = get_elem? xs i

-- The entries that `poll_performance` prints; `none` where it reads past the end of an array.
abbrev pub read_entries : ℕ → ℕ → List ℕ → List (Option ℕ)
read_entries zero i xs = []
read_entries (suc n) i xs = get_elem? xs i ∷ read_entries n (suc i) xs

-- The lines of numbers in the order they are printed, the last line being the numerators of the
-- distances. The host waits for `valid`: `none` if it is never set.
unfoldable pub poll_performance : PerformanceArray → Host → Option (List (Option ℕ))
poll_performance perf h =
    if perf.valid
    then some (
        (some h.stats.total_call_memory
          ∷ some h.stats.total_reuse
          ∷ some h.stats.total_call_compute
          ∷ some h.stats.total_effcient_compute
          ∷ some h.counter.created
          ∷ some h.counter.most
          ∷ some perf.total_cycles
          ∷ [])
        ++ (read_entries 13 0 perf.mem_req_cycles ++ read_entries 20 0 h.stats.distances))
    else none
