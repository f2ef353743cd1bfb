-- ===== src/Runtime/Program/Start.antt =====
-- From a fresh process to a running session, and after it is closed.
use hardposit_fpga.Base.{◌≡◌, ◌≢◌, refl, false, none, [], ◌∷◌, ◌==◌, arith}
use hardposit_fpga.Base.Numbers.{pos, negsuc}
use hardposit_fpga.Accel.Device.{Device}
use hardposit_fpga.Runtime.State.{Host}
use hardposit_fpga.Runtime.Objects.{of_bits}
use hardposit_fpga.Runtime.Session.{
  Platform, Session, init_accel, close_accel, read_setup, write_setup,
}
use hardposit_fpga.Runtime.Invariant.{IsConsistent}
use hardposit_fpga.Runtime.Program.{Store}
use hardposit_fpga.Runtime.Program.Simulation.{Simulates}

-- The globals as the process finds them: static storage is zero.
abbrev pub fresh_host : Device → Host
fresh_host d = record {
  objs = λ a. of_bits 0;
  live = λ a. false;
  next = 0;
  track = λ s. record { ptr = none; crnt_posit = [] };
  req = λ p. record { val = 0; valid_w_id = 0 };
  dev = d;
  global_counter = 0;
  req_q_pointer = 0;
  finish = false;
  counter = record { created = 0; living = 0; most = 0 };
  stats = record {
    total_reuse = 0;
    total_call_memory = 0;
    total_call_compute = 0;
    total_effcient_compute = 0;
    distances = 0 ∷ 0 ∷ 0 ∷ 0 ∷ 0 ∷ 0 ∷ 0 ∷ 0 ∷ 0 ∷ 0 ∷ 0 ∷ 0 ∷ 0 ∷ 0 ∷ 0 ∷ 0 ∷ 0 ∷ 0 ∷ 0 ∷ 0 ∷ [];
  };
}

abbrev pub fresh_session : Device → Session
fresh_session d = record {
  accel = false;
  connected = false;
  req_allocated = false;
  result_allocated = false;
  csrs = [];
  host = fresh_host d;
}

abbrev pub empty_store : Store
empty_store = record { next = 0; nums = λ a. none }

pub fresh-Simulates : (d : Device) → Simulates (fresh_host d) empty_store
fresh-Simulates d = record {
  consistent = record {
    slots = λ s a e. absurd (cc);
    objects = λ a e. absurd (cc);
    pointer = omega arith;
    running = refl;
  };
  same_next = refl;
  same_nums = λ x. refl;
}

-- On a fresh process: if OPAE finds an accelerator, `init_accel` returns 0, writes the two set-up
-- words to CSR 0 and then CSR 8, and the state after it stands for the empty store; if it finds
-- none, it returns -1 and the session is as before.
pub init_accel_lem :
    (p : Platform) (d : Device)
    → (p.tokens ≢ 0
        → ((init_accel p (fresh_session d)).0 ≡ pos 0)
          × ((init_accel p (fresh_session d)).1.csrs ≡ (8, write_setup p) ∷ (0, read_setup p) ∷ [])
          × Simulates (init_accel p (fresh_session d)).1.host empty_store)
      × (p.tokens ≡ 0 → init_accel p (fresh_session d) ≡ (negsuc 0, fresh_session d))
unfolding init_accel
init_accel_lem p d = (
  λ ne.
      let away : (p.tokens == 0) ≡ false = ground arith in
      rw away (
        refl,
        refl,
        record {
          consistent = record {
            slots = λ s a e. absurd (cc);
            objects = λ a e. absurd (cc);
            pointer = omega arith;
            running = refl;
          };
          same_next = refl;
          same_nums = λ x. refl;
        },
      ),
  λ e. rw e refl,
)

-- After an `init_accel` that returned 0, calling it again, whatever OPAE reports then, returns 0
-- and changes nothing.
pub init_accel-again :
    (p q : Platform) (s : Session)
    → (init_accel p s).0 ≡ pos 0
    → (init_accel q (init_accel p s).1 ≡ (pos 0, (init_accel p s).1))
unfolding init_accel
init_accel-again p q s e = ground arith

-- On a fresh process where OPAE finds an accelerator, `init_accel`, `close_accel` and
-- `init_accel` again, whatever OPAE reports in the later calls: the last call returns 0, but the
-- handle is not connected, neither buffer is allocated, and the library's state is not a
-- consistent one.
pub init_accel-close_accel :
    (p q r : Platform) (d : Device)
    → p.tokens ≢ 0
    → ((init_accel r (close_accel q (init_accel p (fresh_session d)).1).1).0 ≡ pos 0)
      × ((init_accel r (close_accel q (init_accel p (fresh_session d)).1).1).1.connected ≡ false)
      × ((init_accel r (close_accel q (init_accel p (fresh_session d)).1).1).1.req_allocated
          ≡ false)
      × ((init_accel r (close_accel q (init_accel p (fresh_session d)).1).1).1.result_allocated
          ≡ false)
      × ¬ IsConsistent (init_accel r (close_accel q (init_accel p (fresh_session d)).1).1).1.host
unfolding init_accel close_accel
init_accel-close_accel p q r d some_token =
    let e : (p.tokens == 0) ≡ false = ground (arith, some_token) in
    (rw e refl, rw e refl, rw e refl, rw e refl, rw e (λ inv. absurd (ground (arith, inv.running))))
