-- ===== src/Runtime/Invariant/Safe.antt =====
-- An operand that has been placed stays fetchable while others are written to the ring behind it.
use hardposit_fpga.Base.{ℕ, zero, suc, ◌<◌, ◌≡◌, ◌∙◌, ◌⊎◌, inl, inr, some, put}
use hardposit_fpga.Accel.Config.{Operand, byte_of, bump}
use hardposit_fpga.Accel.Request.{memory_addr}
use hardposit_fpga.Accel.Device.{Device, fetch}
use hardposit_fpga.Accel.Device.Fetch.{fetch-put, byte_of-bump, byte_of-bump-bump}
use hardposit_fpga.Runtime.State.{Host}

-- The operand at `addr` is `v`, and still is after `n` more writes at the ring pointer.
abbrev pub IsSafe : ℕ → Device → (ℕ → Operand) → ℕ → ℕ → ℕ → Type 0
IsSafe zero d req ptr addr v = fetch d req addr ≡ some v
IsSafe (suc n) d req ptr addr v =
    IsSafe n d req ptr addr v
    × ((op : Operand) → IsSafe n d (put (byte_of ptr) op req) (bump ptr) addr v)

pub IsSafe-fetch :
    (n : ℕ) (d : Device) (req : ℕ → Operand) (ptr addr v : ℕ)
    → IsSafe n d req ptr addr v
    → fetch d req addr ≡ some v
IsSafe-fetch zero d req ptr addr v s = s
IsSafe-fetch (suc n) d req ptr addr v s = IsSafe-fetch n d req ptr addr v s.0

-- An operand that is not fetched from the ring is safe for good.
pub IsSafe-constant :
    (n : ℕ) (d : Device) (req : ℕ → Operand) (ptr addr v : ℕ)
    → ((m : ℕ → Operand) → fetch d m addr ≡ some v)
    → IsSafe n d req ptr addr v
IsSafe-constant zero d req ptr addr v all = all req
IsSafe-constant (suc n) d req ptr addr v all = (
  IsSafe-constant n d req ptr addr v all,
  λ op. IsSafe-constant n d (put (byte_of ptr) op req) (bump ptr) addr v all,
)

-- One in the ring survives the two writes that can follow it.
pub ring-IsSafe :
    (d : Device) (req : ℕ → Operand) (p v : ℕ)
    → p < 256
    → fetch d req (memory_addr p) ≡ some v
    → IsSafe 2 d req (bump p) (memory_addr p) v
ring-IsSafe d req p v h e =
    let one = λ (op : Operand). fetch-put d req p (bump p) op h (byte_of-bump p) ∙ e in
    (
      (e, one),
      λ op. (
        one op,
        λ op'.
            fetch-put d (put (byte_of (bump p)) op req) p (bump (bump p)) op' h
              (byte_of-bump-bump p)
            ∙ one op,
      ),
    )

-- What a placement does to the ring.
abbrev pub Moves : Host → Host → Type 0
Moves h g =
    ((g.req ≡ h.req) × (g.req_q_pointer ≡ h.req_q_pointer))
    ⊎ ((op : Operand) × (g.req ≡ put (byte_of h.req_q_pointer) op h.req)
        × (g.req_q_pointer ≡ bump h.req_q_pointer))

pub IsSafe-Moves :
    (n : ℕ) (d : Device) (h g : Host) (addr v : ℕ)
    → Moves h g
    → IsSafe (suc n) d h.req h.req_q_pointer addr v
    → IsSafe n d g.req g.req_q_pointer addr v
IsSafe-Moves n d h g addr v (inl (r, p)) s = rw (r, p) s.0
IsSafe-Moves n d h g addr v (inr (op, r, p)) s = rw (r, p) (s.1 op)
