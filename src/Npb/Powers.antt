-- ===== src/Npb/Powers.antt =====
-- The jumps in the sequence of random numbers: `power` of sw/NPBhardposit/MG/mg.cpp and `ipow46` of
-- sw/NPBhardposit/FT/ft.cpp, for exponents that are not negative.
pub mod Exact
use hardposit_fpga.Base.{
  ℕ, zero, suc, ◌-◌, ◌*◌, ◌/◌, ◌%◌, Bool, true, false, Option, none, some, ltb, ◌==◌, if◌then◌else◌,
}
use hardposit_fpga.Npb.Random.{randlc}

-- The loop of `power`: `none` if `fuel` rounds are too few.
unfoldable pub power_loop : ℕ → ℕ → ℕ → ℕ → Option ℕ
power_loop zero nj aj power = if nj == 0 then some power else none
power_loop (suc fuel) nj aj power = elim (nj == 0) [
  | true ↦ some power
  | false ↦ power_loop fuel (nj / 2) (randlc aj aj) (if nj % 2 == 1 then randlc power aj else power)
]

-- `power(a, n)`: each round halves the exponent, so `n` rounds are enough.
unfoldable pub power : ℕ → ℕ → Option ℕ
power a n = power_loop n n a 1

-- The loop of `ipow46` and the call behind it.
unfoldable pub ipow46_loop : ℕ → ℕ → ℕ → ℕ → Option ℕ
ipow46_loop zero n q r = if ltb 1 n then none else some (randlc r q)
ipow46_loop (suc fuel) n q r = elim (ltb 1 n) [
  | false ↦ some (randlc r q)
  | true ↦ elim (n / 2 * 2 == n) [
    | true ↦ ipow46_loop fuel (n / 2) (randlc q q) r
    | false ↦ ipow46_loop fuel (n - 1) q (randlc r q)
  ]
]

-- `ipow46(a, exponent, result)`
unfoldable pub ipow46 : ℕ → ℕ → Option ℕ
ipow46 a exponent = if exponent == 0 then some 1 else ipow46_loop exponent exponent a 1
