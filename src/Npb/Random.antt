-- ===== src/Npb/Random.antt =====
-- sw/NPBhardposit/common/c_randdp.c: the generator of pseudorandom numbers. A double that holds an
-- integer below 2^53 is that integer; scaling by r23 or r46 is exact, and the cast to int after it
-- drops the fraction, so both together are a division. This holds as long as the products and sums are
-- below 2^53, which seeds and multipliers below 2^46 guarantee (Sequence.antt). A number that is returned as `r46 * x`
-- stands here as its numerator `x`.
pub mod Sequence
pub mod Posits
pub mod Jumps
use hardposit_fpga.Base.{ℕ, zero, suc, ◌+◌, ◌-◌, ◌*◌, ◌/◌, ◌^◌, put}
use hardposit_fpga.Runtime.State.{Host}
use hardposit_fpga.Runtime.Objects.{assign_number}

abbrev pub t23 : ℕ
t23 = 2 ^ 23

abbrev pub t46 : ℕ
t46 = t23 * t23

-- One step of the generator, from the parts of A and of X.
pub record Split : Type 0 where
  pub high : ℕ
  pub low : ℕ

-- `t1 = r23 * a; a1 = (int)t1; a2 = a - t23 * a1`
abbrev pub split : ℕ → Split
split a = record { high = a / t23; low = a - t23 * (a / t23) }

-- `t1 = a1 * x2 + a2 * x1`
abbrev pub cross : Split → Split → ℕ
cross a x = a.high * x.low + a.low * x.high

-- `t2 = (int)(r23 * t1); z = t1 - t23 * t2; t3 = t23 * z + a2 * x2`
abbrev pub recombined : Split → Split → ℕ
recombined a x =
    let t1 = cross a x in let t2 = t1 / t23 in let z = t1 - t23 * t2 in t23 * z + a.low * x.low

-- `t4 = (int)(r46 * t3); x = t3 - t46 * t4`
abbrev pub reduced : ℕ → ℕ
reduced t3 = t3 - t46 * (t3 / t46)

-- `randlc(x, a)`: the new seed, which is also the numerator of the number returned.
unfoldable pub randlc : ℕ → ℕ → ℕ
randlc x a = reduced (recombined (split a) (split x))

-- `vranlc(n, x_seed, a, y)` from round `i` on, the array by index; the seed comes first.
unfoldable pub vranlc_from : ℕ → ℕ → ℕ → Split → (ℕ → ℕ) → ℕ × (ℕ → ℕ)
vranlc_from zero i x a y = (x, y)
vranlc_from (suc n) i x a y =
    let x' = reduced (recombined a (split x)) in vranlc_from n (suc i) x' a (put i x' y)

unfoldable pub vranlc : ℕ → ℕ → ℕ → (ℕ → ℕ) → ℕ × (ℕ → ℕ)
vranlc n x_seed a y = vranlc_from n 1 x_seed (split a) y

-- The overload for an array of Hardposit, which starts at address `y`: assigning a double converts
-- it to float and takes `operator = (float const&)`. What the two conversions make of `r46 * x` is
-- the parameter `bits`.
unfoldable pub vranlc_hardposit_from : (ℕ → ℕ) → ℕ → ℕ → ℕ → Split → ℕ → Host → ℕ × Host
vranlc_hardposit_from bits zero i x a y h = (x, h)
vranlc_hardposit_from bits (suc n) i x a y h =
    let x' = reduced (recombined a (split x)) in
    vranlc_hardposit_from bits n (suc i) x' a y (assign_number (y + i) (bits x') h)

unfoldable pub vranlc_hardposit : (ℕ → ℕ) → ℕ → ℕ → ℕ → ℕ → Host → ℕ × Host
vranlc_hardposit bits n x_seed a y h = vranlc_hardposit_from bits n 1 x_seed (split a) y h
