-- ===== src/Npb/Random/Jumps.antt =====
-- Jumps in the sequence of `randlc`: the seeds by their number, and an array that `vranlc` fills from
-- one of them.
use native.Mathlib.Nat.{pow-suc, pow-zero, mul_comm}
use hardposit_fpga.Base.{ℕ, zero, suc, ◌+◌, ◌*◌, ◌%◌, ◌^◌, ◌≤◌, ◌≡◌, ap, ◌∙◌, arith}
use hardposit_fpga.Npb.Random.{randlc, vranlc}
use hardposit_fpga.Npb.Random.Sequence.{randlc_mod, mod-mul, vranlc_lem}

pub power_add : (a m p : ℕ) → a ^ (m + p) ≡ a ^ m * a ^ p
power_add a m zero =
    let none : m + 0 ≡ m = omega arith in
    let one : a ^ 0 ≡ 1 = pow-zero a in rw (none, one) (omega arith)
power_add a m (suc p) =
    let next : m + suc p ≡ suc (m + p) = omega arith in
    let l : a ^ suc (m + p) ≡ a ^ (m + p) * a = pow-suc a (m + p) in
    let r : a ^ suc p ≡ a ^ p * a = pow-suc a p in
    let ih = power_add a m p in rw (next, l, r, ih) (omega arith)

-- The seed that is p numbers further on.
abbrev pub seed_at : ℕ → ℕ → ℕ → ℕ
seed_at a x p = a ^ p * x % 2 ^ 46

mod-product : (b t : ℕ) → (b % 2 ^ 46) * (t % 2 ^ 46) % 2 ^ 46 ≡ b * t % 2 ^ 46
mod-product b t =
    mod-mul (b % 2 ^ 46) t
    ∙ ap (λ n. n % 2 ^ 46) (mul_comm (b % 2 ^ 46) t)
    ∙ mod-mul t b
    ∙ ap (λ n. n % 2 ^ 46) (mul_comm t b)

pub further : (a m p x : ℕ) → a ^ m * (a ^ p * x) % 2 ^ 46 ≡ seed_at a x (m + p)
further a m p x =
    let e = power_add a m p in
    let same : a ^ m * (a ^ p * x) ≡ a ^ (m + p) * x = rw e (omega arith) in
    ap (λ n. n % 2 ^ 46) same

-- A jump by m numbers.
pub jump : (a m p x : ℕ) → randlc (seed_at a x p) (a ^ m % 2 ^ 46) ≡ seed_at a x (m + p)
jump a m p x =
    randlc_mod (seed_at a x p) (a ^ m % 2 ^ 46) ∙ mod-product (a ^ m) (a ^ p * x) ∙ further a m p x

-- The number j of an array that starts at the number p.
pub row-number :
    (a nx p x j : ℕ) (y : ℕ → ℕ)
    → 1 ≤ j
    → j ≤ nx
    → (vranlc nx (seed_at a x p) a y).1 j ≡ seed_at a x (j + p)
row-number a nx p x j y lo hi =
    (vranlc_lem nx (seed_at a x p) a y (omega arith)).1 j lo hi
    ∙ mod-mul (a ^ j) (a ^ p * x)
    ∙ further a j p x
