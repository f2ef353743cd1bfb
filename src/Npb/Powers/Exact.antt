-- ===== src/Npb/Powers/Exact.antt =====
-- Both functions raise to a power modulo 2^46.
use native.Mathlib.Nat.{pow-zero, pow-suc}
use hardposit_fpga.Base.{
  ℕ, zero, suc, ◌+◌, ◌-◌, ◌*◌, ◌/◌, ◌%◌, ◌^◌, ◌≤◌, ◌<◌, ◌≡◌, sym, ap, ◌∙◌, inl, inr, true, some,
  ltb, ◌==◌, Bool-cases, arith,
}
use hardposit_fpga.Npb.Random.{randlc}
use hardposit_fpga.Npb.Random.Sequence.{randlc_mod, mod-mul}
use hardposit_fpga.Npb.Powers.{power_loop, power, ipow46_loop, ipow46}

-- A base may be reduced first.
pow_mod : (k x p : ℕ) → p * (x % 2 ^ 46) ^ k % 2 ^ 46 ≡ p * x ^ k % 2 ^ 46
pow_mod zero x p = ap (λ n. p * n % 2 ^ 46) (pow-zero (x % 2 ^ 46) ∙ sym (pow-zero x))
pow_mod (suc k) x p =
    let y = (x % 2 ^ 46) ^ k in
    let out : p * (x % 2 ^ 46) ^ suc k ≡ p * y * (x % 2 ^ 46) =
      ap (λ n. p * n) (pow-suc (x % 2 ^ 46) k) ∙ shift p y (x % 2 ^ 46) in
    let back : p * x * x ^ k ≡ p * x ^ suc k =
      turn p x (x ^ k) ∙ ap (λ n. p * n) (sym (pow-suc x k)) in
    ap (λ n. n % 2 ^ 46) out
    ∙ mod-mul (p * y) x
    ∙ ap (λ n. n % 2 ^ 46) (swap p y x)
    ∙ pow_mod k x (p * x)
    ∙ ap (λ n. n % 2 ^ 46) back
  where
    shift : (a b c : ℕ) → a * (b * c) ≡ a * b * c
    shift a b c = omega arith

    swap : (a b c : ℕ) → a * b * c ≡ a * c * b
    swap a b c = omega arith

    turn : (a b c : ℕ) → a * b * c ≡ a * (c * b)
    turn a b c = omega arith

square_pow : (q a : ℕ) → (a * a) ^ q ≡ a ^ (q + q)
square_pow zero a = pow-zero (a * a) ∙ sym (pow-zero a)
square_pow (suc q) a =
    let doubled : suc q + suc q ≡ suc (suc (q + q)) = omega arith in
    pow-suc (a * a) q
    ∙ ap (λ n. n * (a * a)) (square_pow q a)
    ∙ regroup (a ^ (q + q))
    ∙ ap (λ n. n * a) (sym (pow-suc a (q + q)))
    ∙ sym (pow-suc a (suc (q + q)))
    ∙ ap (λ n. a ^ n) (sym doubled)
  where
    regroup : (x : ℕ) → x * (a * a) ≡ x * a * a
    regroup x = omega arith

-- One round for an even exponent, and the step to it from an odd one.
even_round :
    (n a p : ℕ) → n / 2 + n / 2 ≡ n → p * (randlc a a) ^ (n / 2) % 2 ^ 46 ≡ p * a ^ n % 2 ^ 46
even_round n a p e =
    ap (λ x. p * x ^ (n / 2) % 2 ^ 46) (randlc_mod a a)
    ∙ pow_mod (n / 2) (a * a) p
    ∙ ap (λ x. p * x % 2 ^ 46) (square_pow (n / 2) a ∙ ap (λ k. a ^ k) e)

odd_step : (k a p : ℕ) → randlc p a * a ^ k % 2 ^ 46 ≡ p * a ^ suc k % 2 ^ 46
odd_step k a p =
    ap (λ x. x * a ^ k % 2 ^ 46) (randlc_mod p a)
    ∙ ap (λ x. x % 2 ^ 46) (commute (a * p % 2 ^ 46) (a ^ k))
    ∙ mod-mul (a ^ k) (a * p)
    ∙ ap (λ x. x % 2 ^ 46) (regroup (a ^ k) ∙ ap (λ n. p * n) (sym (pow-suc a k)))
  where
    commute : (x y : ℕ) → x * y ≡ y * x
    commute x y = omega arith

    regroup : (x : ℕ) → x * (a * p) ≡ p * (x * a)
    regroup x = omega arith

-- An odd round: the step to the even exponent, and that one's round.
odd_round :
    (n a p : ℕ)
    → suc (n / 2 + n / 2) ≡ n
    → randlc p a * (randlc a a) ^ (n / 2) % 2 ^ 46 ≡ p * a ^ n % 2 ^ 46
odd_round n a p e =
    ap (λ x. randlc p a * x ^ (n / 2) % 2 ^ 46) (randlc_mod a a)
    ∙ pow_mod (n / 2) (a * a) (randlc p a)
    ∙ ap (λ x. randlc p a * x % 2 ^ 46) (square_pow (n / 2) a)
    ∙ odd_step (n / 2 + n / 2) a p
    ∙ ap (λ k. p * a ^ k % 2 ^ 46) e

randlc-lt : (x a : ℕ) → randlc x a < 2 ^ 46
randlc-lt x a = rw randlc_mod (omega arith)

power_zero : (n a p : ℕ) → n ≡ 0 → p < 2 ^ 46 → p ≡ p * a ^ n % 2 ^ 46
power_zero n a p e lt =
    let one : p ≡ p * 1 % 2 ^ 46 = omega (arith, lt) in
    one ∙ ap (λ x. p * x % 2 ^ 46) (sym (ap (λ k. a ^ k) e ∙ pow-zero a))

power_one : (n a p : ℕ) → n ≡ 1 → randlc p a ≡ p * a ^ n % 2 ^ 46
power_one n a p e =
    let power : a ^ n ≡ 1 * a = ap (λ k. a ^ k) e ∙ pow-suc a zero ∙ ap (λ x. x * a) (pow-zero a) in
    let same : a * p ≡ p * (1 * a) = omega arith in
    randlc_mod p a ∙ ap (λ x. x % 2 ^ 46) (same ∙ ap (λ x. p * x) (sym power))

power_loop_lem :
    (fuel nj aj p : ℕ)
    → nj ≤ fuel
    → p < 2 ^ 46
    → power_loop fuel nj aj p ≡ some (p * aj ^ nj % 2 ^ 46)
unfolding power_loop
power_loop_lem zero nj aj p le lt =
    let none_left : nj ≡ 0 = omega (arith, le) in
    let over : (nj == 0) ≡ true = ground (arith, le) in
    rw (over, power_loop) (ap some (power_zero nj aj p none_left lt))
power_loop_lem (suc fuel) nj aj p le lt = elim (Bool-cases (nj == 0)) [
  | inl e ↦
      let none_left : nj ≡ 0 = ground (arith, e) in
      rw (e, power_loop) (ap some (power_zero nj aj p none_left lt))
  | inr e ↦ elim (Bool-cases (nj % 2 == 1)) [
    | inl odd ↦
        let ih =
          power_loop_lem fuel (nj / 2) (randlc aj aj) (randlc p aj) (ground (arith, e, le))
            (randlc-lt p aj) in
        rw (e, odd, power_loop) (ih ∙ ap some (odd_round nj aj p (ground (arith, odd))))
    | inr even ↦
        let ih = power_loop_lem fuel (nj / 2) (randlc aj aj) p (ground (arith, e, le)) lt in
        rw (e, even, power_loop) (ih ∙ ap some (even_round nj aj p (ground (arith, even))))
  ]
]

ipow46_loop_lem :
    (fuel n q r : ℕ) → n ≤ fuel → 1 ≤ n → ipow46_loop fuel n q r ≡ some (r * q ^ n % 2 ^ 46)
unfolding ipow46_loop
ipow46_loop_lem zero n q r le lo = absurd (omega (arith, le, lo))
ipow46_loop_lem (suc fuel) n q r le lo = elim (Bool-cases (ltb 1 n)) [
  | inr last ↦ rw (last, ipow46_loop) (ap some (power_one n q r (ground (arith, last, lo))))
  | inl more ↦ elim (Bool-cases (n / 2 * 2 == n)) [
    | inl even ↦
        let ih =
          ipow46_loop_lem fuel (n / 2) (randlc q q) r (ground (arith, more, le))
            (ground (arith, more)) in
        rw (more, even, ipow46_loop) (ih ∙ ap some (even_round n q r (ground (arith, even))))
    | inr odd ↦
        let ih =
          ipow46_loop_lem fuel (n - 1) q (randlc r q) (ground (arith, le, more))
            (ground (arith, more)) in
        let back : suc (n - 1) ≡ n = omega (arith, lo) in
        rw (more, odd, ipow46_loop)
          (ih ∙ ap some (odd_step (n - 1) q r ∙ ap (λ k. r * q ^ k % 2 ^ 46) back))
  ]
]

-- For every base and exponent, the repeated squaring of MG's `power` and that of FT's `ipow46`
-- both end, within as many rounds as the exponent, and both return the base to the exponent
-- modulo 2^46.
pub power-ipow46 :
    (a n : ℕ) → (power a n ≡ some (a ^ n % 2 ^ 46)) × (ipow46 a n ≡ some (a ^ n % 2 ^ 46))
unfolding power ipow46
power-ipow46 a n = (
  power_loop_lem n n a 1 (omega arith) (omega arith)
      ∙ ap (λ x. some (x % 2 ^ 46)) (one_mul (a ^ n)),
  elim (Bool-cases (n == 0)) [
    | inl e ↦
        let none_left : n ≡ 0 = ground (arith, e) in
        rw e (
          ap some
            (power_zero n a 1 none_left (omega arith) ∙ ap (λ x. x % 2 ^ 46) (one_mul (a ^ n))))
    | inr e ↦ rw e (
        ipow46_loop_lem n n a 1 (omega arith) (ground (arith, e))
        ∙ ap (λ x. some (x % 2 ^ 46)) (one_mul (a ^ n)))
  ],
)
  where
    one_mul : (x : ℕ) → 1 * x ≡ x
    one_mul x = omega arith
