-- ===== src/Npb/Random/Sequence.antt =====
-- The generator is multiplication modulo 2^46, and its doubles hold every value exactly.
use native.Mathlib.Nat.{add-mul-mod_self_left, mul-le-mul, pow-zero, pow-suc}
use hardposit_fpga.Base.{
  ℕ, zero, suc, ◌+◌, ◌-◌, ◌*◌, ◌/◌, ◌%◌, ◌^◌, ◌<◌, ◌≤◌, ◌≡◌, ◌⊎◌, refl, sym, ap, ◌∙◌, put,
  if◌then◌else◌, leb, ltb, ◌&&◌, arith,
}
use hardposit_fpga.Npb.Random.{
  t23, t46, split, cross, recombined, reduced, randlc, vranlc_from, vranlc,
}

reduced-mod : (t : ℕ) → reduced t ≡ t % t46
reduced-mod t = omega arith

-- Multiplication in base 2^23, with the carry of the middle column.
schoolbook :
    (p q r s : ℕ)
    → (t23 * p + q) * (t23 * r + s)
      ≡ t23 * (p * s + q * r - t23 * ((p * s + q * r) / t23))
        + q * s
        + t46 * (p * r + (p * s + q * r) / t23)
schoolbook p q r s = omega arith

-- The product falls apart into a multiple of 2^46 and what is recombined.
product :
    (a x : ℕ)
    → a * x
      ≡ recombined (split a) (split x)
        + t46 * (a / t23 * (x / t23) + cross (split a) (split x) / t23)
product a x =
    let ea : a ≡ t23 * (a / t23) + (a - t23 * (a / t23)) = omega arith in
    let ex : x ≡ t23 * (x / t23) + (x - t23 * (x / t23)) = omega arith in
    (λ k. ea k * ex k) ∙ schoolbook (a / t23) (a - t23 * (a / t23)) (x / t23) (x - t23 * (x / t23))

-- The split multiplication, on numbers without a bound.
pub randlc_mod : (x a : ℕ) → randlc x a ≡ a * x % 2 ^ 46
unfolding randlc
randlc_mod x a =
    reduced-mod (recombined (split a) (split x))
    ∙ sym (
        ap (λ n. n % t46) (product a x)
        ∙ add-mul-mod_self_left (recombined (split a) (split x)) t46 _)

-- Two parts of 23 bits have a product of 46.
parts-product : (p q : ℕ) → p < t23 → q < t23 → p * q ≤ (t23 - 1) * (t23 - 1)
parts-product p q hp hq =
    mul-le-mul {n₂ = t23 - 1} {m₂ = t23 - 1} (omega (arith, hp)) (omega (arith, hq))

module _ (x a : ℕ) (hx : x < 2 ^ 46) (ha : a < 2 ^ 46) where
  cross-lt : cross (split a) (split x) < 2 ^ 47
  cross-lt =
      let p = parts-product (a / t23) (x - t23 * (x / t23)) (omega arith) (omega arith) in
      let q = parts-product (a - t23 * (a / t23)) (x / t23) (omega arith) (omega arith) in
      omega (arith, p, q)

  recombined-lt : recombined (split a) (split x) < 2 ^ 47
  recombined-lt =
      let p =
        parts-product (a - t23 * (a / t23)) (x - t23 * (x / t23)) (omega arith) (omega arith) in
      omega (arith, p)

  -- For a seed and a multiplier below 2^46, the split multiplication of `randlc` computes their
  -- product modulo 2^46, a number below 2^46 again, and the two sums on the way are below 2^53,
  -- so that doubles hold them exactly.
  pub randlc_lem :
      (randlc x a ≡ a * x % 2 ^ 46)
      × (randlc x a < 2 ^ 46)
      × (cross (split a) (split x) < 2 ^ 53)
      × (recombined (split a) (split x) < 2 ^ 53)
  randlc_lem =
      let e = randlc_mod x a in
      let c = cross-lt in
      let r = recombined-lt in (e, omega (arith, e), omega (arith, c), omega (arith, r))

  -- For a seed and a multiplier below 2^46, every number that `randlc` casts to int is below
  -- 2^31, and the cross product and the recombined sum are below 2^53, so that doubles hold them
  -- exactly.
  pub randlc_exact :
      ((split a).high < 2 ^ 31)
      × ((split x).high < 2 ^ 31)
      × (cross (split a) (split x) < 2 ^ 53)
      × (cross (split a) (split x) / t23 < 2 ^ 31)
      × (recombined (split a) (split x) < 2 ^ 53)
      × (recombined (split a) (split x) / t46 < 2 ^ 31)
  randlc_exact =
      let c = cross-lt in
      let r = recombined-lt in
      (
        omega arith,
        omega arith,
        omega (arith, c),
        omega (arith, c),
        omega (arith, r),
        omega (arith, r),
      )

-- The seed after `k` steps.
abbrev pub seed : ℕ → ℕ → ℕ → ℕ
seed zero a x = x
seed (suc k) a x = seed k a (a * x % 2 ^ 46)

seed-step : (i j a x : ℕ) → i < j → seed (suc j - i) a x ≡ seed (suc j - suc i) a (a * x % 2 ^ 46)
seed-step i j a x lt = ap (λ k. seed k a x) count
  where
    count : suc j - i ≡ suc (suc j - suc i)
    count = omega (arith, lt)

vranlc_from_lem :
    (n i x a : ℕ) (y : ℕ → ℕ)
    → ((vranlc_from n i x (split a) y).0 ≡ seed n a x)
      × ((j : ℕ)
          → (vranlc_from n i x (split a) y).1 j
            ≡ (if leb i j && ltb j (i + n) then seed (suc j - i) a x else y j))
unfolding vranlc_from randlc
vranlc_from_lem zero i x a y = (refl, λ j. ground arith)
vranlc_from_lem (suc n) i x a y =
    let e : reduced (recombined (split a) (split x)) ≡ a * x % 2 ^ 46 = randlc_mod x a in
    let ih = vranlc_from_lem n (suc i) (a * x % 2 ^ 46) a (put i (a * x % 2 ^ 46) y) in
    rw (vranlc_from, e) (ih.0, λ j. ih.1 j ∙ ground (arith, seed-step i j a x))

pub mod-mul : (b t : ℕ) → b * (t % t46) % t46 ≡ b * t % t46
mod-mul b t =
    let parts : t ≡ t % t46 + t46 * (t / t46) = omega arith in
    let e : b * t ≡ b * (t % t46) + t46 * (b * (t / t46)) =
      ap (λ n. b * n) parts ∙ spread (t % t46) (t / t46) in
    sym (ap (λ n. n % t46) e ∙ add-mul-mod_self_left (b * (t % t46)) t46 (b * (t / t46)))
  where
    spread : (r q : ℕ) → b * (r + t46 * q) ≡ b * r + t46 * (b * q)
    spread r q = omega arith

seed-closed : (k a x : ℕ) → x < 2 ^ 46 → seed k a x ≡ a ^ k * x % 2 ^ 46
seed-closed zero a x h =
    let one : x ≡ 1 * x % 2 ^ 46 = omega (arith, h) in
    let power : 1 ≡ a ^ 0 = sym (pow-zero a) in one ∙ ap (λ n. n * x % 2 ^ 46) power
seed-closed (suc k) a x h =
    seed-closed k a (a * x % 2 ^ 46) (omega arith)
    ∙ mod-mul (a ^ k) (a * x)
    ∙ ap (λ n. n % 2 ^ 46) reordered
  where
    reordered : a ^ k * (a * x) ≡ a ^ suc k * x
    reordered =
        let power : a ^ suc k ≡ a ^ k * a = pow-suc a k in
        let moved : a ^ k * (a * x) ≡ a ^ k * a * x = omega arith in
        moved ∙ ap (λ n. n * x) (sym power)

-- For a seed below 2^46, `vranlc` of n numbers leaves the seed a^n * x modulo 2^46, puts a^j * x
-- modulo 2^46 at the index j from 1 to n, and leaves index 0 and those beyond n alone.
pub vranlc_lem :
    (n x a : ℕ) (y : ℕ → ℕ)
    → x < 2 ^ 46
    → ((vranlc n x a y).0 ≡ a ^ n * x % 2 ^ 46)
      × ((j : ℕ) → 1 ≤ j → j ≤ n → (vranlc n x a y).1 j ≡ a ^ j * x % 2 ^ 46)
      × ((j : ℕ) → (j ≡ 0) ⊎ (n < j) → (vranlc n x a y).1 j ≡ y j)
unfolding vranlc
vranlc_lem n x a y h =
    let r = vranlc_from_lem n 1 x a y in
    (
      r.0 ∙ seed-closed n a x h,
      λ j lo hi. ground (arith, r.1 j, seed-closed j a x h),
      λ j out. ground (arith, r.1 j),
    )
