-- ===== src/Npb/Random/Posits.antt =====
-- The overload of `vranlc` that fills an array of Hardposit.
use hardposit_fpga.Base.{
  ℕ, zero, suc, ◌+◌, ◌*◌, ◌%◌, ◌^◌, ◌<◌, ◌≤◌, ◌≡◌, ◌⊎◌, inl, inr, refl, ap, ◌∙◌, put, ◌==◌, true,
  false, some, arith, Bool-cases,
}
use hardposit_fpga.Runtime.State.{Host}
use hardposit_fpga.Runtime.Objects.{assign_number}
use hardposit_fpga.Runtime.Invariant.{IsConsistent}
use hardposit_fpga.Runtime.Invariant.Lifetime.{view}
use hardposit_fpga.Runtime.Invariant.Number.{assign_number_refines}
use hardposit_fpga.Npb.Random.Sequence.{vranlc_lem}
use hardposit_fpga.Npb.Random.{
  Split, split, recombined, reduced, vranlc_from, vranlc, vranlc_hardposit_from, vranlc_hardposit,
}

-- The objects of an array are alive and outside the FPGA.
pub record IsArray (h : Host) (y lo hi : ℕ) : Type 0 where
  pub alive : (j : ℕ) → lo ≤ j → j < hi → h.live (y + j) ≡ true
  pub outside : (j : ℕ) → lo ≤ j → j < hi → (h.objs (y + j)).in_fpga ≡ false

-- The loop leaves the elements before it alone.
vranlc_from-before :
    (n i x : ℕ) (a : Split) (m : ℕ → ℕ) (p : ℕ) → p < i → (vranlc_from n i x a m).1 p ≡ m p
unfolding vranlc_from
vranlc_from-before zero i x a m p lt = refl
vranlc_from-before (suc n) i x a m p lt =
    let x' = reduced (recombined a (split x)) in
    vranlc_from-before n (suc i) x' a (put i x' m) p (omega (arith, lt)) ∙ ground (arith, lt)

module _ (bits : ℕ → ℕ) (y : ℕ) where
  IsArray-rest :
      (n i v : ℕ) {h : Host}
      → IsArray h y i (i + suc n)
      → IsArray (assign_number (y + i) v h) y (suc i) (suc i + n)
  unfolding assign_number
  IsArray-rest n i v arr = record {
    alive = λ j lo hi. arr.alive j (omega (arith, lo)) (omega (arith, hi));
    outside = λ j lo hi. ground (arith, arr.outside j (omega (arith, lo)) (omega (arith, hi)));
  }

  -- The loop on objects follows the loop on numbers.
  from_lem :
      (n i x : ℕ) (a : Split) (m : ℕ → ℕ) {h : Host}
      → IsConsistent h
      → IsArray h y i (i + n)
      → ((vranlc_hardposit_from bits n i x a y h).0 ≡ (vranlc_from n i x a m).0)
        × IsConsistent (vranlc_hardposit_from bits n i x a y h).1
        × ((j : ℕ)
            → i ≤ j
            → j < i + n
            → view (vranlc_hardposit_from bits n i x a y h).1 (y + j)
              ≡ some (bits ((vranlc_from n i x a m).1 j)))
        × ((p : ℕ)
            → (p < y + i) ⊎ (y + (i + n) ≤ p)
            → view (vranlc_hardposit_from bits n i x a y h).1 p ≡ view h p)
  unfolding vranlc_hardposit_from vranlc_from
  from_lem zero i x a m inv arr =
      (refl, inv, λ j lo hi. absurd (omega (arith, lo, hi)), λ p out. refl)
  from_lem (suc n) i x a m {h} inv arr =
      let x' = reduced (recombined a (split x)) in
      let r =
        assign_number_refines inv (y + i) (arr.alive i (omega arith) (omega arith))
          (arr.outside i (omega arith) (omega arith)) (bits x') in
      let ih = from_lem n (suc i) x' a (put i x' m) r.0 (IsArray-rest n i (bits x') arr) in
      (
        ih.0,
        ih.1,
        λ j lo hi. elim (Bool-cases (j == i)) [
          | inl e ↦ ground (
            arith,
            ih.3 (y + i) (inl (omega arith)),
            r.1 (y + i),
            vranlc_from-before n (suc i) x' a (put i x' m) i (omega arith),
          )
          | inr e ↦ ih.2 j (ground (arith, e)) (omega (arith, hi))
        ],
        λ p out. ih.3 p (ground (arith, out)) ∙ r.1 p ∙ ground (arith, out),
      )

  -- For a seed and a multiplier below 2^46, on a consistent state in which the elements 1 to n of
  -- the array are alive and not in the FPGA: the overload of `vranlc` for Hardposit leaves the
  -- seed a^n * x modulo 2^46 and a consistent state, in which the element j stands for the
  -- conversion of a^j * x modulo 2^46 and every other address for what it stood for.
  pub vranlc_hardposit_lem :
      (n x a : ℕ) {h : Host}
      → x < 2 ^ 46
      → a < 2 ^ 46
      → IsConsistent h
      → IsArray h y 1 (1 + n)
      → ((vranlc_hardposit bits n x a y h).0 ≡ a ^ n * x % 2 ^ 46)
        × IsConsistent (vranlc_hardposit bits n x a y h).1
        × ((j : ℕ)
            → 1 ≤ j
            → j ≤ n
            → view (vranlc_hardposit bits n x a y h).1 (y + j) ≡ some (bits (a ^ j * x % 2 ^ 46)))
        × ((p : ℕ) → (p ≤ y) ⊎ (y + n < p) → view (vranlc_hardposit bits n x a y h).1 p ≡ view h p)
  unfolding vranlc_hardposit vranlc
  vranlc_hardposit_lem n x a {h} lt small inv arr =
      let r = from_lem n 1 x (split a) (λ j. 0) inv arr in
      let s = vranlc_lem n x a (λ j. 0) lt in
      (
        r.0 ∙ s.0,
        r.1,
        λ j lo hi. r.2 j lo (omega (arith, hi)) ∙ ap (λ v. some (bits v)) (s.1 j lo hi),
        λ p out. r.3 p (ground (arith, out)),
      )
