-- ===== src/Npb/Params/Logarithm.antt =====
-- `ilog2` of sw/NPBhardposit/sys/setparams.c against powers of two.
use native.Mathlib.Nat.{pow-suc}
use hardposit_fpga.Base.{
  ℕ, zero, suc, ◌+◌, ◌*◌, ◌^◌, ◌<◌, ◌≡◌, ◌↔◌, refl, sym, ap, ◌∙◌, Bool, true, false, ◌==◌, ==_iff,
  Bool-cases, inl, inr, arith, passes, passes_sound,
}
use hardposit_fpga.Base.Numbers.{pos, negsuc}
use hardposit_fpga.Npb.Params.{ilog2_loop, ilog2}

-- A number that the loop returns is the logarithm, in the rounds that the loop has.
ilog2_loop_sound :
    (n log2 i k : ℕ) → ilog2_loop n log2 (2 ^ log2) i ≡ pos k → (i ≡ 2 ^ k) × (k < log2 + n)
unfolding ilog2_loop
ilog2_loop_sound zero log2 i k e = absurd (cc)
ilog2_loop_sound (suc n) log2 i k e = elim (Bool-cases (2 ^ log2 == i)) [
  | inl q ↦
      let same : log2 ≡ k = ground (arith, e, q) in
      (sym ((==_iff _ _).0 q) ∙ ap (λ m. 2 ^ m) same, omega (arith, same))
  | inr q ↦
      let moved : ilog2_loop n (suc log2) (2 ^ log2 * 2) i ≡ pos k = ground (arith, e, q) in
      let r =
        ilog2_loop_sound n (suc log2) i k
          (ap (λ m. ilog2_loop n (suc log2) m i) (pow-suc 2 log2) ∙ moved) in
      (r.0, omega (arith, r.1))
]

finds : ℕ → Bool
finds k = elim (ilog2 (pos (2 ^ k))) [ pos m ↦ m == k | negsuc _ ↦ false ]

-- All twenty powers are found.
ilog2_table : passes finds 20 ≡ true
unfolding passes finds ilog2 ilog2_loop
ilog2_table = refl

ilog2_complete : (k : ℕ) → k < 20 → ilog2 (pos (2 ^ k)) ≡ pos k
unfolding finds
ilog2_complete k lt = ground (arith, passes_sound finds k 20 lt ilog2_table)

-- For a number that is not negative, `ilog2` returns k exactly when the number is 2^k and k is
-- below 20.
pub ilog2_iff : (i k : ℕ) → (ilog2 (pos i) ≡ pos k) ↔ ((i ≡ 2 ^ k) × (k < 20))
unfolding ilog2
ilog2_iff i k = (forth, λ (e, lt). ap (λ m. ilog2 (pos m)) e ∙ ilog2_complete k lt)
  where
    forth : ilog2 (pos i) ≡ pos k → (i ≡ 2 ^ k) × (k < 20)
    forth e =
        let found : ilog2_loop 20 0 (2 ^ 0) i ≡ pos k = ground (arith, e) in
        let r = ilog2_loop_sound 20 0 i k found in (r.0, omega (arith, r.1))
