-- ===== src/Harness/Outcomes.antt =====
-- What the report of the harness in csrc says about the module, and a module with an error.
use hardposit_fpga.Base.{
  ℕ, suc, ◌+◌, ◌≡◌, ◌<◌, true, false, List, [], ◌∷◌, ◌==◌, leb, if◌then◌else◌, Bool-cases, ==_iff,
  inl, inr, arith,
}
use hardposit_fpga.Harness.{Dut, Vector, reset_clocks, falling, rising, test_loop, run_harness}

-- The tests of a run that never stops early, with no regard to their count.
pub record Tally : Type 0 where
  pub checked : ℕ
  pub failed : ℕ

module _ {D : Type 0} (m : Dut D) where
  abbrev pub outcomes : List (Vector D) → D → Tally
  outcomes [] d = record { checked = 0; failed = 0 }
  outcomes (v ∷ vs) d =
      let d1 = falling m v d in
      let o = outcomes vs (rising m d1) in
      elim (m.io_check d1) [
        | false ↦ o
        | true ↦ record {
          checked = suc o.checked;
          failed = if m.io_pass d1 then o.failed else suc o.failed;
        }
      ]

  test_loop_lem :
      (vs : List (Vector D)) (cnt error : ℕ) (d : D)
      → error < 20
      → ((test_loop m vs cnt error d).aborted ≡ leb 20 (error + (outcomes vs d).failed))
        × ((test_loop m vs cnt error d).aborted ≡ false
            → ((test_loop m vs cnt error d).error ≡ error + (outcomes vs d).failed)
              × ((test_loop m vs cnt error d).cnt ≡ cnt + (outcomes vs d).checked))
        × ((test_loop m vs cnt error d).aborted ≡ true → (test_loop m vs cnt error d).error ≡ 20)
  unfolding test_loop
  test_loop_lem [] cnt error d lt =
      (ground (arith, lt), λ e. (omega arith, omega arith), λ e. absurd (cc))
  test_loop_lem (v ∷ vs) cnt error d lt =
      let d1 = falling m v d in
      elim (Bool-cases (m.io_check d1)) [
        | inl c ↦ elim (Bool-cases (m.io_pass d1)) [
          | inl p ↦
              rw (c, p, test_loop, outcomes)
                (ground (arith, test_loop_lem vs (cnt + 1) error (rising m d1) lt))
          | inr p ↦ elim (Bool-cases (error + 1 == 20)) [
            | inl n ↦
                rw (c, p, n, test_loop, outcomes)
                  (
                    ground (arith, (==_iff (error + 1) 20).0 n),
                    λ e. absurd (cc),
                    λ e. (==_iff (error + 1) 20).0 n,
                  )
            | inr n ↦
                rw (c, p, n, test_loop, outcomes)
                  (ground (arith, n, test_loop_lem vs (cnt + 1) (error + 1) (rising m d1)))
          ]
        ]
        | inr c ↦ rw (c, test_loop, outcomes) (test_loop_lem vs cnt error (rising m d1) lt)
      ]

  -- For every module, first count and list of vectors: the harness stops early exactly if at
  -- least twenty of the checked vectors would fail in a run to the end, and then reports twenty
  -- errors; if it does not stop early, it reports as errors the checked vectors that fail, and as
  -- tests the first count plus the number of checked vectors.
  pub run_harness_lem :
      (start : ℕ) (vs : List (Vector D)) (d : D)
      → ((run_harness m start vs d).aborted
          ≡ leb 20 (outcomes vs (m.set_reset false (reset_clocks m 10 d))).failed)
        × ((run_harness m start vs d).aborted ≡ false
            → ((run_harness m start vs d).error
                ≡ (outcomes vs (m.set_reset false (reset_clocks m 10 d))).failed)
              × ((run_harness m start vs d).cnt
                  ≡ start + (outcomes vs (m.set_reset false (reset_clocks m 10 d))).checked))
        × ((run_harness m start vs d).aborted ≡ true → (run_harness m start vs d).error ≡ 20)
  unfolding run_harness
  run_harness_lem start vs d =
      ground
        (arith, test_loop_lem vs start 0 (m.set_reset false (reset_clocks m 10 d)) (omega arith))
