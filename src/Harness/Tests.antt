-- ===== src/Harness/Tests.antt =====
-- The harness of csrc on a module with an error.
use hardposit_fpga.Base.{ℕ, ◌+◌, ◌%◌, ◌≡◌, refl, true, false, List, [], ◌∷◌, ◌==◌, leb}
use hardposit_fpga.Harness.{Dut, Vector, compare_vectors, reset_clocks, test_loop, run_harness}
use hardposit_fpga.Harness.Outcomes.{outcomes, run_harness_lem}

-- A module that holds the expected word, and passes for an even one.
abbrev parity : Dut ℕ
parity = record {
  set_clock = λ b d. d;
  set_reset = λ b d. d;
  set_expected = λ e d. e;
  eval = λ d. d;
  io_check = λ d. true;
  io_pass = λ d. d % 2 == 0;
}

abbrev three : List (Vector ℕ)
three = compare_vectors (λ a d. d) (λ b d. d) (1 ∷ 2 ∷ 4 ∷ 3 ∷ 4 ∷ 7 ∷ 5 ∷ 6 ∷ 8 ∷ 9 ∷ [])

run_harness_lem_example :
    ((run_harness parity 1 three 0).aborted
      ≡ leb 20 (outcomes parity three (reset_clocks parity 10 0)).failed)
    × ((run_harness parity 1 three 0).aborted ≡ false
        → ((run_harness parity 1 three 0).error
            ≡ (outcomes parity three (reset_clocks parity 10 0)).failed)
          × ((run_harness parity 1 three 0).cnt
              ≡ 1 + (outcomes parity three (reset_clocks parity 10 0)).checked))
    × ((run_harness parity 1 three 0).aborted ≡ true → (run_harness parity 1 three 0).error ≡ 20)
run_harness_lem_example = run_harness_lem parity 1 three 0

-- Three vectors are run, one of them fails, and with the count from 1 four are reported.
test_counts : run_harness parity 1 three 0 ≡ record { cnt = 4; error = 1; aborted = false }
unfolding run_harness test_loop compare_vectors reset_clocks
test_counts = refl
