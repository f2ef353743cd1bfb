-- ===== src/Harness.antt =====
-- csrc/test-compare.cpp, csrc/test-convert.cpp and csrc/test-arithmetic.cpp: the loop that runs the
-- vectors of standard input on a module that Verilator made, which is a parameter.
pub mod Outcomes
pub mod Tests
use hardposit_fpga.Base.{
  ℕ, zero, suc, ◌+◌, Bool, true, false, not, List, [], ◌∷◌, ◌==◌, if◌then◌else◌,
}

-- What the loop uses of the module.
pub record Dut (D : Type 0) : Type 0 where
  pub set_clock : Bool → D → D
  pub set_reset : Bool → D → D
  pub set_expected : ℕ → D → D
  pub eval : D → D
  pub io_check : D → Bool
  pub io_pass : D → Bool

-- A test: the inputs, set by `process_inputs`, and the expected word. An incomplete one at the end
-- of the input is not run.
pub record Vector (D : Type 0) : Type 0 where
  pub process_inputs : D → D
  pub expected : ℕ

-- The numbers of standard input, taken by the three loops: two inputs, or one.
unfoldable pub compare_vectors : {D : Type 0} → (ℕ → D → D) → (ℕ → D → D) → List ℕ → List (Vector D)
compare_vectors num1 num2 (a ∷ b ∷ e ∷ rest) =
    record { process_inputs = λ d. num2 b (num1 a d); expected = e }
    ∷ compare_vectors num1 num2 rest
compare_vectors num1 num2 _ = []

unfoldable pub convert_vectors : {D : Type 0} → (ℕ → D → D) → List ℕ → List (Vector D)
convert_vectors in_word (a ∷ e ∷ rest) =
    record { process_inputs = in_word a; expected = e } ∷ convert_vectors in_word rest
convert_vectors in_word _ = []

-- The numbers that the loop prints at the end; `aborted` if it stopped at twenty errors.
pub record Report : Type 0 where
  pub cnt : ℕ
  pub error : ℕ
  pub aborted : Bool

module _ {D : Type 0} (m : Dut D) where
  -- Ten clocks under reset, of which `n` are left.
  unfoldable pub reset_clocks : ℕ → D → D
  reset_clocks zero d = d
  reset_clocks (suc n) d =
      reset_clocks n (m.eval (m.set_clock true (m.eval (m.set_clock false (m.set_reset true d)))))

  -- The inputs are set and the clock falls; later it rises.
  abbrev pub falling : Vector D → D → D
  falling v d = m.eval (m.set_clock false (m.set_expected v.expected (v.process_inputs d)))

  abbrev pub rising : D → D
  rising d = m.eval (m.set_clock true d)

  unfoldable pub test_loop : List (Vector D) → ℕ → ℕ → D → Report
  test_loop [] cnt error d = record { cnt = cnt; error = error; aborted = false }
  test_loop (v ∷ vs) cnt error d =
      let d1 = falling v d in
      elim (m.io_check d1) [
        | false ↦ test_loop vs cnt error (rising d1)
        | true ↦ elim (m.io_pass d1) [
          | true ↦ test_loop vs (cnt + 1) error (rising d1)
          | false ↦ elim (error + 1 == 20) [
            | true ↦ record { cnt = cnt; error = error + 1; aborted = true }
            | false ↦ test_loop vs (cnt + 1) (error + 1) (rising d1)
          ]
        ]
      ]

  -- `main`, with the first value of `cnt`: 0 for compare and convert, 1 for arithmetic.
  unfoldable pub run_harness : ℕ → List (Vector D) → D → Report
  run_harness start vs d = test_loop vs start 0 (m.set_reset false (reset_clocks 10 d))
