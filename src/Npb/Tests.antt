-- ===== src/Npb/Tests.antt =====
-- The theorems on the shared code and the helpers of the benchmarks in sw/NPBhardposit, at small inputs, and what the definitions compute.
use hardposit_fpga.Base.{
  ℕ, ◌+◌, ◌*◌, ◌/◌, ◌%◌, ◌^◌, ◌≤◌, ◌<◌, ◌≡◌, ◌≢◌, ◌↔◌, ◌⊎◌, refl, Bool, true, false, Option, none,
  some, [], ◌∷◌, ◌++◌, ◌&&◌, ltb, if◌then◌else◌, arith,
}
use hardposit_fpga.Base.Numbers.{pos}
use hardposit_fpga.Base.Texts.{Text, codes}
use hardposit_fpga.Runtime.Invariant.{IsConsistent}
use hardposit_fpga.Runtime.Invariant.Lifetime.{view}
use hardposit_fpga.Runtime.Tests.{two_objects, two_objects-IsConsistent}
use hardposit_fpga.Npb.Random.{t23, t46, split, cross, recombined, randlc, vranlc_hardposit}
use hardposit_fpga.Npb.Random.Sequence.{randlc_lem, randlc_exact}
use hardposit_fpga.Npb.Random.Posits.{IsArray, vranlc_hardposit_lem}
use hardposit_fpga.Npb.Powers.{power, power_loop, ipow46}
use hardposit_fpga.Npb.Powers.Exact.{power-ipow46}
use mathlib.Core.List.{Perm}
use hardposit_fpga.Npb.Bubble.{Row, out_of_order, bubble}
use hardposit_fpga.Npb.Bubble.Order.{InOrder, bubble_lem}
use hardposit_fpga.Npb.Params.{cg, ilog2, check_info, get_info}
use hardposit_fpga.Npb.Params.Logarithm.{ilog2_iff}
use hardposit_fpga.Npb.Params.Lines.{
  check_line, check_label, check_sign, take_value, chop, ends_with_backslash,
}
use hardposit_fpga.Npb.Params.Lines.Values.{check_line_value}
use hardposit_fpga.Npb.Params.Files.Classes.{write_benchmark_info, write_cg_info, cg_size}
use hardposit_fpga.Npb.Params.Program.{
  configure, first_char, read_line, read_lines, write_info, write_convertdouble_info, read_info,
  write_compiler_info, fgets_all, main,
}
use hardposit_fpga.Npb.Params.Program.Settings.{
  configure_reads, configure-configure, configure_lem, configure_R,
}

randlc_lem_example :
    (randlc 314159265 1220703125 ≡ 1220703125 * 314159265 % 2 ^ 46)
    × (randlc 314159265 1220703125 < 2 ^ 46)
    × (cross (split 1220703125) (split 314159265) < 2 ^ 53)
    × (recombined (split 1220703125) (split 314159265) < 2 ^ 53)
randlc_lem_example = randlc_lem 314159265 1220703125 (omega arith) (omega arith)

randlc_exact_example :
    ((split 1220703125).high < 2 ^ 31)
    × ((split 314159265).high < 2 ^ 31)
    × (cross (split 1220703125) (split 314159265) < 2 ^ 53)
    × (cross (split 1220703125) (split 314159265) / t23 < 2 ^ 31)
    × (recombined (split 1220703125) (split 314159265) < 2 ^ 53)
    × (recombined (split 1220703125) (split 314159265) / t46 < 2 ^ 31)
randlc_exact_example = randlc_exact 314159265 1220703125 (omega arith) (omega arith)

-- One element, at address 1.
one_element : IsArray two_objects 0 1 (1 + 1)
one_element = record {
  alive = λ j lo hi. ground (arith, lo, hi);
  outside = λ j lo hi. ground (arith, lo, hi);
}

vranlc_hardposit_lem_example :
    ((vranlc_hardposit (λ v. v) 1 7 5 0 two_objects).0 ≡ 5 ^ 1 * 7 % 2 ^ 46)
    × IsConsistent (vranlc_hardposit (λ v. v) 1 7 5 0 two_objects).1
    × ((j : ℕ)
        → 1 ≤ j
        → j ≤ 1
        → view (vranlc_hardposit (λ v. v) 1 7 5 0 two_objects).1 (0 + j)
          ≡ some (5 ^ j * 7 % 2 ^ 46))
    × ((p : ℕ)
        → (p ≤ 0) ⊎ (0 + 1 < p)
        → view (vranlc_hardposit (λ v. v) 1 7 5 0 two_objects).1 p ≡ view two_objects p)
vranlc_hardposit_lem_example =
    vranlc_hardposit_lem (λ v. v) 0 1 7 5 (omega arith) (omega arith) two_objects-IsConsistent
      one_element

ilog2_iff_example : (ilog2 (pos 512) ≡ pos 9) ↔ ((512 ≡ 2 ^ 9) × (9 < 20))
ilog2_iff_example = ilog2_iff 512 9

check_line_value_example :
    check_line
      (codes "CC" ++ (codes " " ++ (b'=' ∷ (codes "  " ++ ((b'g' ∷ codes "cc -O3") ++ (10 ∷ []))))))
      (codes "CC")
      (codes "(none)")
    ≡ some (codes "gcc -O3")
unfolding ends_with_backslash
check_line_value_example =
    check_line_value (codes "CC") (codes " ") (codes "  ") (codes "cc -O3") b'g' 10 (codes "(none)")
      refl refl refl

abbrev long_value : Text
long_value = codes "-O3 -g -Wall -Wextra -I../common -I../../Hardposit/include"

abbrev make_def : Option Text
make_def = some (codes "# none" ++ (10 ∷ codes "CC = gcc") ++ (10 ∷ []))

abbrev today : Text
today = codes "01 Jan 2020"

known : check_info b'A' ≡ true
unfolding check_info
known = refl

compiles : (write_compiler_info cg today make_def).returned ≡ true
unfolding write_compiler_info read_lines read_line fgets_all check_line check_label check_sign
    take_value chop ends_with_backslash
compiles = refl

no_file : read_info cg none ≢ b'A'
unfolding read_info
no_file e = absurd (omega (arith, e))

configure_lem_example :
    (configure cg b'A' today make_def none).exit_code
    ≡ (if true && (write_compiler_info cg today make_def).returned then 0 else 1)
configure_lem_example = configure_lem cg b'A' today make_def none known no_file

succeeds : (configure cg b'A' today make_def none).exit_code ≡ 0
succeeds = rw (configure_lem cg b'A' today make_def none known no_file, compiles) refl

configure_reads_example : read_info cg (configure cg b'A' today make_def none).params ≡ b'A'
configure_reads_example = configure_reads cg b'A' today make_def none succeeds

configure-configure_example :
    configure cg b'A' today none (configure cg b'A' today make_def none).params
    ≡ record { exit_code = 0; params = (configure cg b'A' today make_def none).params }
configure-configure_example = configure-configure cg b'A' today make_def none today none known

no_file_R : read_info cg none ≢ b'R'
unfolding read_info
no_file_R e = absurd (omega (arith, e))

configure_R_example :
    ((configure cg b'R' today make_def none).exit_code ≡ 1)
    × (configure cg b'R' today make_def (configure cg b'R' today make_def none).params
        ≡ record { exit_code = 0; params = (configure cg b'R' today make_def none).params })
configure_R_example = configure_R cg today make_def none no_file_R

abbrev two_lines : Text
two_lines = codes "CC = gcc" ++ (10 ∷ codes "CFLAGS = -O3")

-- The last line has no newline, and loses its last character.
test_last_line : check_line (codes "CFLAGS = -O3") (codes "CFLAGS") [] ≡ some (codes "-O")
unfolding check_line check_label check_sign take_value chop ends_with_backslash
test_last_line = refl

test_main : (main (codes "CG" ∷ codes "A" ∷ []) today none none).exit_code ≡ 1
unfolding main get_info first_char configure check_info read_info write_info write_benchmark_info
    write_cg_info cg_size write_convertdouble_info write_compiler_info
test_main = refl

power-ipow46_example :
    (power 1220703125 1000 ≡ some (1220703125 ^ 1000 % 2 ^ 46))
    × (ipow46 1220703125 1000 ≡ some (1220703125 ^ 1000 % 2 ^ 46))
power-ipow46_example = power-ipow46 1220703125 1000

test_power : power 3 5 ≡ some 243
unfolding power power_loop randlc
test_power = refl

abbrev row : ℕ → Row
row n = record { ten = n; j1 = 0; j2 = n; j3 = 1 }

abbrev greater_than : ℕ → ℕ → Bool
greater_than x y = ltb y x

greater_than_asymmetric :
    (x y : ℕ)
    → out_of_order greater_than ltb true x y ≡ true
    → out_of_order greater_than ltb true y x ≡ false
greater_than_asymmetric x y e = ground (arith, e)

bubble_lem_example :
    InOrder greater_than ltb true
      (bubble greater_than ltb true (row 5 ∷ row 2 ∷ row 4 ∷ row 9 ∷ []))
    × Perm
        (bubble greater_than ltb true (row 5 ∷ row 2 ∷ row 4 ∷ row 9 ∷ []))
        (row 5 ∷ row 2 ∷ row 4 ∷ row 9 ∷ [])
bubble_lem_example =
    bubble_lem greater_than ltb true greater_than_asymmetric (row 5) (row 2 ∷ row 4 ∷ row 9 ∷ [])
      (refl, (refl, tt))

test_bubble :
    bubble greater_than ltb true (row 5 ∷ row 2 ∷ row 4 ∷ row 9 ∷ [])
    ≡ row 2 ∷ row 4 ∷ row 5 ∷ row 9 ∷ []
unfolding bubble
test_bubble = refl
