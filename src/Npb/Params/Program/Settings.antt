-- ===== src/Npb/Params/Program/Settings.antt =====
-- The class in npbparams.h: what a run leaves, and what the next run makes of it.
use mathlib.Core.List.{append_assoc}
use hardposit_fpga.Base.{
  ℕ, ◌≡◌, ◌≢◌, refl, ap, ◌∙◌, true, false, ◌&&◌, Option, none, some, ◌++◌, ◌==◌, if◌then◌else◌, ◌⊎◌,
  arith,
}
use hardposit_fpga.Base.Texts.{Text, isspace}
use hardposit_fpga.Npb.Params.{Benchmark, sp, bt, lu, mg, ft, is, ep, cg, check_info}
use hardposit_fpga.Npb.Params.Files.{Written, ◌then_write◌}
use hardposit_fpga.Npb.Params.Files.Classes.{
  write_benchmark_info, is_sized, write_benchmark_info_lem,
}
use hardposit_fpga.Npb.Params.Program.{
  print_char, scan_char, class_line, write_info, write_convertdouble_info, write_compiler_info,
  warning, read_info, configure,
}

-- The class that was printed is scanned, whatever follows.
scan_char-print_char :
    (b : Benchmark) (c : ℕ) (more : Text)
    → isspace c ≡ false
    → scan_char (class_line b) (print_char c (class_line b) ++ more) ≡ some c
scan_char-print_char sp c more e = rw (e, scan_char) refl
scan_char-print_char bt c more e = rw (e, scan_char) refl
scan_char-print_char lu c more e = rw (e, scan_char) refl
scan_char-print_char mg c more e = rw (e, scan_char) refl
scan_char-print_char ft c more e = rw (e, scan_char) refl
scan_char-print_char is c more e = refl
scan_char-print_char ep c more e = rw (e, scan_char) refl
scan_char-print_char cg c more e = rw (e, scan_char) refl

known-not-space : (c : ℕ) → check_info c ≡ true → isspace c ≡ false
unfolding check_info
known-not-space c e = ground (arith, e)

known-not-unknown : (c : ℕ) → check_info c ≡ true → (c == b'U') ≡ false
unfolding check_info
known-not-unknown c e = ground (arith, e)

-- What `write_info` writes behind the warning.
abbrev behind : Benchmark → ℕ → Text → Option Text → Written
behind b c date def =
    write_benchmark_info b c
    then_write write_convertdouble_info b
    then_write write_compiler_info b date def

read_info-write_info :
    (b : Benchmark) (c : ℕ) (date : Text) (def : Option Text)
    → check_info c ≡ true
    → read_info b (some (write_info b c date def).text) ≡ c
unfolding read_info write_info
read_info-write_info b c date def e =
    let line = print_char c (class_line b) in
    let more = (behind b c date def).text in
    ap (λ (o : Option ℕ). elim o [ none ↦ b'X' | some d ↦ d ])
      (ap (scan_char (class_line b)) (append_assoc line (warning b) more)
        ∙ scan_char-print_char b c (warning b ++ more) (known-not-space c e))

module _ (b : Benchmark) (c : ℕ) (date : Text) (def old : Option Text) where
  -- Whenever setparams exits with 0 for a benchmark and a class, the class is the one that
  -- `read_info` finds in npbparams.h afterwards.
  pub configure_reads :
      (configure b c date def old).exit_code ≡ 0
      → read_info b (configure b c date def old).params ≡ c
  unfolding configure
  configure_reads e = ground (arith, e, read_info-write_info b c date def)

  -- For class U, and for a class that `check_info` refuses, setparams exits with 1 and leaves
  -- npbparams.h as it was.
  pub configure_refuses :
      (c ≡ b'U') ⊎ (check_info c ≡ false)
      → configure b c date def old ≡ record { exit_code = 1; params = old }
  unfolding configure
  configure_refuses e = ground (arith, e)

  -- For a class that `check_info` accepts: after a run of setparams, whatever its exit code and
  -- whatever make.def says then, a second run with the same benchmark and class exits with 0 and
  -- leaves npbparams.h as it was.
  pub configure-configure :
      (date' : Text) (def' : Option Text)
      → check_info c ≡ true
      → configure b c date' def' (configure b c date def old).params
        ≡ record { exit_code = 0; params = (configure b c date def old).params }
  unfolding configure
  configure-configure date' def' e =
      ground (arith, e, known-not-unknown c e, read_info-write_info b c date def)

  configure_exits :
      check_info c ≡ true
      → read_info b old ≢ c
      → (configure b c date def old).exit_code
        ≡ (if (write_info b c date def).returned then 0 else 1)
  unfolding configure
  configure_exits e ne = ground (arith, e, ne, known-not-unknown c e)

convertdouble-returned : (b : Benchmark) → (write_convertdouble_info b).returned ≡ true
unfolding write_convertdouble_info
convertdouble-returned is = refl
convertdouble-returned sp = refl
convertdouble-returned bt = refl
convertdouble-returned lu = refl
convertdouble-returned mg = refl
convertdouble-returned ft = refl
convertdouble-returned ep = refl
convertdouble-returned cg = refl

write_info-returned :
    (b : Benchmark) (c : ℕ) (date : Text) (def : Option Text)
    → (write_info b c date def).returned ≡ (is_sized c && (write_compiler_info b date def).returned)
unfolding write_info write_convertdouble_info
write_info-returned b c date def =
    let sized = write_benchmark_info_lem b c in
    let converted : (write_convertdouble_info b).returned ≡ true = convertdouble-returned b in
    ground (arith, sized, converted)

-- For a class that `check_info` accepts and that is not the one in npbparams.h, setparams exits
-- with 0 if the class is one of S, W, A, B and C and `write_compiler_info` returns, and with 1 if
-- not.
pub configure_lem :
    (b : Benchmark) (c : ℕ) (date : Text) (def old : Option Text)
    → check_info c ≡ true
    → read_info b old ≢ c
    → (configure b c date def old).exit_code
      ≡ (if is_sized c && (write_compiler_info b date def).returned then 0 else 1)
configure_lem b c date def old e ne =
    configure_exits b c date def old e ne
    ∙ ap (λ r. if r then 0 else 1) (write_info-returned b c date def)

-- For class R, if it is not the one in npbparams.h: setparams exits with 1 after it has written
-- npbparams.h, and the same run a second time exits with 0 and leaves the file as it was.
pub configure_R :
    (b : Benchmark) (date : Text) (def old : Option Text)
    → read_info b old ≢ b'R'
    → ((configure b b'R' date def old).exit_code ≡ 1)
      × (configure b b'R' date def (configure b b'R' date def old).params
          ≡ record { exit_code = 0; params = (configure b b'R' date def old).params })
unfolding write_info check_info
configure_R b date def old ne =
    let fails : (write_benchmark_info b b'R').returned ≡ false = write_benchmark_info_lem b b'R' in
    let stops : (write_info b b'R' date def).returned ≡ false = ground (arith, fails) in
    (
      configure_exits b b'R' date def old known ne ∙ ap (λ r. if r then 0 else 1) stops,
      configure-configure b b'R' date def old date def known,
    )
  where
    known : check_info b'R' ≡ true
    known = refl
