-- ===== src/Npb/Params/Program.antt =====
-- sw/NPBhardposit/sys/setparams.c: `write_compiler_info`, `write_info`, `read_info` and `main` on the
-- two files. The date of the compilation is a parameter.
pub mod Settings
pub mod Chunks
use hardposit_fpga.Base.{
  ℕ, zero, suc, ◌+◌, ◌-◌, Bool, true, false, not, ◌&&◌, ◌||◌, Option, none, some, List, [], ◌∷◌,
  ◌++◌, ◌==◌, leb, if◌then◌else◌, ◌>>=◌,
}
use hardposit_fpga.Base.Texts.{Text, codes, isspace, skip_spaces}
use hardposit_fpga.Npb.Params.{Benchmark, sp, bt, lu, mg, ft, is, ep, cg, get_info, check_info}
use hardposit_fpga.Npb.Params.Lines.{check_line, put_def_string}
use hardposit_fpga.Npb.Params.Files.{Written, wrote, exited, newline, tab, ◌then_write◌, define}
use hardposit_fpga.Npb.Params.Files.Classes.{write_benchmark_info}

abbrev pub prepend : ℕ → List Text → List Text
prepend c [] = (c ∷ []) ∷ []
prepend c (l ∷ ls) = (c ∷ l) ∷ ls

-- What `fgets(line, 400, file)` returns, call by call: up to a newline, or 399 characters.
unfoldable pub fgets_all : ℕ → Text → List Text
fgets_all room [] = []
fgets_all room (c ∷ cs) = elim ((c == 10) || leb room 1) [
  | true ↦ (c ∷ []) ∷ fgets_all 399 cs
  | false ↦ prepend c (fgets_all (room - 1) cs)
]

-- The values of make.def that are written for some benchmark. F77 and the other Fortran values are
-- read in the same way, and not written; a continued line among them also ends the program.
pub record Compiler : Type 0 where
  pub rand : Text
  pub cc : Text
  pub cflags : Text
  pub clink : Text
  pub clinkflags : Text
  pub c_lib : Text
  pub c_inc : Text

abbrev fortran_labels : List Text
fortran_labels =
    codes "F77"
    ∷ codes "FLINK"
    ∷ codes "F_LIB"
    ∷ codes "F_INC"
    ∷ codes "FFLAGS"
    ∷ codes "FLINKFLAGS"
    ∷ []

-- The calls of `check_line` whose values are dropped: whether they all return.
abbrev all_return : Text → List Text → Bool
all_return line [] = true
all_return line (l ∷ ls) = elim (check_line line l []) [
  | none ↦ false
  | some _ ↦ all_return line ls
]

abbrev defaults : Compiler
defaults =
    let message = codes "(none)" in
    record {
      rand = message;
      cc = message;
      cflags = message;
      clink = message;
      clinkflags = message;
      c_lib = message;
      c_inc = message;
    }

unfoldable pub read_line : Text → Compiler → Option Compiler
read_line line k = if not (all_return line fortran_labels) then none else do
  rand ← check_line line (codes "RAND") k.rand
  cc ← check_line line (codes "CC") k.cc
  cflags ← check_line line (codes "CFLAGS") k.cflags
  clink ← check_line line (codes "CLINK") k.clink
  clinkflags ← check_line line (codes "CLINKFLAGS") k.clinkflags
  c_lib ← check_line line (codes "C_LIB") k.c_lib
  c_inc ← check_line line (codes "C_INC") k.c_inc
  some (record {
    rand = rand;
    cc = cc;
    cflags = cflags;
    clink = clink;
    clinkflags = clinkflags;
    c_lib = c_lib;
    c_inc = c_inc;
  })

-- The loop over the lines; a line that starts with a hash is skipped.
unfoldable pub read_lines : List Text → Compiler → Option Compiler
read_lines [] k = some k
read_lines ([] ∷ ls) k = do k' ← read_line [] k; read_lines ls k'
read_lines ((c ∷ cs) ∷ ls) k = do
  k' ← if c == b'#' then some k else read_line (c ∷ cs) k
  read_lines ls k'

abbrev print_compiler : Benchmark → Text → Compiler → Text
print_compiler is date k =
    put_def_string (codes "COMPILETIME") date
    ++ put_def_string (codes "NPBVERSION") (codes "3.0 structured")
    ++ put_def_string (codes "CC") k.cc
    ++ put_def_string (codes "CFLAGS") k.cflags
    ++ put_def_string (codes "CLINK") k.clink
    ++ put_def_string (codes "CLINKFLAGS") k.clinkflags
    ++ put_def_string (codes "C_LIB") k.c_lib
    ++ put_def_string (codes "C_INC") k.c_inc
print_compiler _ date k =
    put_def_string (codes "COMPILETIME") date
    ++ put_def_string (codes "NPBVERSION") (codes "3.0 structured")
    ++ put_def_string (codes "CS1") k.cc
    ++ put_def_string (codes "CS2") k.clink
    ++ put_def_string (codes "CS3") k.c_lib
    ++ put_def_string (codes "CS4") k.c_inc
    ++ put_def_string (codes "CS5") k.cflags
    ++ put_def_string (codes "CS6") k.clinkflags
    ++ put_def_string (codes "CS7") k.rand

-- make.def, if it exists.
unfoldable pub write_compiler_info : Benchmark → Text → Option Text → Written
write_compiler_info b date none = exited
write_compiler_info b date (some def) = elim (read_lines (fgets_all 399 def) defaults) [
  | none ↦ exited
  | some k ↦ wrote (print_compiler b date k)
]

-- The build without CONVERTDOUBLE.
unfoldable pub write_convertdouble_info : Benchmark → Written
write_convertdouble_info is = wrote []
write_convertdouble_info _ = wrote (define (codes "CONVERTDOUBLE") (codes "FALSE"))

-- The line of the class, whose percent sign and c stand for it: DESC_LINE and DEF_CLASS_LINE.
abbrev pub class_line : Benchmark → Text
class_line is = codes "#define CLASS '%c'" ++ newline
class_line _ = codes "/* CLASS = %c */" ++ newline

-- `fprintf` of a line with one `%c`.
abbrev pub print_char : ℕ → Text → Text
print_char c [] = []
print_char c (f ∷ []) = f ∷ []
print_char c (f ∷ g ∷ fs) =
    if (f == b'%') && (g == b'c') then c ∷ print_char c fs else f ∷ print_char c (g ∷ fs)

-- `fscanf` of a line with one `%c`: white space in the format stands for any amount of it.
abbrev pub scan_char : Text → Text → Option ℕ
scan_char [] cs = none
scan_char (f ∷ []) cs = none
scan_char (f ∷ g ∷ fs) cs = elim (isspace f) [
  | true ↦ scan_char (g ∷ fs) (skip_spaces cs)
  | false ↦ elim cs [
    | [] ↦ none
    | c ∷ cs' ↦ elim ((f == b'%') && (g == b'c')) [
      | true ↦ some c
      | false ↦ elim (c == f) [ true ↦ scan_char (g ∷ fs) cs' | false ↦ none ]
    ]
  ]
]

abbrev pub warning : Benchmark → Text
warning is =
    codes "/*"
    ++ newline
    ++ codes "   This file is generated automatically by the setparams utility."
    ++ newline
    ++ codes "   It sets the number of processors and the problem_class of the NPB"
    ++ newline
    ++ codes "   in this directory. Do not modify it by hand.   */"
    ++ newline
    ++ codes "   "
    ++ newline
warning _ =
    codes "/*"
    ++ newline
    ++ codes "c  This file is generated automatically by the setparams utility."
    ++ newline
    ++ codes "c  It sets the number of processors and the problem_class of the NPB"
    ++ newline
    ++ codes "c  in this directory. Do not modify it by hand."
    ++ newline
    ++ codes "*/"
    ++ newline

-- The content of npbparams.h after `write_info`, which truncates it first.
unfoldable pub write_info : Benchmark → ℕ → Text → Option Text → Written
write_info b c date def =
    wrote (print_char c (class_line b) ++ warning b)
    then_write write_benchmark_info b c
    then_write write_convertdouble_info b
    then_write write_compiler_info b date def

-- The class in npbparams.h; `X` if there is no file, or if it cannot be parsed.
unfoldable pub read_info : Benchmark → Option Text → ℕ
read_info b none = b'X'
read_info b (some old) = elim (scan_char (class_line b) old) [ none ↦ b'X' | some c ↦ c ]

-- The exit code, and npbparams.h.
pub record Finished : Type 0 where
  pub exit_code : ℕ
  pub params : Option Text

-- `main` with the directory writable; `name` and `problem_class` are the two arguments. An argument
-- that is empty gives the character zero.
unfoldable pub first_char : Text → ℕ
first_char [] = 0
first_char (c ∷ _) = c

unfoldable pub configure : Benchmark → ℕ → Text → Option Text → Option Text → Finished
configure b c date def old =
    if c == b'U'
    then record { exit_code = 1; params = old }
    else if not (check_info c)
    then record { exit_code = 1; params = old }
    else if not (c == read_info b old)
    then (let w = write_info b c date def in
        record { exit_code = if w.returned then 0 else 1; params = some w.text })
    else record { exit_code = 0; params = old }

unfoldable pub main : List Text → Text → Option Text → Option Text → Finished
main (name ∷ problem_class ∷ []) date def old = elim (get_info name) [
  | none ↦ record { exit_code = 1; params = old }
  | some b ↦ configure b (first_char problem_class) date def old
]
main _ date def old = record { exit_code = 1; params = old }
