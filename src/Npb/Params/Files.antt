-- ===== src/Npb/Params/Files.antt =====
-- sw/NPBhardposit/sys/setparams.c: what the writers put into npbparams.h for a benchmark and a class.
pub mod Classes
use hardposit_fpga.Base.{
  ℕ, zero, suc, ◌+◌, ◌-◌, ◌*◌, Bool, true, false, not, ◌&&◌, ◌||◌, Option, none, some, List, [],
  ◌∷◌, ◌++◌, ◌==◌, ltb, leb, if◌then◌else◌, ◌>>=◌,
}
use hardposit_fpga.Base.Numbers.{ℤ, pos, negsuc}
use hardposit_fpga.Base.Texts.{Text, codes, decimal}
use hardposit_fpga.Npb.Params.{Benchmark, sp, bt, lu, mg, ft, is, ep, cg, ilog2}
use hardposit_fpga.Npb.Params.Lines.{check_line, put_def_string}

-- What a writer put into the file, and whether it returned; otherwise it called `exit(1)`, which
-- keeps what was written.
pub record Written : Type 0 where
  pub text : Text
  pub returned : Bool

abbrev pub wrote : Text → Written
wrote t = record { text = t; returned = true }

abbrev pub exited : Written
exited = record { text = []; returned = false }

infixr 6 ◌then_write◌
abbrev pub ◌then_write◌ : Written → Written → Written
v then_write w = if v.returned then record { text = v.text ++ w.text; returned = w.returned } else v

abbrev pub newline : Text
newline = 10 ∷ []

abbrev pub tab : Text
tab = 9 ∷ []

-- `#define\t<name>\t<value>\n`
abbrev pub define : Text → Text → Text
define name value = codes "#define" ++ tab ++ name ++ tab ++ value ++ newline

abbrev pub print_int : ℤ → Text
print_int (pos n) = decimal n
print_int (negsuc n) = b'-' ∷ decimal (suc n)

-- The parameters of SP and BT.
pub record Solver : Type 0 where
  pub problem_size : ℕ
  pub dt : Text
  pub niter : ℕ

abbrev solver : ℕ → Text → ℕ → Option Solver
solver size dt niter = some (record { problem_size = size; dt = dt; niter = niter })

unfoldable pub sp_size : ℕ → Option Solver
sp_size c =
    if c == b'S'
    then solver 12 (codes "0.015") 100
    else if c == b'W'
    then solver 36 (codes "0.0015") 400
    else if c == b'A'
    then solver 64 (codes "0.0015") 400
    else if c == b'B'
    then solver 102 (codes "0.001") 400
    else if c == b'C'
    then solver 162 (codes "0.00067") 400
    else none

unfoldable pub bt_size : ℕ → Option Solver
bt_size c =
    if c == b'S'
    then solver 12 (codes "0.010") 60
    else if c == b'W'
    then solver 24 (codes "0.0008") 200
    else if c == b'A'
    then solver 64 (codes "0.0008") 200
    else if c == b'B'
    then solver 102 (codes "0.0003") 200
    else if c == b'C'
    then solver 162 (codes "0.0001") 200
    else none

abbrev pub print_solver : Option Solver → Written
print_solver none = exited
print_solver (some s) = wrote (
    define (codes "PROBLEM_SIZE") (decimal s.problem_size)
    ++ define (codes "NITER_DEFAULT") (decimal s.niter)
    ++ define (codes "DT_DEFAULT") s.dt)

unfoldable pub write_sp_info : ℕ → Written
write_sp_info c = print_solver (sp_size c)

unfoldable pub write_bt_info : ℕ → Written
write_bt_info c = print_solver (bt_size c)

unfoldable pub lu_size : ℕ → Option Solver
lu_size c =
    if c == b'S'
    then solver 12 (codes "0.5") 50
    else if c == b'W'
    then solver 33 (codes "1.5e-3") 300
    else if c == b'A'
    then solver 64 (codes "2.0") 250
    else if c == b'B'
    then solver 102 (codes "2.0") 250
    else if c == b'C'
    then solver 162 (codes "2.0") 250
    else none

abbrev pub print_lu : Option Solver → Written
print_lu none = exited
print_lu (some s) = wrote (
    newline
    ++ codes "/* full problem size */"
    ++ newline
    ++ define (codes "ISIZ1") (decimal s.problem_size)
    ++ define (codes "ISIZ2") (decimal s.problem_size)
    ++ define (codes "ISIZ3") (decimal s.problem_size)
    ++ codes "/* number of iterations and how often to print the norm */"
    ++ newline
    ++ define (codes "ITMAX_DEFAULT") (decimal s.niter)
    ++ define (codes "INORM_DEFAULT") (decimal s.niter)
    ++ define (codes "DT_DEFAULT") s.dt)

unfoldable pub write_lu_info : ℕ → Written
write_lu_info c = print_lu (lu_size c)

-- The problem size and the iterations of MG.
unfoldable pub mg_size : ℕ → Option (ℕ × ℕ)
mg_size c =
    if c == b'S'
    then some (32, 4)
    else if c == b'W'
    then some (64, 40)
    else if c == b'A'
    then some (256, 4)
    else if c == b'B'
    then some (256, 20)
    else if c == b'C'
    then some (512, 20)
    else none

abbrev pub print_mg : Option (ℕ × ℕ) → Written
print_mg none = exited
print_mg (some (problem_size, nit)) =
    let log2_size = print_int (ilog2 (pos problem_size)) in
    wrote (
      define (codes "NX_DEFAULT") (decimal problem_size)
      ++ define (codes "NY_DEFAULT") (decimal problem_size)
      ++ define (codes "NZ_DEFAULT") (decimal problem_size)
      ++ define (codes "NIT_DEFAULT") (decimal nit)
      ++ define (codes "LM") log2_size
      ++ define (codes "LT_DEFAULT") log2_size
      ++ define (codes "DEBUG_DEFAULT") (decimal 0)
      ++ define (codes "NDIM1") log2_size
      ++ define (codes "NDIM2") log2_size
      ++ define (codes "NDIM3") log2_size)

unfoldable pub write_mg_info : ℕ → Written
write_mg_info c = print_mg (mg_size c)

-- IS has no parameters of its own.
unfoldable pub write_is_info : ℕ → Written
write_is_info c =
    if not (c == b'S') && not (c == b'W') && not (c == b'A') && not (c == b'B') && not (c == b'C')
    then exited
    else wrote []
