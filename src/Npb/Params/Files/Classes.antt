-- ===== src/Npb/Params/Files/Classes.antt =====
-- The writers for CG, FT and EP, the choice by benchmark, and which classes they know.
use hardposit_fpga.Base.{
  ℕ, ◌*◌, ◌≡◌, Bool, ◌||◌, Option, none, some, [], ◌∷◌, ◌++◌, ◌==◌, ltb, if◌then◌else◌, arith,
}
use hardposit_fpga.Base.Texts.{Text, codes, decimal}
use hardposit_fpga.Npb.Params.{Benchmark, sp, bt, lu, mg, ft, is, ep, cg}
use hardposit_fpga.Npb.Params.Files.{
  Written, wrote, exited, newline, tab, define, sp_size, bt_size, lu_size, mg_size, write_sp_info,
  write_bt_info, write_lu_info, write_mg_info, write_is_info,
}

pub record Gradient : Type 0 where
  pub na : ℕ
  pub nonzer : ℕ
  pub niter : ℕ
  pub shift : Text

abbrev gradient : ℕ → ℕ → ℕ → Text → Option Gradient
gradient na nonzer niter shift =
    some (record { na = na; nonzer = nonzer; niter = niter; shift = shift })

unfoldable pub cg_size : ℕ → Option Gradient
cg_size c =
    if c == b'S'
    then gradient 1400 7 15 (codes "10.0")
    else if c == b'W'
    then gradient 7000 8 15 (codes "12.0")
    else if c == b'A'
    then gradient 14000 11 15 (codes "20.0")
    else if c == b'B'
    then gradient 75000 13 75 (codes "60.0")
    else if c == b'C'
    then gradient 150000 15 75 (codes "110.0")
    else none

abbrev print_cg : Option Gradient → Written
print_cg none = exited
print_cg (some g) = wrote (
    define (codes "NA") (decimal g.na)
    ++ define (codes "NONZER") (decimal g.nonzer)
    ++ define (codes "NITER") (decimal g.niter)
    ++ define (codes "SHIFT") g.shift
    ++ define (codes "RCOND") (codes "1.0e-1"))

unfoldable pub write_cg_info : ℕ → Written
write_cg_info c = print_cg (cg_size c)

pub record Grid : Type 0 where
  pub nx : ℕ
  pub ny : ℕ
  pub nz : ℕ
  pub niter : ℕ

abbrev grid : ℕ → ℕ → ℕ → ℕ → Option Grid
grid nx ny nz niter = some (record { nx = nx; ny = ny; nz = nz; niter = niter })

unfoldable pub ft_size : ℕ → Option Grid
ft_size c =
    if c == b'S'
    then grid 64 64 64 6
    else if c == b'W'
    then grid 128 128 32 6
    else if c == b'A'
    then grid 256 256 128 6
    else if c == b'B'
    then grid 512 256 256 20
    else if c == b'C'
    then grid 512 512 512 20
    else none

-- `maxdim = nx; if (ny > maxdim) maxdim = ny; if (nz > maxdim) maxdim = nz;`
unfoldable pub max_dimension : Grid → ℕ
max_dimension g = let m = if ltb g.nx g.ny then g.ny else g.nx in if ltb m g.nz then g.nz else m

abbrev print_ft : Option Grid → Written
print_ft none = exited
print_ft (some g) = wrote (
    define (codes "NX") (decimal g.nx)
    ++ define (codes "NY") (decimal g.ny)
    ++ define (codes "NZ") (decimal g.nz)
    ++ define (codes "MAXDIM") (decimal (max_dimension g))
    ++ define (codes "NITER_DEFAULT") (decimal g.niter)
    ++ define (codes "NTOTAL") (decimal (g.nx * g.ny * g.nz)))

unfoldable pub write_ft_info : ℕ → Written
write_ft_info c = print_ft (ft_size c)

unfoldable pub ep_size : ℕ → Option ℕ
ep_size c =
    if c == b'S'
    then some 24
    else if c == b'W'
    then some 25
    else if c == b'A'
    then some 28
    else if c == b'B'
    then some 30
    else if c == b'C'
    then some 32
    else none

abbrev print_ep : ℕ → Option ℕ → Written
print_ep c none = exited
print_ep c (some m) = wrote (
    codes "#define"
    ++ tab
    ++ codes "CLASS"
    ++ tab
    ++ codes " '"
    ++ (c ∷ [])
    ++ codes "'"
    ++ newline
    ++ define (codes "M") (decimal m))

unfoldable pub write_ep_info : ℕ → Written
write_ep_info c = print_ep c (ep_size c)

-- The benchmark-specific part of `write_info`.
unfoldable pub write_benchmark_info : Benchmark → ℕ → Written
write_benchmark_info sp c = write_sp_info c
write_benchmark_info bt c = write_bt_info c
write_benchmark_info lu c = write_lu_info c
write_benchmark_info mg c = write_mg_info c
write_benchmark_info is c = write_is_info c
write_benchmark_info ft c = write_ft_info c
write_benchmark_info ep c = write_ep_info c
write_benchmark_info cg c = write_cg_info c

-- The classes with parameters.
abbrev pub is_sized : ℕ → Bool
is_sized c = (c == b'S') || (c == b'W') || (c == b'A') || (c == b'B') || (c == b'C')

-- For each of the eight benchmarks and every class, the writer of the benchmark's parameters
-- returns exactly for the classes S, W, A, B and C, and otherwise ends the program.
pub write_benchmark_info_lem :
    (b : Benchmark) (c : ℕ) → (write_benchmark_info b c).returned ≡ is_sized c
unfolding write_benchmark_info write_sp_info write_bt_info write_lu_info write_mg_info write_is_info
    write_ft_info write_ep_info write_cg_info sp_size bt_size lu_size mg_size ft_size ep_size
    cg_size
write_benchmark_info_lem sp c = ground arith
write_benchmark_info_lem bt c = ground arith
write_benchmark_info_lem lu c = ground arith
write_benchmark_info_lem mg c = ground arith
write_benchmark_info_lem is c = ground arith
write_benchmark_info_lem ft c = ground arith
write_benchmark_info_lem ep c = ground arith
write_benchmark_info_lem cg c = ground arith
