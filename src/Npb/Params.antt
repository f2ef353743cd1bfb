-- ===== src/Npb/Params.antt =====
-- sw/NPBhardposit/sys/setparams.c: the benchmarks and classes, the options of the command line, and
-- the logarithm. Printing to the terminal is left out: an error is its exit code.
pub mod Lines
pub mod Files
pub mod Program
pub mod Logarithm
use hardposit_fpga.Base.{
  ℕ, zero, suc, ◌+◌, ◌*◌, Bool, true, false, not, ◌&&◌, ◌||◌, Option, none, some, ◌==◌,
  if◌then◌else◌,
}
use hardposit_fpga.Base.Numbers.{ℤ, pos, negsuc}
use hardposit_fpga.Base.Texts.{Text, codes, same_text}

-- `enum benchmark_types`
pub data Benchmark : Type 0 where
  sp bt lu mg ft is ep cg : Benchmark

abbrev either : Text → Text → Text → Bool
either a lower upper = same_text a lower || same_text a upper

-- `get_info`: the type by the name, or `exit(1)`.
unfoldable pub get_info : Text → Option Benchmark
get_info a =
    if either a (codes "sp") (codes "SP")
    then some sp
    else if either a (codes "bt") (codes "BT")
    then some bt
    else if either a (codes "ft") (codes "FT")
    then some ft
    else if either a (codes "lu") (codes "LU")
    then some lu
    else if either a (codes "mg") (codes "MG")
    then some mg
    else if either a (codes "is") (codes "IS")
    then some is
    else if either a (codes "ep") (codes "EP")
    then some ep
    else if either a (codes "cg") (codes "CG")
    then some cg
    else none

-- `check_info`: false is `exit(1)`.
unfoldable pub check_info : ℕ → Bool
check_info c = not (
    not (c == b'S')
    && not (c == b'A')
    && not (c == b'B')
    && not (c == b'R')
    && not (c == b'W')
    && not (c == b'C'))

-- The loop of `ilog2`, with the rounds that are left.
unfoldable pub ilog2_loop : ℕ → ℕ → ℕ → ℕ → ℤ
ilog2_loop zero log2 exp2 i = negsuc 0
ilog2_loop (suc n) log2 exp2 i =
    let later = ilog2_loop n (suc log2) (exp2 * 2) i in if exp2 == i then pos log2 else later

unfoldable pub ilog2 : ℤ → ℤ
ilog2 (negsuc i) = negsuc 0
ilog2 (pos i) = if i == 0 then negsuc 0 else ilog2_loop 20 0 1 i
