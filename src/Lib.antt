-- ===== src/Lib.antt =====
-- The host library of a posit accelerator on an FPGA, and the benchmarks that use it.
--
-- Parts and files:
-- * sw/Hardposit/include/config.h is Accel/Config.antt: the sizes of the request ring and the
--   address macros. The request word that `Hardposit::compute` writes to CSR 16 and the fields
--   that hw/rtl/Posit.sv takes from it are Accel/Request.antt, with the round trip in
--   Accel/Request/Fields.antt. The accelerator as the host sees it (operand fetch by the rules of
--   src/main/scala/POSIT_Locality.scala, a register and a result line per entry) is
--   Accel/Device.antt, with Accel/Device/Fetch.antt on operand fetch.
-- * sw/Hardposit/src/hardposit.cpp and sw/Hardposit/include/hardposit.h are under Runtime:
--   State.antt (objects by address, slot table, counters, globals), Slots.antt
--   (`get_val_at_slot`, `get_val`), Objects.antt (constructors, destructor, assignments, unary
--   minus), Compute.antt (`compute` in the builds REUSE, NOREUSE and BASELINE), Operators.antt
--   (members), Mixed.antt (operators with numbers), Session.antt (`init_accel`, `close_accel`,
--   `poll_performance`).
-- * Runtime/Invariant.antt says what the slot table, the objects and the device agree on; its
--   children take the operations one by one. Runtime/Program.antt runs client programs by the
--   library and by a store of plain numbers, and its children compare the two.
-- * sw/NPBhardposit/common/c_randdp.c is Npb/Random.antt (`randlc`, `vranlc` for doubles and for
--   Hardposit), with the sequence of numbers in its children. sw/NPBhardposit/sys/setparams.c is
--   Npb/Params.antt (names, classes, `ilog2`), Npb/Params/Lines.antt (lines of make.def and
--   definitions), Npb/Params/Files.antt and Npb/Params/Files/Classes.antt (what is written for
--   each benchmark and class) and Npb/Params/Program.antt (`write_info`, `read_info`, `main`, for
--   a directory that can be written to). Of sw/NPBhardposit/CG/cg.cpp, Npb/Cg.antt has the sparse
--   vectors (`sprnvc`, `icnvrt`, `vecset`), Npb/Cg/Make.antt `makea` up to its call of `sparse`,
--   and Npb/Cg/Sparse.antt `sparse` up to its bucket sort; a loop over the arrays is `times` on
--   the state that it changes, and the children take the phases one by one. The grids of
--   sw/NPBhardposit/MG/mg.cpp and `psinv`, `resid`, `rprj3`, `interp`, `comm3` and `zero3` are
--   Npb/Mg.antt, with the loops in Mg/Sweep.antt, the borders in Mg/Borders.antt the operators
--   without their work rows in Mg/Stencils.antt, against written-out stencils in
--   Mg/Operators.antt, and Mg/Interpolation.antt; Mg/Cycle.antt has `setup` and `mg3P`, and
--   Mg/Charges.antt `zran3`; Mg/Norm.antt has `norm2u3`, and Mg/Main.antt puts them together as
--   `main` does. The number of cycles, which main sets to 100, is any. Npb/Ft.antt has
--   `compute_initial_conditions` of sw/NPBhardposit/FT/ft.cpp. Further, `power` of
--   sw/NPBhardposit/MG/mg.cpp and `ipow46` of sw/NPBhardposit/FT/ft.cpp are Npb/Powers.antt.
--   `bubble` of MG/mg.cpp is Npb/Bubble.antt. Npb/Tests.antt and the Tests.antt below Npb/Cg,
--   Npb/Mg and Npb/Ft have the applications.
-- * csrc/test-compare.cpp, csrc/test-convert.cpp and csrc/test-arithmetic.cpp are Harness.antt,
--   with the meaning of their report in Harness/Outcomes.antt.
-- * Base.antt has Boolean tests, arrays as lists and memory as functions. Runtime/Tests.antt and
--   its children hold concrete states and applications of the theorems.
--
-- How state and operations correspond: a state is a record of the C++ globals and of the objects
-- by address; a call that may wait for the device returns an option, `none` being a wait without
-- end; a call is a function from state to state. An object that a function returns is built in
-- the caller's place, as compilers do for a named local. Machine words wrap where the source lets
-- them wrap: `global_counter`, the statistics and the counter at 64 bits, the ring pointer at 8
-- bits. The distance histogram and the performance counters are lists of the arrays' lengths.
--
-- Doubles that hold integers are those integers, and their scaling by a power of two followed by
-- a cast is a division; the bounds that make this exact are proved. Texts are lists of character
-- codes; white space is that of the C locale. The numbers in the arrays of the benchmarks are of
-- any type, or the words that the objects stand for, with the operators as parameters: nothing is
-- supposed of the addition and the product, so every sum is in the order of the source. Plain
-- values stand for objects as long as no number is assigned to an object in a slot of the FPGA,
-- which is where the library loses track of it: the grids of MG are cleared and filled with
-- numbers when more than eight operations, all that the slots hold, have followed the last result
-- put into them, and the triples of CG are only multiplied and copied. The last phase of `sparse`
-- does assign to such objects, and is left out.
--
-- Parameters: the module that Verilator makes for the harness, the arithmetic unit (result and
-- flags of a request; the theorems on results suppose that its flags are never all zero, since
-- one comparison flag is always set), the OPAE library (accelerators found, buffer addresses,
-- reset), and the conversions and comparisons of SoftPosit.
--
-- Bounds: the fuel of `ceil_log2_from` is 16, enough for the sizes of config.h; that of `digits`
-- is 10, enough for an int; the fuel of `double_until` is n + 1, and n is reached by then;
-- `sprnvc` runs on fuel since the length of its loop hangs on the random numbers, and its result
-- for enough fuel is proved. The fuel of `power` and `ipow46` is the exponent, which is proved to
-- be enough. Nothing else runs on fuel.
--
-- Not modelled: the order of memory accesses between host and device (a request runs to its end
-- before the host looks at memory), the pipeline of the hardware, printing to the terminal, the
-- OPAE sample, SoftPosit, the last phase of `sparse`, conj_grad and the main programs of CG and
-- FT, what main of MG does beside the grids and the branch of interp for fine grids with a side
-- of 3, the transforms of FT, the solvers BT and LU, the timers, and the test generator.
pub mod Accel
pub mod Base
pub mod Harness
pub mod Npb
pub mod Runtime
