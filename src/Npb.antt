-- ===== src/Npb.antt =====
-- The NAS benchmarks under sw/NPBhardposit: the code that they share.
pub mod Random
pub mod Params
pub mod Cg
pub mod Mg
pub mod Ft
pub mod Powers
pub mod Bubble
pub mod Tests
