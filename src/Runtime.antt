-- ===== src/Runtime.antt =====
-- sw/Hardposit: the state of the host library and the operations of class Hardposit.
pub mod State
pub mod Slots
pub mod Objects
pub mod Compute
pub mod Operators
pub mod Mixed
pub mod Session
pub mod Invariant
pub mod Program
pub mod Tests
