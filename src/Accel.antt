-- ===== src/Accel.antt =====
-- The contract between the host library and the accelerator: sizes, request words, device.
pub mod Config
pub mod Request
pub mod Device
