-- ===== src/Timer.antt =====
-- include/Timer.hpp.
pub mod Wheel
pub mod Ops
pub mod Reach
