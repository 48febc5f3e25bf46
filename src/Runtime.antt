-- ===== src/Runtime.antt =====
-- app/runtime: the bounded managers of a guided run.
pub mod Managers
pub mod Bounds
mod Samples
