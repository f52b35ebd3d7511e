-- ===== src/Native.antt =====
-- src/cpuattn/native: what the compiler side decides before any code is built.
pub mod Lowering
pub mod Backend
pub mod Planning
