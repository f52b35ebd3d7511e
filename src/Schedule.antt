-- ===== src/Schedule.antt =====
-- src/cpuattn/schedule and the host facts it plans for: plans, and the legal ones of a call.
pub mod Host
pub mod Plan
pub mod Align
pub mod Memory
pub mod Launch
