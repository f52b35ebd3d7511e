-- ===== src/Runtime.antt =====
-- src/cpuattn/runtime.py: the orchestrator's decisions about cache-backed decoding.
pub mod Lengths
pub mod Workspace
pub mod Packing
