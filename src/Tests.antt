-- ===== src/Tests.antt =====
-- The program's definitions at concrete inputs.
pub mod Expressions
pub mod Norms
pub mod Calls
pub mod Linears
pub mod Memories
pub mod Plannings
pub mod Streams
pub mod Tunings
pub mod Caches
mod Histories
pub mod Workers
