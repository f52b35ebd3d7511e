-- ===== src/Tuning.antt =====
-- src/cpuattn/tuning: the tuner's measurements and its choice.
pub mod Tuner
pub mod Winner
pub mod Least
pub mod Names
pub mod Fresh
pub mod Cache
pub mod Anchors
pub mod Anchored
pub mod WorkerCount
pub mod Representatives
