-- ===== src/Alu/Sop1.antt =====
-- emulator/src/alu/alu_sop1.cpp. Each instruction is a function of `WfStateSOP1` in a child module.
pub mod Exec
pub mod Count
pub mod Move
pub mod Mask
pub mod Jump
pub mod Run
pub mod Search
pub mod Ones
pub mod Lanes
pub mod Sources
