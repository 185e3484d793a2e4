-- ===== src/Alu/Sop2.antt =====
-- emulator/src/alu/alu_sop2.cpp: the dispatch of `run_sop2`. Each instruction is a function of
-- `WfStateSOP2` in a child module.
pub mod Arith
pub mod Compare
pub mod Shift
pub mod Logic
pub mod Fork
pub mod Split
pub mod Run
pub mod Carry
pub mod Signed
pub mod Extract
pub mod HighProduct
