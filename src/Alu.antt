-- ===== src/Alu.antt =====
-- emulator/src/alu: the scalar instruction formats.
pub mod Sop2
pub mod Sop1
pub mod Sopc
pub mod Sopk
pub mod Sopp
pub mod Vop1
pub mod Vop2
pub mod Vop3
pub mod Vopc
pub mod Smem
pub mod Flat
pub mod Instr
