-- ===== src/Alu/Vop2.antt =====
-- emulator/src/alu/alu_vop2.cpp: the vector instructions with two sources. Each instruction is a function
-- of the lane that it reads and writes, of the clamp flag or of VCC where it reads them, and of the
-- floating-point operations where it calls them.
pub mod Arith
pub mod Logic
pub mod Product
pub mod Float
pub mod Run
pub mod Registers
pub mod Carry
pub mod Select
