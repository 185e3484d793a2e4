-- ===== src/Alu/Vop3.antt =====
-- emulator/src/alu/alu_vop3.cpp: the vector instructions with up to three sources. Each instruction is a
-- function of the lane that it reads and writes and of its `SRC2`, and of the clamp flag, VCC or the
-- lane's index where it reads them.
pub mod Arith
pub mod Bits
pub mod Multiply
pub mod Compare
pub mod Bytes
pub mod Run
pub mod Median
pub mod Extract
