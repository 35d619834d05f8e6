-- ===== src/Engine.antt =====
-- riscv-vm/src/engine: the front end of the interpreter.
pub mod Decoder
pub mod Encode
pub mod Compressed
pub mod Expansion
pub mod Microop
pub mod Block
pub mod Cache
mod Tests
