-- ===== src/Cpu/Blocks.antt =====
-- riscv-vm/src/cpu/core.rs: the execution of compiled blocks.
pub mod Words
pub mod Micro
pub mod Same
pub mod Exec
pub mod Agree
pub mod Integer
pub mod Control
pub mod Memory
pub mod Step
pub mod Reference
pub mod Correct
pub mod Offsets
pub mod Range
pub mod Grow
pub mod Fetch
pub mod Reads
pub mod Compiled
pub mod Compiling
pub mod Illegal
pub mod Chain
pub mod Cached
pub mod Stored
mod Tests
