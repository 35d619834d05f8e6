-- ===== src/Cpu.antt =====
-- riscv-vm/src/cpu: the privilege modes and traps, and the control and status registers.
pub mod Types
pub mod Csr
pub mod State
pub mod Trap
pub mod Execute
pub mod Blocks
mod Tests
