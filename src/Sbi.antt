-- ===== src/Sbi.antt =====
-- riscv-vm/src/sbi: the supervisor binary interface.
pub mod Hsm
pub mod Ipi
mod Tests
