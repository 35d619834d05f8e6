-- ===== src/Clint.antt =====
-- riscv-vm/src/devices/clint.rs: the core local interruptor, timers and software interrupts.
pub mod State
pub mod Update
pub mod Mmio
pub mod Registers
pub mod Time
mod Tests
