-- ===== src/Uart.antt =====
-- riscv-vm/src/devices/uart.rs: the serial port.
pub mod State
pub mod Mmio
pub mod Ready
pub mod Input
pub mod Interrupt
mod Tests
