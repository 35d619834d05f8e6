-- ===== src/Plic.antt =====
-- riscv-vm/src/devices/plic.rs: the platform-level interrupt controller. Each method is one step on
-- a record that holds the state behind the mutex and the atomic caches.
pub mod State
pub mod Claim
pub mod Mmio
pub mod Snapshot
pub mod Coherent
pub mod Pending
pub mod Order
pub mod Complete
pub mod Registers
mod Tests
