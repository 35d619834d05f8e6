-- ===== src/Cpu/Execute.antt =====
-- riscv-vm/src/cpu/execution.rs: the interpreter, `step_single_inner`, in parts.
pub mod Alu
pub mod Monad
pub mod Memory
pub mod Atomic
pub mod System
pub mod Step
pub mod Poll
pub mod Timer
pub mod Hart
pub mod Keeps
pub mod Safe
pub mod Steps
pub mod Cached
pub mod Reserve
pub mod Shift
mod Tests
