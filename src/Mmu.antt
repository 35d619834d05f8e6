-- ===== src/Mmu.antt =====
-- riscv-vm/src/mmu.rs: the TLB and the Sv39/Sv48 translation.
pub mod Tlb
pub mod Pte
pub mod Translate
mod Tests
