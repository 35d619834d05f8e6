-- ===== src/Dram.antt =====
-- riscv-vm/src/dram.rs: the errors of memory and device accesses.
use bavy.Prelude.{ℕ}

pub data MemoryError : Type 0 where
  out_of_bounds : ℕ → MemoryError
  invalid_alignment : ℕ → MemoryError
