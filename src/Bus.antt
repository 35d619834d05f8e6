-- ===== src/Bus.antt =====
-- riscv-vm/src/bus.rs: the `Bus` trait as the MMU sees it. A trait object behind `&dyn Bus` has
-- interior state: each call is given the state and returns the next one, also a load, which may
-- reach a device.
pub mod Atomic
use bavy.Prelude.{ℕ, Result}
use bavy.Cpu.Types.{Trap}

pub record Bus : Type 1 where
  pub State : Type 0
  -- load(addr, size) and store(addr, size, value).
  pub load : State → ℕ → ℕ → State × Result ℕ Trap
  pub store : State → ℕ → ℕ → ℕ → State × Result (Unit {0}) Trap
