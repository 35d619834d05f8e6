-- ===== src/Cpu/Execute/Monad.antt =====
-- riscv-vm/src/cpu/core.rs, execution.rs: a part of an instruction, which takes the hart and the
-- bus and returns both with a value or a trap. The bus is the section's parameter.
use bavy.Prelude.{ℕ, Result, ok, err}
use bavy.Cpu.Types.{Trap}
use bavy.Cpu.Csr.{csr, csr_mstatus}
use bavy.Cpu.State.{Cpu, csr_satp, read_reg}
use bavy.Cpu.Trap.{handle_trap}
use bavy.Bus.{Bus}
use bavy.Mmu.Tlb.{AccessType}
use bavy.Mmu.Translate.{translate}

module _ (bus : Bus) where
  abbrev pub Exec : Type 0 → Type 0
  Exec A = Cpu → bus.State → Cpu × bus.State × Result A Trap

  abbrev pub pure : {A : Type 0} → A → Exec A
  pure a c m = (c, m, ok a)

  -- `x?`, and what follows.
  abbrev pub after :
      {A : Type 0} {B : Type 0}
      → (A → Exec B)
      → Cpu × bus.State × Result A Trap
      → Cpu × bus.State × Result B Trap
  after f (c, m, ok a) = f a c m
  after f (c, m, err t) = (c, m, err t)

  unfoldable pub bind : {A : Type 0} {B : Type 0} → Exec A → (A → Exec B) → Exec B
  bind x f c m = after f (x c m)

  -- `return self.handle_trap(trap, pc, ...)`.
  abbrev pub raise : {A : Type 0} → Trap → ℕ → Exec A
  raise trap pc c m = (handle_trap c trap pc, m, err trap)

  -- A change of the hart alone.
  abbrev pub modify : (Cpu → Cpu) → Exec (Unit {0})
  modify f c m = (f c, m, ok tt)

  abbrev pub reg : ℕ → Exec ℕ
  reg r c m = (c, m, ok (read_reg c r))

  -- `match r { Ok(v) => v, Err(e) => return self.handle_trap(e, pc, ...) }`.
  unfoldable pub or_trap : {A : Type 0} → Result A Trap → ℕ → Exec A
  or_trap (ok a) pc c m = (c, m, ok a)
  or_trap (err t) pc c m = raise t pc c m

  unfoldable pub translate_addr : ℕ → AccessType → ℕ → Exec ℕ
  translate_addr vaddr access pc c m =
      let (m', tlb, r) =
        translate bus c.mode (csr c.csrs csr_satp) (csr c.csrs csr_mstatus) vaddr access m c.tlb in
      or_trap r pc (record c { tlb = tlb }) m'

  -- `read8` to `read64`, by their size in bytes; a failure becomes a trap.
  unfoldable pub read : ℕ → ℕ → ℕ → Exec ℕ
  read pa size pc c m = let (m', r) = bus.load m pa size in or_trap r pc c m'

  -- `write8` to `write64`.
  unfoldable pub write : ℕ → ℕ → ℕ → ℕ → Exec (Unit {0})
  write pa size val pc c m = let (m', r) = bus.store m pa size val in or_trap r pc c m'
