-- ===== src/Cpu/Blocks/Memory.antt =====
-- riscv-vm/src/cpu/core.rs, execution.rs: the loads and stores of a block do what the interpreter's
-- do.
use bavy.Prelude.{
  ℕ, ◌+◌, ◌*◌, ◌%◌, ◌^◌, ◌≡◌, refl, sym, ap, ◌∙◌, arith, ok, err, Result, Option, some, get_or,
}
use bavy.Cpu.Types.{Trap}
use bavy.Cpu.Csr.{csr, csr_mstatus}
use bavy.Cpu.State.{Cpu, csr_satp, read_reg, write_reg, clear_reservation_if_conflict}
use bavy.Cpu.Trap.{handle_trap, enter_machine, enter_supervisor, deleg_to_s}
use bavy.Bus.{Bus}
use bavy.Mmu.Tlb
use bavy.Mmu.Tlb.{Tlb}
use bavy.Mmu.Translate.{translate}
use bavy.Engine.Decoder.{Op}
use bavy.Engine.Microop.{MicroOp}
use bavy.Cpu.Execute.Memory.{load_sized, store_sized, load_value}
use bavy.Cpu.Execute.Monad.{
  Exec, bind, after, pure, modify, reg, or_trap, translate_addr, read, write,
}
use bavy.Cpu.Blocks.Micro.{
  reg_at, load_micro, store_micro, reported, translate_addr_for_block, read_for_block,
  write_for_block,
}
use bavy.Cpu.Blocks.Agree.{
  IsZeroed, StepAgrees, read_reg-reg_at, write_reg-IsZeroed, unreserved,
  regs-clear_reservation_if_conflict,
}

unreserved-handle_trap :
    (c : Cpu) (t : Trap) (pc : ℕ)
    → unreserved (handle_trap c t pc) ≡ handle_trap (unreserved c) t pc
unfolding handle_trap deleg_to_s enter_machine enter_supervisor
unreserved-handle_trap c t pc = ground arith

unreserved-clear :
    (c : Cpu) (addr : ℕ) → unreserved (clear_reservation_if_conflict c addr) ≡ unreserved c
unfolding clear_reservation_if_conflict
unreserved-clear c addr = ground arith

-- A trap that is entered does not depend on the reservation.
unreserved-trap :
    (c : Cpu) (addr : ℕ) (t : Trap) (pc : ℕ)
    → unreserved (handle_trap (clear_reservation_if_conflict c addr) t pc)
      ≡ unreserved (handle_trap c t pc)
unreserved-trap c addr t pc =
    unreserved-handle_trap (clear_reservation_if_conflict c addr) t pc
    ∙ ap (λ d. handle_trap d t pc) (unreserved-clear c addr)
    ∙ sym (unreserved-handle_trap c t pc)

-- A store, from the translation of its address on.
abbrev pub store_tail : (bus : Bus) → ℕ → ℕ → Option ℕ → ℕ → ℕ → ℕ → Exec bus (Unit {0})
store_tail bus pc insn_raw size rs2 addr pa =
    bind bus (modify bus (λ d. clear_reservation_if_conflict d addr))
      (λ _. bind bus (reg bus rs2) (λ val. store_sized bus pc insn_raw size pa val))

module _ (bus : Bus) (pc insn_raw next : ℕ) (decoded : Op) (micro : MicroOp) (c : Cpu)
    (m : bus.State) (zeroed : IsZeroed c) where
  pub load_sized_agrees :
      (size : ℕ) (value : ℕ → ℕ) (rd rs1 imm funct3 : ℕ)
      → ((v : ℕ) → load_value funct3 v ≡ value v)
      → StepAgrees bus decoded micro pc next c m (load_micro bus size value rd rs1 imm pc c m) (
          bind bus
            (load_sized bus pc insn_raw (some size) rd ((reg_at c rs1 + imm) % 2 ^ 64) funct3)
            (λ _. pure bus next)
            c
            m)
  unfolding load_micro load_sized bind translate_addr_for_block translate_addr reported
      read_for_block read or_trap
  load_sized_agrees size value rd rs1 imm funct3 same = go (
      translate bus c.mode (csr c.csrs csr_satp) (csr c.csrs csr_mstatus)
        ((reg_at c rs1 + imm) % 2 ^ 64) Tlb.load m c.tlb)
    where
      go2 :
          (tlb : Tlb) (t : bus.State × Result ℕ Trap)
          → StepAgrees bus decoded micro pc next c m
              (reported bus pc (
                after bus
                  (λ v. modify bus (λ d. write_reg d rd (value v)))
                  (record c { tlb = tlb }, t.0, t.1)))
              (after bus
                (λ _. pure bus next)
                (after bus
                  (λ v. modify bus (λ d. write_reg d rd (load_value funct3 v)))
                  (or_trap bus t.1 pc (record c { tlb = tlb }) t.0)))
      go2 tlb (m', ok v) = (
        ap (λ u. (write_reg (record c { tlb = tlb }) rd u, m', ok next)) (same v),
        write_reg-IsZeroed (record c { tlb = tlb }) rd (value v) zeroed,
      )
      go2 tlb (m', err t) = (refl, refl)

      go :
          (t : bus.State × Tlb × Result ℕ Trap)
          → StepAgrees bus decoded micro pc next c m
              (reported bus pc (
                after bus
                  (λ pa.
                    bind bus
                      (read_for_block bus pa size)
                      (λ v. modify bus (λ d. write_reg d rd (value v))))
                  (record c { tlb = t.1 }, t.0, t.2)))
              (after bus
                (λ _. pure bus next)
                (after bus
                  (λ pa.
                    bind bus
                      (read bus pa size pc)
                      (λ v. modify bus (λ d. write_reg d rd (load_value funct3 v))))
                  (or_trap bus t.2 pc (record c { tlb = t.1 }) t.0)))
      go (m', tlb, ok pa) = go2 tlb (bus.load m' pa size)
      go (m', tlb, err t) = (refl, refl)

  pub store_sized_agrees :
      (size rs1 rs2 imm : ℕ)
      → StepAgrees bus decoded micro pc next c m (store_micro bus size rs1 rs2 imm pc c m) (
          bind bus
            (bind bus
              (translate_addr bus ((reg_at c rs1 + imm) % 2 ^ 64) Tlb.store pc)
              (store_tail bus pc insn_raw (some size) rs2 ((reg_at c rs1 + imm) % 2 ^ 64)))
            (λ _. pure bus next)
            c
            m)
  unfolding store_micro store_sized bind translate_addr_for_block translate_addr reported
      write_for_block write or_trap
  store_sized_agrees size rs1 rs2 imm =
      go
        (translate bus c.mode (csr c.csrs csr_satp) (csr c.csrs csr_mstatus) addr Tlb.store m c.tlb)
    where
      addr : ℕ
      addr = (reg_at c rs1 + imm) % 2 ^ 64

      stored : ℕ
      stored = reg_at c rs2 % 2 ^ (8 * size)

      same :
          (tlb : Tlb)
          → read_reg (clear_reservation_if_conflict (record c { tlb = tlb }) addr) rs2
            ≡ reg_at c rs2
      same tlb =
          let kept = regs-clear_reservation_if_conflict (record c { tlb = tlb }) addr in
          read_reg-reg_at (clear_reservation_if_conflict (record c { tlb = tlb }) addr) rs2
            (rw kept zeroed)
          ∙ ap (λ xs. get_or xs rs2 0) kept

      go2 :
          (tlb : Tlb) (t : bus.State × Result (Unit {0}) Trap)
          → StepAgrees bus decoded micro pc next c m
              (reported bus pc (
                after bus
                  (λ _. modify bus (λ d. clear_reservation_if_conflict d addr))
                  (record c { tlb = tlb }, t.0, t.1)))
              (after bus
                (λ _. pure bus next)
                (or_trap bus t.1 pc
                  (clear_reservation_if_conflict (record c { tlb = tlb }) addr)
                  t.0))
      go2 tlb (m', ok v) = (
        refl,
        ap (λ xs. get_or xs 0 0) (regs-clear_reservation_if_conflict (record c { tlb = tlb }) addr)
            ∙ zeroed,
      )
      go2 tlb (m', err t) =
          (ap (λ d. (d, m', err t)) (unreserved-trap (record c { tlb = tlb }) addr t pc), refl)

      go :
          (t : bus.State × Tlb × Result ℕ Trap)
          → StepAgrees bus decoded micro pc next c m
              (reported bus pc (
                after bus
                  (λ pa.
                    bind bus
                      (write_for_block bus pa size stored)
                      (λ _. modify bus (λ d. clear_reservation_if_conflict d addr)))
                  (record c { tlb = t.1 }, t.0, t.2)))
              (after bus
                (λ _. pure bus next)
                (after bus
                  (store_tail bus pc insn_raw (some size) rs2 addr)
                  (or_trap bus t.2 pc (record c { tlb = t.1 }) t.0)))
      go (m', tlb, ok pa) = rw (same tlb) (go2 tlb (bus.store m' pa size stored))
      go (m', tlb, err t) = (refl, refl)
