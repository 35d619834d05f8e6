-- ===== src/Cpu/Execute/Safe.antt =====
-- riscv-vm/src/cpu/execution.rs: the system instructions keep a hart well formed.
use bavy.Prelude.{ℕ, Bool, true, false, ◌==◌, Option, none, some, if◌then◌else◌, Result, bit_and}
use bavy.Bus.{Bus}
use bavy.Mmu.Tlb
use bavy.Mmu.Tlb.{AccessType}
use bavy.Cpu.Types
use bavy.Cpu.Types.{Trap, Mode, illegal_instruction}
use bavy.Cpu.State.{Cpu, csr_satp, csr_time, write_reg, invalidate_decode_cache}
use bavy.Cpu.Execute.Hart.{
  IsHart, handle_trap-IsHart, write_reg-IsHart, mret-IsHart, sret-IsHart,
  invalidate_decode_cache-IsHart, csr_written-IsHart,
}
use bavy.Cpu.Execute.Keeps.{Keeps, bind-Keeps, raise-Keeps, or_trap-Keeps, pure-Keeps, if-Keeps}
use bavy.Cpu.Execute.Monad.{modify}
use bavy.Cpu.Execute.System.{
  csr_written, csr_value, csr_read, csr_write, csr_update, execute_csr, execute_ecall, execute_mret,
  execute_sret, execute_sfence, execute_privileged, execute_system, write_new,
}

if_IsHart : (b : Bool) (c d : Cpu) → IsHart c → IsHart d → IsHart (if b then c else d)
if_IsHart true c d hc hd = hc
if_IsHart false c d hc hd = hd

flushed :
    (c : Cpu) → IsHart c → IsHart (invalidate_decode_cache (record c { tlb = Tlb.flush c.tlb }))
flushed c h =
    invalidate_decode_cache-IsHart (record c { tlb = Tlb.flush c.tlb })
      (record {
        regs = h.regs;
        csrs = h.csrs;
        cache = h.cache;
        decodings = h.decodings;
        zero = h.zero;
      })

module _ (bus : Bus) where
  if_done :
      {A : Type 0} (b : Bool) (s t : Cpu × bus.State × Result A Trap)
      → IsHart s.0
      → IsHart t.0
      → IsHart ((if b then s else t).0)
  if_done true s t hs ht = hs
  if_done false s t hs ht = ht

  if_write : (b : Bool) (r v : ℕ) → Keeps bus (modify bus (λ c. if b then c else write_reg c r v))
  unfolding Keeps
  if_write b r v c m h = if_IsHart b c (write_reg c r v) h (write_reg-IsHart c r v h)

  flush_if :
      (b : Bool)
      → Keeps bus (
          modify bus
            (λ d. if b then invalidate_decode_cache (record d { tlb = Tlb.flush d.tlb }) else d))
  unfolding Keeps
  flush_if b c m h = if_IsHart b _ c (flushed c h) h

  module _ (pc raw next_pc : ℕ) where
    csr_read-Keeps : (addr : ℕ) → Keeps bus (csr_read bus pc raw next_pc addr)
    unfolding csr_read Keeps
    csr_read-Keeps addr c m h =
        if_done (addr == csr_time) _ _ h (or_trap-Keeps bus (csr_value c addr) pc c m h)

    csr_write-Keeps : (addr v : ℕ) → Keeps bus (csr_write bus pc raw next_pc addr v)
    unfolding csr_write Keeps
    csr_write-Keeps addr v c m h =
        bind-Keeps bus _ _ (or_trap-Keeps bus ((csr_written c addr v).1) pc)
          (λ _. flush_if (addr == csr_satp)) ((csr_written c addr v).0) m
          (csr_written-IsHart c addr v h)

    csr_update-Keeps : (addr : ℕ) (o : Option ℕ) → Keeps bus (csr_update bus pc raw next_pc addr o)
    unfolding csr_update
    csr_update-Keeps addr none = pure-Keeps bus tt
    csr_update-Keeps addr (some v) = csr_write-Keeps addr v

    updated :
        (addr rs1 funct3 old : ℕ)
        → Keeps bus (λ c. csr_update bus pc raw next_pc addr (write_new c funct3 rs1 old) c)
    unfolding Keeps
    updated addr rs1 funct3 old c m h = csr_update-Keeps addr (write_new c funct3 rs1 old) c m h

    execute_csr-Keeps :
        (rd rs1 funct3 imm : ℕ) → Keeps bus (execute_csr bus pc raw next_pc rd rs1 funct3 imm)
    unfolding execute_csr
    execute_csr-Keeps rd rs1 funct3 imm =
        let addr = bit_and imm 0xFFF in
        bind-Keeps bus _ _ (csr_read-Keeps addr)
          (λ old. bind-Keeps bus _ _ (updated addr rs1 funct3 old) (λ _. if_write (rd == 0) rd old))

    execute_mret-Keeps : Keeps bus (execute_mret bus pc raw next_pc)
    unfolding execute_mret Keeps
    execute_mret-Keeps c m h = if_done _ _ _ (mret-IsHart c h) (handle_trap-IsHart c _ pc h)

    execute_sret-Keeps : Keeps bus (execute_sret bus pc raw next_pc)
    unfolding execute_sret Keeps
    execute_sret-Keeps c m h = if_done _ _ _ (sret-IsHart c h) (handle_trap-IsHart c _ pc h)

    execute_sfence-Keeps : Keeps bus (execute_sfence bus pc raw next_pc)
    unfolding execute_sfence Keeps
    execute_sfence-Keeps c m h = if_done _ _ _ (handle_trap-IsHart c _ pc h) (flushed c h)

    module _ (handle_sbi_call : Cpu → bus.State → Cpu × bus.State × Bool)
        (sbi : (c : Cpu) (m : bus.State) → IsHart c → IsHart ((handle_sbi_call c m).0)) where
      execute_ecall-Keeps : Keeps bus (execute_ecall bus pc raw next_pc handle_sbi_call)
      unfolding execute_ecall Keeps
      execute_ecall-Keeps c m h =
          if_done _ _ _
            (if_done ((handle_sbi_call c m).2) _ _ (sbi c m h)
              (handle_trap-IsHart _ _ pc (sbi c m h)))
            (handle_trap-IsHart c _ pc h)

      execute_privileged-Keeps : Keeps bus (execute_privileged bus pc raw next_pc handle_sbi_call)
      unfolding execute_privileged
      execute_privileged-Keeps = if-Keeps bus _ _ _ execute_sfence-Keeps (
          if-Keeps bus _ _ _ (raise-Keeps bus _ Types.breakpoint pc) (
            if-Keeps bus _ _ _ (raise-Keeps bus _ Types.wfi pc) (
              if-Keeps bus _ _ _ execute_ecall-Keeps (
                if-Keeps bus _ _ _ execute_mret-Keeps (
                  if-Keeps bus _ _ _ execute_sret-Keeps
                    (raise-Keeps bus _ (illegal_instruction raw) pc))))))

      pub execute_system-Keeps :
          (rd rs1 funct3 imm : ℕ)
          → Keeps bus (execute_system bus pc raw next_pc handle_sbi_call rd rs1 funct3 imm)
      unfolding execute_system
      execute_system-Keeps rd rs1 funct3 imm = if-Keeps bus _ _ _ execute_privileged-Keeps (
          if-Keeps bus _ _ _ (raise-Keeps bus _ (illegal_instruction raw) pc) (
            if-Keeps bus _ _ _
              (bind-Keeps bus _ _ (execute_csr-Keeps rd rs1 funct3 imm)
                (λ _. pure-Keeps bus next_pc))
              (raise-Keeps bus _ (illegal_instruction raw) pc)))
