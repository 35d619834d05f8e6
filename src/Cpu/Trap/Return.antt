-- ===== src/Cpu/Trap/Return.antt =====
-- riscv-vm/src/cpu/core.rs, execution.rs: a handler that returns at once resumes what the trap
-- interrupted.
use bavy.Prelude.{
  ℕ, ◌^◌, ◌<◌, ◌≡◌, ◌≢◌, arith, Bool, false, none, Option-cases, inl, inr, ◌||◌, ◌==◌,
  if◌then◌else◌,
}
use bavy.Prelude.Bits.{bit, bit_shr_test}
use bavy.Cpu.Types.{Mode, supervisor, machine, Trap}
use bavy.Cpu.Csr.{csr, csr_mstatus}
use bavy.Cpu.Csr.Views.{IsCsrFile}
use bavy.Cpu.State.{Cpu, csr_mepc, csr_sepc}
use bavy.Cpu.Trap.{
  trap_to_cause_tval, enter_supervisor, enter_machine, handle_trap, mret, sret, machine_mstatus,
  supervisor_mstatus, mret_mstatus, sret_mstatus,
}
use bavy.Cpu.Trap.Fields.{from_mpp-bits}
use bavy.Cpu.Trap.Mstatus.{
  bit-machine_mstatus, bit-supervisor_mstatus, bit-mret_mstatus, bit-sret_mstatus,
  machine_mstatus-lt, supervisor_mstatus-lt,
}
use bavy.Cpu.Trap.Entry.{
  csr-set_csr_full, csr-enter_machine, csr-enter_supervisor, enter_machine-IsFull,
  enter_supervisor-IsFull, regs-enter_machine, regs-enter_supervisor, handle_trap-cases,
}

-- mstatus through entry and return.
mret-machine_mstatus :
    (m k : ℕ) (mode : Mode)
    → m < 2 ^ 64
    → bit (mret_mstatus (machine_mstatus m mode)) k
      ≡ (if 11 == k then 0 else if 12 == k then 0 else if 7 == k then 1 else bit m k)
mret-machine_mstatus m k mode word =
    let entered = machine_mstatus m mode in
    ground (
      arith,
      bit-mret_mstatus entered k (machine_mstatus-lt m k word mode),
      bit-machine_mstatus m k word mode,
      bit-machine_mstatus m 7 word mode,
    )

sret-supervisor_mstatus :
    (m k : ℕ) (mode : Mode)
    → m < 2 ^ 64
    → bit (sret_mstatus (supervisor_mstatus m mode)) k
      ≡ (if 8 == k then 0 else if 5 == k then 1 else bit m k)
sret-supervisor_mstatus m k mode word =
    let entered = supervisor_mstatus m mode in
    ground (
      arith,
      bit-sret_mstatus entered k (supervisor_mstatus-lt m k word mode),
      bit-supervisor_mstatus m k word mode,
      bit-supervisor_mstatus m 5 word mode,
    )

-- A state that goes on where another one stood: mode, pc and integer registers are as they were,
-- and of mstatus the bits that the test does not spend.
pub record Resumes (c : Cpu) (at : ℕ) (spent : ℕ → Bool) (after : Cpu) : Type 0 where
  pub mode : after.mode ≡ c.mode
  pub pc : after.pc ≡ at
  pub regs : after.regs ≡ c.regs
  pub status :
      (k : ℕ)
      → spent k ≡ false
      → bit (csr after.csrs csr_mstatus) k ≡ bit (csr c.csrs csr_mstatus) k

-- MPIE and MPP; SPIE and SPP.
abbrev pub machine_spent : ℕ → Bool
machine_spent k = (k == 7) || (k == 11) || (k == 12)

abbrev pub supervisor_spent : ℕ → Bool
supervisor_spent k = (k == 5) || (k == 8)

module _ (c : Cpu) (is_interrupt : Bool) (cause tval pc : ℕ) (h : IsCsrFile c.csrs) where
  mret-enter_machine :
      Resumes c pc machine_spent (mret (enter_machine c is_interrupt cause tval pc))
  unfolding mret
  mret-enter_machine =
      let m = csr c.csrs csr_mstatus in
      let word = h.words csr_mstatus in
      let after = enter_machine c is_interrupt cause tval pc in
      let status : csr after.csrs csr_mstatus ≡ machine_mstatus m c.mode =
        csr-enter_machine c is_interrupt cause tval pc h.full csr_mstatus in
      let back =
        csr-set_csr_full after.csrs csr_mstatus (mret_mstatus (csr after.csrs csr_mstatus))
          csr_mstatus (enter_machine-IsFull c is_interrupt cause tval pc h.full) (omega arith) in
      record {
        mode = rw status (
            from_mpp-bits (machine_mstatus m c.mode) c.mode (bit-machine_mstatus m 11 word c.mode)
              (bit-machine_mstatus m 12 word c.mode));
        pc = csr-enter_machine c is_interrupt cause tval pc h.full csr_mepc;
        regs = regs-enter_machine c is_interrupt cause tval pc;
        status = λ k kept. rw (back, status) (ground (arith, mret-machine_mstatus m k c.mode word));
      }

  sret-enter_supervisor :
      c.mode ≢ machine
      → Resumes c pc supervisor_spent (sret (enter_supervisor c is_interrupt cause tval pc))
  unfolding sret
  sret-enter_supervisor below =
      let m = csr c.csrs csr_mstatus in
      let word = h.words csr_mstatus in
      let after = enter_supervisor c is_interrupt cause tval pc in
      let status : csr after.csrs csr_mstatus ≡ supervisor_mstatus m c.mode =
        csr-enter_supervisor c is_interrupt cause tval pc h.full csr_mstatus in
      let back =
        csr-set_csr_full after.csrs csr_mstatus (sret_mstatus (csr after.csrs csr_mstatus))
          csr_mstatus (enter_supervisor-IsFull c is_interrupt cause tval pc h.full) (omega arith) in
      record {
        mode =
            rw (status, bit_shr_test (supervisor_mstatus m c.mode) 8)
              (ground (arith, bit-supervisor_mstatus m 8 word c.mode));
        pc = csr-enter_supervisor c is_interrupt cause tval pc h.full csr_sepc;
        regs = regs-enter_supervisor c is_interrupt cause tval pc;
        status =
            λ k kept. rw (back, status) (ground (arith, sret-supervisor_mstatus m k c.mode word));
      }

-- From a well-formed CSR file, a trap of the architecture that enters machine mode, followed at once by
-- MRET, goes on where it struck: the mode, the pc, the integer registers and every bit of mstatus
-- except MPIE and MPP, the interrupt enables among them, are as before.
pub mret-handle_trap :
    (c : Cpu) (trap : Trap) (pc : ℕ)
    → IsCsrFile c.csrs
    → trap_to_cause_tval trap ≢ none
    → (handle_trap c trap pc).mode ≡ machine
    → Resumes c pc machine_spent (mret (handle_trap c trap pc))
mret-handle_trap c trap pc h known entered = elim (Option-cases (trap_to_cause_tval trap)) [
  | inl nothing ↦ absurd (known nothing)
  | inr ((is_interrupt, cause, tval), e) ↦
      elim (handle_trap-cases c trap pc cause tval is_interrupt e) [
        | inl (_, same) ↦ rw same (mret-enter_machine c is_interrupt cause tval pc h)
        | inr (other, _, _) ↦ absurd (ground arith)
      ]
]

-- From a well-formed CSR file, a trap of the architecture that is delegated to the supervisor, followed at once
-- by SRET, goes on where it struck: the mode, the pc, the integer registers and every bit of
-- mstatus except SPIE and SPP are as before.
pub sret-handle_trap :
    (c : Cpu) (trap : Trap) (pc : ℕ)
    → IsCsrFile c.csrs
    → trap_to_cause_tval trap ≢ none
    → (handle_trap c trap pc).mode ≡ supervisor
    → Resumes c pc supervisor_spent (sret (handle_trap c trap pc))
sret-handle_trap c trap pc h known entered = elim (Option-cases (trap_to_cause_tval trap)) [
  | inl nothing ↦ absurd (known nothing)
  | inr ((is_interrupt, cause, tval), e) ↦
      elim (handle_trap-cases c trap pc cause tval is_interrupt e) [
        | inl (other, _) ↦ absurd (ground arith)
        | inr (_, below, same) ↦
            rw same (sret-enter_supervisor c is_interrupt cause tval pc h below)
      ]
]
