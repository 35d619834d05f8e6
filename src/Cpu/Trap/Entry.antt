-- ===== src/Cpu/Trap/Entry.antt =====
-- riscv-vm/src/cpu/core.rs: the registers that trap entry writes, and where it leads.
use bavy.Prelude.{
  ℕ, ◌<◌, ◌≤◌, ◌≡◌, ◌≢◌, ◌⊎◌, inl, inr, refl, ◌∙◌, sym, arith, Bool, some, none, ◌==◌,
  if◌then◌else◌, length, length-set, Option-cases, get_or-set,
}
use mathlib.Core.Path.{subst}
use bavy.Cpu.Types.{supervisor, machine, Trap, privilege_level}
use bavy.Cpu.Csr.{CsrFile, csr, set_csr, num_csrs, csr_mstatus}
use bavy.Cpu.State.{Cpu, csr_mepc, csr_mcause, csr_mtval, csr_sepc, csr_scause, csr_stval}
use bavy.Cpu.Trap.{
  trap_to_cause_tval, deleg_to_s, cause_val, enter_supervisor, enter_machine, handle_trap,
  machine_mstatus, supervisor_mstatus,
}

abbrev pub IsFull : CsrFile → Type 0
IsFull f = length f.storage ≡ num_csrs

pub set_csr-IsFull : (f : CsrFile) (addr v : ℕ) → IsFull f → IsFull (set_csr f addr v)
set_csr-IsFull f addr v full = length-set f.storage addr v ∙ full

pub csr-set_csr_full :
    (f : CsrFile) (addr v a : ℕ)
    → IsFull f
    → addr < num_csrs
    → csr (set_csr f addr v) a ≡ (if addr == a then v else csr f a)
csr-set_csr_full f addr v a full inside = get_or-set f.storage addr a v 0 (omega (arith, full))

-- Three registers written one after the other, and a fourth.
module _ (f : CsrFile) (a1 v1 a2 v2 a3 v3 a : ℕ) (full : IsFull f) (h1 : a1 < num_csrs)
    (h2 : a2 < num_csrs) (h3 : a3 < num_csrs) where
  three :
      csr (set_csr (set_csr (set_csr f a1 v1) a2 v2) a3 v3) a
      ≡ (if a3 == a then v3 else if a2 == a then v2 else if a1 == a then v1 else csr f a)
  three =
      let f1 = set_csr f a1 v1 in
      let f2 = set_csr f1 a2 v2 in
      let full1 = set_csr-IsFull f a1 v1 full in
      let full2 = set_csr-IsFull f1 a2 v2 full1 in
      ground (
        arith,
        csr-set_csr_full f2 a3 v3 a full2 h3,
        csr-set_csr_full f1 a2 v2 a full1 h2,
        csr-set_csr_full f a1 v1 a full h1,
      )

  four :
      (a4 v4 : ℕ)
      → a4 < num_csrs
      → csr (set_csr (set_csr (set_csr (set_csr f a1 v1) a2 v2) a3 v3) a4 v4) a ≡ (
          if a4 == a
          then v4
          else if a3 == a
          then v3
          else if a2 == a
          then v2
          else if a1 == a
          then v1
          else csr f a)
  four a4 v4 h4 =
      let f2 = set_csr (set_csr f a1 v1) a2 v2 in
      let full2 = set_csr-IsFull (set_csr f a1 v1) a2 v2 (set_csr-IsFull f a1 v1 full) in
      ground (
        arith,
        csr-set_csr_full (set_csr f2 a3 v3) a4 v4 a (set_csr-IsFull f2 a3 v3 full2) h4,
        three,
      )

module _ (c : Cpu) (is_interrupt : Bool) (cause tval pc : ℕ) (full : IsFull c.csrs) where
  pub csr-enter_machine :
      (a : ℕ)
      → csr ((enter_machine c is_interrupt cause tval pc).csrs) a ≡ (
          if csr_mstatus == a
          then machine_mstatus (csr c.csrs csr_mstatus) c.mode
          else if csr_mcause == a
          then cause_val is_interrupt cause
          else if csr_mtval == a
          then tval
          else if csr_mepc == a
          then pc
          else csr c.csrs a)
  unfolding enter_machine
  csr-enter_machine a =
      let i = cause_val is_interrupt cause in
      let status : csr (set_csr (set_csr (set_csr c.csrs csr_mepc pc) csr_mtval tval) csr_mcause i)
            csr_mstatus
          ≡ csr c.csrs csr_mstatus =
        three c.csrs csr_mepc pc csr_mtval tval csr_mcause i csr_mstatus full (omega arith)
          (omega arith) (omega arith) in
      rw status (
        four c.csrs csr_mepc pc csr_mtval tval csr_mcause i a full (omega arith) (omega arith)
          (omega arith) csr_mstatus (machine_mstatus (csr c.csrs csr_mstatus) c.mode) (omega arith))

  pub csr-enter_supervisor :
      (a : ℕ)
      → csr ((enter_supervisor c is_interrupt cause tval pc).csrs) a ≡ (
          if csr_mstatus == a
          then supervisor_mstatus (csr c.csrs csr_mstatus) c.mode
          else if csr_scause == a
          then cause_val is_interrupt cause
          else if csr_stval == a
          then tval
          else if csr_sepc == a
          then pc
          else csr c.csrs a)
  unfolding enter_supervisor
  csr-enter_supervisor a =
      let i = cause_val is_interrupt cause in
      let status : csr (set_csr (set_csr (set_csr c.csrs csr_sepc pc) csr_stval tval) csr_scause i)
            csr_mstatus
          ≡ csr c.csrs csr_mstatus =
        three c.csrs csr_sepc pc csr_stval tval csr_scause i csr_mstatus full (omega arith)
          (omega arith) (omega arith) in
      rw status (
        four c.csrs csr_sepc pc csr_stval tval csr_scause i a full (omega arith) (omega arith)
          (omega arith) csr_mstatus (supervisor_mstatus (csr c.csrs csr_mstatus) c.mode)
          (omega arith))

  pub enter_machine-IsFull : IsFull ((enter_machine c is_interrupt cause tval pc).csrs)
  unfolding enter_machine
  enter_machine-IsFull =
      length-set _ _ _ ∙ length-set _ _ _ ∙ length-set _ _ _ ∙ length-set _ _ _ ∙ full

  pub enter_supervisor-IsFull : IsFull ((enter_supervisor c is_interrupt cause tval pc).csrs)
  unfolding enter_supervisor
  enter_supervisor-IsFull =
      length-set _ _ _ ∙ length-set _ _ _ ∙ length-set _ _ _ ∙ length-set _ _ _ ∙ full

-- Trap entry never lowers the privilege and leaves the integer registers alone; machine mode is
-- left by no trap, and a trap that only the host sees changes nothing.
pub handle_trap-raises :
    (c : Cpu) (trap : Trap) (pc : ℕ)
    → (privilege_level c.mode ≤ privilege_level ((handle_trap c trap pc).mode))
      × ((handle_trap c trap pc).regs ≡ c.regs)
      × (c.mode ≡ machine → (handle_trap c trap pc).mode ≡ machine)
      × (trap_to_cause_tval trap ≡ none → handle_trap c trap pc ≡ c)
unfolding handle_trap deleg_to_s enter_machine enter_supervisor privilege_level
handle_trap-raises c trap pc = (ground arith, ground arith, ground arith, ground arith)

pub regs-enter_machine :
    (c : Cpu) (is_interrupt : Bool) (cause tval pc : ℕ)
    → (enter_machine c is_interrupt cause tval pc).regs ≡ c.regs
unfolding enter_machine
regs-enter_machine c is_interrupt cause tval pc = refl

pub regs-enter_supervisor :
    (c : Cpu) (is_interrupt : Bool) (cause tval pc : ℕ)
    → (enter_supervisor c is_interrupt cause tval pc).regs ≡ c.regs
unfolding enter_supervisor
regs-enter_supervisor c is_interrupt cause tval pc = refl

-- Where a trap of the architecture goes.
pub handle_trap-cases :
    (c : Cpu) (trap : Trap) (pc cause tval : ℕ) (is_interrupt : Bool)
    → trap_to_cause_tval trap ≡ some (is_interrupt, cause, tval)
    → (((handle_trap c trap pc).mode ≡ machine)
        × (handle_trap c trap pc ≡ enter_machine c is_interrupt cause tval pc))
      ⊎ (((handle_trap c trap pc).mode ≡ supervisor)
          × (c.mode ≢ machine)
          × (handle_trap c trap pc ≡ enter_supervisor c is_interrupt cause tval pc))
unfolding handle_trap deleg_to_s enter_machine enter_supervisor
handle_trap-cases c trap pc cause tval is_interrupt known = ground arith

pub decode_cache-handle_trap :
    (c : Cpu) (trap : Trap) (pc : ℕ) → (handle_trap c trap pc).decode_cache ≡ c.decode_cache
unfolding handle_trap enter_machine enter_supervisor
decode_cache-handle_trap c trap pc = ground arith

pub handle_trap-IsFull :
    (c : Cpu) (trap : Trap) (pc : ℕ) → IsFull c.csrs → IsFull ((handle_trap c trap pc).csrs)
handle_trap-IsFull c trap pc full = elim (Option-cases (trap_to_cause_tval trap)) [
  | inl nothing ↦ subst (λ d. IsFull d.csrs) (sym ((handle_trap-raises c trap pc).3 nothing)) full
  | inr ((is_interrupt, cause, tval), e) ↦
      elim (handle_trap-cases c trap pc cause tval is_interrupt e) [
        | inl (_, same) ↦ rw same (enter_machine-IsFull c is_interrupt cause tval pc full)
        | inr (_, _, same) ↦ rw same (enter_supervisor-IsFull c is_interrupt cause tval pc full)
      ]
]
