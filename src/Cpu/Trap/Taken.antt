-- ===== src/Cpu/Trap/Taken.antt =====
-- riscv-vm/src/cpu/core.rs: the interrupt that was chosen, entered.
use bavy.Prelude.{
  ℕ, ◌^◌, ◌<◌, ◌≡◌, ◌≢◌, refl, ◌∙◌, sym, ap, arith, Bool, true, false, some, none, Option-cases,
  inl, inr,
}
use bavy.Prelude.Bits.{bit, bit_and-pow_test}
use bavy.Cpu.Types.{supervisor, machine, Trap}
use bavy.Cpu.Csr.{csr, csr_mstatus, csr_mie, csr_mip}
use bavy.Cpu.Csr.Views.{IsCsrFile}
use bavy.Cpu.State.{Cpu, csr_mideleg}
use bavy.Cpu.Trap.{
  check_pending_interrupt, handle_trap, trap_to_cause_tval, deleg_to_s, enter_machine,
  enter_supervisor,
}
use bavy.Cpu.Trap.Mstatus.{bit-machine_mstatus, bit-supervisor_mstatus}
use bavy.Cpu.Trap.Entry.{handle_trap-cases, csr-enter_machine, csr-enter_supervisor}
use bavy.Cpu.Trap.Priority.{wanted, may_take, check_pending_interrupt_lem}

-- A machine interrupt that is wanted goes to machine mode.
not_delegated : (c : Cpu) (k : ℕ) → wanted c k 0 ≡ true → deleg_to_s c true k ≡ false
unfolding wanted deleg_to_s
not_delegated c k want = ground (arith, bit_and-pow_test (csr c.csrs csr_mideleg) k)

no_machine_interrupt :
    (c : Cpu) (trap : Trap) (pc : ℕ)
    → IsCsrFile c.csrs
    → check_pending_interrupt c ≡ some trap
    → (handle_trap c trap pc).mode ≡ supervisor
    → c.mode ≢ machine
    → (wanted c 11 0 ≡ false) × (wanted c 3 0 ≡ false) × (wanted c 7 0 ≡ false)
unfolding may_take handle_trap trap_to_cause_tval enter_machine
no_machine_interrupt c trap pc h chosen entered below =
    let first = sym (check_pending_interrupt_lem c (h.words csr_mideleg)) ∙ chosen in
    ground (arith, first, not_delegated c 11, not_delegated c 3, not_delegated c 7)

module _ (c : Cpu) (is_interrupt : Bool) (cause tval pc : ℕ) (h : IsCsrFile c.csrs) where
  closed_machine : check_pending_interrupt (enter_machine c is_interrupt cause tval pc) ≡ none
  unfolding may_take enter_machine
  closed_machine =
      let after = enter_machine c is_interrupt cause tval pc in
      let status = csr-enter_machine c is_interrupt cause tval pc h.full csr_mstatus in
      let sent : csr after.csrs csr_mideleg ≡ csr c.csrs csr_mideleg =
        csr-enter_machine c is_interrupt cause tval pc h.full csr_mideleg in
      let off : bit (csr after.csrs csr_mstatus) 3 ≡ 0 =
        ap (λ m. bit m 3) status
        ∙ bit-machine_mstatus (csr c.csrs csr_mstatus) 3 (h.words csr_mstatus) c.mode in
      let word : csr after.csrs csr_mideleg < 2 ^ 64 = rw sent (h.words csr_mideleg) in
      let first = check_pending_interrupt_lem after word in ground (arith, first, off)

  wanted_supervisor :
      (k d : ℕ) → wanted (enter_supervisor c is_interrupt cause tval pc) k d ≡ wanted c k d
  unfolding wanted
  wanted_supervisor k d =
      rw
        (
          csr-enter_supervisor c is_interrupt cause tval pc h.full csr_mip,
          csr-enter_supervisor c is_interrupt cause tval pc h.full csr_mie,
          csr-enter_supervisor c is_interrupt cause tval pc h.full csr_mideleg,
        )
        refl

  closed_supervisor :
      wanted c 11 0 ≡ false
      → wanted c 3 0 ≡ false
      → wanted c 7 0 ≡ false
      → check_pending_interrupt (enter_supervisor c is_interrupt cause tval pc) ≡ none
  unfolding may_take enter_supervisor
  closed_supervisor external software timer =
      let after = enter_supervisor c is_interrupt cause tval pc in
      let status = csr-enter_supervisor c is_interrupt cause tval pc h.full csr_mstatus in
      let sent : csr after.csrs csr_mideleg ≡ csr c.csrs csr_mideleg =
        csr-enter_supervisor c is_interrupt cause tval pc h.full csr_mideleg in
      let off : bit (csr after.csrs csr_mstatus) 1 ≡ 0 =
        ap (λ m. bit m 1) status
        ∙ bit-supervisor_mstatus (csr c.csrs csr_mstatus) 1 (h.words csr_mstatus) c.mode in
      let word : csr after.csrs csr_mideleg < 2 ^ 64 = rw sent (h.words csr_mideleg) in
      let first = check_pending_interrupt_lem after word in
      ground
        (arith, first, off, wanted_supervisor 11 0, wanted_supervisor 3 0, wanted_supervisor 7 0)

chosen_known :
    (c : Cpu) (trap : Trap) → check_pending_interrupt c ≡ some trap → trap_to_cause_tval trap ≢ none
unfolding check_pending_interrupt trap_to_cause_tval
chosen_known c trap chosen nothing = ground arith

-- From a well-formed CSR file, once the chosen interrupt has been entered, no interrupt may be
-- taken: the entry closes its level, and no machine interrupt waited behind a supervisor's.
pub check_pending_interrupt-handle_trap :
    (c : Cpu) (trap : Trap) (pc : ℕ)
    → IsCsrFile c.csrs
    → check_pending_interrupt c ≡ some trap
    → check_pending_interrupt (handle_trap c trap pc) ≡ none
check_pending_interrupt-handle_trap c trap pc h chosen =
    elim (Option-cases (trap_to_cause_tval trap)) [
      | inl nothing ↦ absurd (chosen_known c trap chosen nothing)
      | inr ((is_interrupt, cause, tval), e) ↦
          elim (handle_trap-cases c trap pc cause tval is_interrupt e) [
            | inl (_, same) ↦ rw same (closed_machine c is_interrupt cause tval pc h)
            | inr (entered, below, same) ↦
                let quiet = no_machine_interrupt c trap pc h chosen entered below in
                rw same (closed_supervisor c is_interrupt cause tval pc h quiet.0 quiet.1 quiet.2)
          ]
    ]
