-- ===== src/Cpu/Trap/Tests.antt =====
-- The theorems on traps at concrete inputs.
use bavy.Prelude.{ℕ, ◌≤◌, ◌≡◌, ◌≢◌, refl, arith, none, some, replicate, get_or-replicate}
use bavy.Cpu.Types
use bavy.Cpu.Types.{Mode, user, supervisor, machine, Trap, privilege_level}
use bavy.Cpu.Csr
use bavy.Cpu.Csr.{CsrFile, csr, set_csr, csr_mie, csr_mip, num_csrs}
use bavy.Cpu.Csr.Views.{IsCsrFile, new-IsCsrFile, set_csr-IsCsrFile, csr-set_csr}
use bavy.Mmu.Tlb
use bavy.Cpu.State.{Cpu, csr_medeleg, csr_mideleg, decode_cache_size}
use bavy.Cpu.Trap.{
  trap_to_cause_tval, handle_trap, deleg_to_s, enter_machine, enter_supervisor, mret, sret,
  check_pending_interrupt, m_enabled, m_pending,
}
use bavy.Cpu.Trap.Entry.{handle_trap-raises}
use bavy.Cpu.Trap.Return.{
  Resumes, machine_spent, supervisor_spent, mret-handle_trap, sret-handle_trap,
}
use bavy.Cpu.Trap.Priority.{may_take, first_that, by_priority, check_pending_interrupt_lem}
use bavy.Cpu.Trap.Taken.{check_pending_interrupt-handle_trap}

abbrev hart_in : Mode → CsrFile → Cpu
hart_in mode csrs = record {
  regs = replicate 32 0;
  pc = 0x80000000;
  reservation = none;
  csrs = csrs;
  mode = mode;
  tlb = Tlb.new;
  poll_counter = 0;
  decode_cache = replicate decode_cache_size none;
}

breakpoint_known : trap_to_cause_tval Types.breakpoint ≢ none
unfolding trap_to_cause_tval
breakpoint_known = λ e. cc

handle_trap-raises_example :
    (privilege_level user
      ≤ privilege_level ((handle_trap (hart_in user Csr.new) Types.breakpoint 4).mode))
    × ((handle_trap (hart_in user Csr.new) Types.breakpoint 4).regs ≡ replicate 32 0)
    × (user ≡ machine → (handle_trap (hart_in user Csr.new) Types.breakpoint 4).mode ≡ machine)
    × (trap_to_cause_tval Types.breakpoint ≡ none
        → handle_trap (hart_in user Csr.new) Types.breakpoint 4 ≡ hart_in user Csr.new)
handle_trap-raises_example = handle_trap-raises (hart_in user Csr.new) Types.breakpoint 4

machine_entered : (handle_trap (hart_in machine Csr.new) Types.breakpoint 4).mode ≡ machine
unfolding handle_trap trap_to_cause_tval deleg_to_s enter_machine
machine_entered = refl

mret-handle_trap_example :
    Resumes
      (hart_in machine Csr.new)
      4
      machine_spent
      (mret (handle_trap (hart_in machine Csr.new) Types.breakpoint 4))
mret-handle_trap_example =
    mret-handle_trap (hart_in machine Csr.new) Types.breakpoint 4 new-IsCsrFile breakpoint_known
      machine_entered

-- Breakpoints delegated.
abbrev delegated : CsrFile
delegated = set_csr Csr.new csr_medeleg 8

delegated-IsCsrFile : IsCsrFile delegated
delegated-IsCsrFile =
    set_csr-IsCsrFile Csr.new csr_medeleg 8 new-IsCsrFile (omega arith) (omega arith)

supervisor_entered : (handle_trap (hart_in user delegated) Types.breakpoint 4).mode ≡ supervisor
unfolding handle_trap trap_to_cause_tval deleg_to_s enter_supervisor
supervisor_entered =
    ground (arith, csr-set_csr Csr.new csr_medeleg 8 csr_medeleg new-IsCsrFile (omega arith))

sret-handle_trap_example :
    Resumes
      (hart_in user delegated)
      4
      supervisor_spent
      (sret (handle_trap (hart_in user delegated) Types.breakpoint 4))
sret-handle_trap_example =
    sret-handle_trap (hart_in user delegated) Types.breakpoint 4 delegated-IsCsrFile
      breakpoint_known supervisor_entered

-- The machine timer, pending and enabled.
abbrev ticking : CsrFile
ticking = set_csr (set_csr Csr.new csr_mip 128) csr_mie 128

pending-IsCsrFile : IsCsrFile (set_csr Csr.new csr_mip 128)
pending-IsCsrFile = set_csr-IsCsrFile Csr.new csr_mip 128 new-IsCsrFile (omega arith) (omega arith)

ticking-IsCsrFile : IsCsrFile ticking
ticking-IsCsrFile =
    set_csr-IsCsrFile (set_csr Csr.new csr_mip 128) csr_mie 128 pending-IsCsrFile (omega arith)
      (omega arith)

check_pending_interrupt_example :
    check_pending_interrupt (hart_in user ticking)
    ≡ first_that (may_take (hart_in user ticking)) by_priority
check_pending_interrupt_example =
    check_pending_interrupt_lem (hart_in user ticking) (ticking-IsCsrFile.words csr_mideleg)

new_zero : (a : ℕ) → csr Csr.new a ≡ 0
unfolding Csr.new
new_zero a = get_or-replicate {A = ℕ} num_csrs a 0

timer_chosen : check_pending_interrupt (hart_in user ticking) ≡ some Types.machine_timer_interrupt
unfolding check_pending_interrupt m_enabled m_pending
timer_chosen =
    let mie =
      csr-set_csr (set_csr Csr.new csr_mip 128) csr_mie 128 csr_mie pending-IsCsrFile
        (omega arith) in
    let mip =
      csr-set_csr (set_csr Csr.new csr_mip 128) csr_mie 128 csr_mip pending-IsCsrFile
        (omega arith) in
    let old_mip = csr-set_csr Csr.new csr_mip 128 csr_mip new-IsCsrFile (omega arith) in
    let mideleg =
      csr-set_csr (set_csr Csr.new csr_mip 128) csr_mie 128 csr_mideleg pending-IsCsrFile
        (omega arith) in
    let old_mideleg = csr-set_csr Csr.new csr_mip 128 csr_mideleg new-IsCsrFile (omega arith) in
    rw (mie, mip, old_mip, mideleg, old_mideleg, new_zero csr_mideleg) refl

check_pending_interrupt-handle_trap_example :
    check_pending_interrupt (handle_trap (hart_in user ticking) Types.machine_timer_interrupt 4)
    ≡ none
check_pending_interrupt-handle_trap_example =
    check_pending_interrupt-handle_trap (hart_in user ticking) Types.machine_timer_interrupt 4
      ticking-IsCsrFile timer_chosen
