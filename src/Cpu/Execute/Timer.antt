-- ===== src/Cpu/Execute/Timer.antt =====
-- riscv-vm/src/cpu/execution.rs: the timer comparison of the poll reaches the hart (Sstc).
use bavy.Prelude.{
  ℕ, ◌+◌, ◌%◌, ◌^◌, ◌≤◌, ◌≡◌, ◌≢◌, refl, ◌∙◌, arith, bit_and, ◌==◌, if◌then◌else◌, Bool, true,
  false, none, some, Option-cases, ne→==, eq→==, inl, inr, ok, err,
}
use bavy.Prelude.Bits.{◌<<<◌, bit, bit-bit_and, bit-bit_or, bit-lt, bit_and-pow_test, bit-pow}
use bavy.Bus.{Bus}
use bavy.Cpu.Types.{Trap}
use bavy.Cpu.Csr.{csr, csr_mip, csr_mie, csr_mstatus, sie_mask, merge}
use bavy.Cpu.Csr.Views.{IsCsrFile, csr-set_csr, bit-merge}
use bavy.Cpu.State.{Cpu, csr_mhartid, csr_mideleg}
use bavy.Cpu.Trap.{handle_trap, check_pending_interrupt, s_enabled, s_pending}
use bavy.Clint.Mmio.{mtime_offset}
use bavy.Cpu.Execute.Monad.{bind}
use bavy.Cpu.Execute.System.{clint_base}
use bavy.Cpu.Execute.Poll.{
  csr_stimecmp, sstc_enabled, with_stip, poll_mask, update_mip, hardware_mip, take_interrupt,
  poll_interrupts, counted, count_and_poll, step_single,
}

-- What the poll leaves in the other registers, and in bit 5 of mip.
module _ (c : Cpu) (hw_mip : ℕ) (h : IsCsrFile c.csrs) where
  polled_mip : ℕ
  polled_mip = merge (csr c.csrs csr_mip) hw_mip (poll_mask c.csrs)

  csr-update_mip :
      (a : ℕ)
      → csr (update_mip c hw_mip).csrs a ≡ (if csr_mip == a then polled_mip else csr c.csrs a)
  unfolding update_mip polled_mip merge
  csr-update_mip a = csr-set_csr c.csrs csr_mip _ a h (omega arith)

  poll_mask-sstc :
      sstc_enabled c.csrs ≡ true → poll_mask c.csrs ≡ 2 ^ 3 + 2 ^ 5 + 2 ^ 7 + 2 ^ 9 + 2 ^ 11
  unfolding poll_mask
  poll_mask-sstc e = rw e refl

  bit-update_mip :
      sstc_enabled c.csrs ≡ true → bit (csr (update_mip c hw_mip).csrs csr_mip) 5 ≡ bit hw_mip 5
  unfolding polled_mip
  bit-update_mip e =
      rw (csr-update_mip csr_mip, poll_mask-sstc e)
        (bit-merge (csr c.csrs csr_mip) hw_mip (2 ^ 3 + 2 ^ 5 + 2 ^ 7 + 2 ^ 9 + 2 ^ 11) 5
            (h.words csr_mip) (omega arith)
          ∙ unfold bit in refl)

  s_enabled-update_mip : s_enabled (update_mip c hw_mip) ≡ s_enabled c
  unfolding s_enabled update_mip
  s_enabled-update_mip = ground (arith, csr-update_mip csr_mstatus)

  s_pending-update_mip :
      bit (csr (update_mip c hw_mip).csrs csr_mip) 5 ≡ 1
      → bit (csr c.csrs csr_mie) 5 ≡ 1
      → bit (csr c.csrs csr_mideleg) 5 ≡ 1
      → bit (s_pending (update_mip c hw_mip)) 5 ≡ 1
  unfolding s_pending
  s_pending-update_mip mip mie mideleg =
      let f = (update_mip c hw_mip).csrs in
      let shown : bit sie_mask 5 ≡ 1 = unfold bit in refl in
      rw
        (
          bit-bit_and (bit_and (csr f csr_mip) (bit_and (csr f csr_mie) sie_mask))
              (csr f csr_mideleg) 5,
          bit-bit_and (csr f csr_mip) (bit_and (csr f csr_mie) sie_mask) 5,
          bit-bit_and (csr f csr_mie) sie_mask 5,
          csr-update_mip csr_mie,
          csr-update_mip csr_mideleg,
          mip,
          mie,
          mideleg,
          shown,
        )
        refl

  -- A delegated supervisor timer interrupt that is enabled is seen.
  check_pending_interrupt-update_mip :
      sstc_enabled c.csrs ≡ true
      → bit hw_mip 5 ≡ 1
      → bit (csr c.csrs csr_mie) 5 ≡ 1
      → bit (csr c.csrs csr_mideleg) 5 ≡ 1
      → s_enabled c ≡ true
      → check_pending_interrupt (update_mip c hw_mip) ≢ none
  unfolding check_pending_interrupt
  check_pending_interrupt-update_mip e hw mie mideleg enabled =
      let pending : bit (s_pending (update_mip c hw_mip)) 5 ≡ 1 =
        s_pending-update_mip (bit-update_mip e ∙ hw) mie mideleg in
      let seen : (bit_and (s_pending (update_mip c hw_mip)) (1 <<< 5) == 0) ≡ false =
        bit_and-pow_test (s_pending (update_mip c hw_mip)) 5 ∙ rw pending refl in
      let on : s_enabled (update_mip c hw_mip) ≡ true = s_enabled-update_mip ∙ enabled in
      ground (arith, seen, on)

with_stip-bit :
    (hw_mip stimecmp now : ℕ) → stimecmp ≤ now → bit (with_stip hw_mip stimecmp (ok now)) 5 ≡ 1
unfolding with_stip
with_stip-bit hw_mip stimecmp now reached =
    ground (arith, reached, bit-bit_or hw_mip (2 ^ 5) 5, bit-pow 5 5, bit-lt hw_mip 5)

module _ (bus : Bus) (poll_interrupts_for_hart : ℕ → bus.State → bus.State × ℕ) where
  -- The hart that a poll leaves, with the devices' interrupts and the timer's.
  abbrev pub polled : Cpu → bus.State → Cpu
  polled c m = update_mip (counted c) (hardware_mip bus poll_interrupts_for_hart (counted c) m).1

  hardware_mip-counted :
      (c : Cpu) (m m' : bus.State) (now : ℕ)
      → sstc_enabled c.csrs ≡ true
      → csr c.csrs csr_stimecmp ≢ 0
      → bus.load
          ((poll_interrupts_for_hart (csr c.csrs csr_mhartid) m).0)
          (clint_base + mtime_offset)
          8
        ≡ (m', ok now)
      → hardware_mip bus poll_interrupts_for_hart (counted c) m ≡ (
        m',
        with_stip
            ((poll_interrupts_for_hart (csr c.csrs csr_mhartid) m).1)
            (csr c.csrs csr_stimecmp)
            (ok now),
      )
  unfolding hardware_mip
  hardware_mip-counted c m m' now sstc set time =
      rw (sstc, ne→== (csr c.csrs csr_stimecmp) 0 set, time) refl

  -- At a poll with Sstc on, a comparison value other than 0 that the time has reached, and the
  -- supervisor timer interrupt enabled, delegated and open in the current mode: the step runs no
  -- instruction but enters a trap, at the pc that the hart had. The interrupt is the timer's
  -- or one that goes before it.
  pub step_single_timer :
      (handle_sbi_call : Cpu → bus.State → Cpu × bus.State × Bool) (c : Cpu) (m m' : bus.State)
      (now : ℕ)
      → IsCsrFile c.csrs
      → (c.poll_counter + 1) % 2 ^ 8 ≡ 0
      → sstc_enabled c.csrs ≡ true
      → csr c.csrs csr_stimecmp ≢ 0
      → bus.load
          ((poll_interrupts_for_hart (csr c.csrs csr_mhartid) m).0)
          (clint_base + mtime_offset)
          8
        ≡ (m', ok now)
      → csr c.csrs csr_stimecmp ≤ now
      → bit (csr c.csrs csr_mie) 5 ≡ 1
      → bit (csr c.csrs csr_mideleg) 5 ≡ 1
      → s_enabled c ≡ true
      → (t : Trap) × (check_pending_interrupt (polled c m) ≡ some t)
        × (step_single bus poll_interrupts_for_hart handle_sbi_call c m
            ≡ (handle_trap (polled c m) t c.pc, m', err t))
  unfolding step_single count_and_poll poll_interrupts take_interrupt update_mip bind
  step_single_timer handle_sbi_call c m m' now h due sstc set time reached mie mideleg enabled =
      let due_now : ((c.poll_counter + 1) % 2 ^ 8 == 0) ≡ true =
        eq→== ((c.poll_counter + 1) % 2 ^ 8) 0 due in
      let enabled' : s_enabled (counted c) ≡ true = unfold s_enabled in enabled in
      let hw_mip =
        with_stip ((poll_interrupts_for_hart (csr c.csrs csr_mhartid) m).1)
          (csr c.csrs csr_stimecmp) (ok now) in
      let stip : bit hw_mip 5 ≡ 1 =
        with_stip-bit ((poll_interrupts_for_hart (csr c.csrs csr_mhartid) m).1)
          (csr c.csrs csr_stimecmp) now reached in
      rw (hardware_mip-counted c m m' now sstc set time, due_now)
        (elim (Option-cases (check_pending_interrupt (update_mip (counted c) hw_mip))) [
          | inl nothing ↦ absurd (
              check_pending_interrupt-update_mip (counted c) hw_mip h sstc stip mie mideleg enabled'
                nothing)
          | inr (t, e) ↦ (t, e, rw e refl)
        ])
