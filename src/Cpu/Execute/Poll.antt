-- ===== src/Cpu/Execute/Poll.antt =====
-- riscv-vm/src/cpu/execution.rs: the interrupt polling of `step` and `step_single`, every 256th
-- instruction. What the devices raise, `poll_interrupts_for_hart`, is a parameter.
use bavy.Prelude.{
  ℕ, ◌+◌, ◌%◌, ◌^◌, bit_and, bit_or, ◌==◌, leb, if◌then◌else◌, Bool, not, ◌&&◌, Option, none, some,
  Result, ok, err,
}
use bavy.Prelude.Bits.{complement, ◌>>>◌, ◌<<<◌}
use bavy.Bus.{Bus}
use bavy.Cpu.Types.{Trap}
use bavy.Cpu.Csr.{CsrFile, csr, set_csr, csr_mip}
use bavy.Cpu.State.{Cpu, csr_mhartid}
use bavy.Cpu.Trap.{handle_trap, check_pending_interrupt}
use bavy.Clint.Mmio.{mtime_offset}
use bavy.Cpu.Execute.Monad.{Exec, bind, pure}
use bavy.Cpu.Execute.System.{clint_base}
use bavy.Cpu.Execute.Step.{step_single_inner}

abbrev pub csr_menvcfg : ℕ
csr_menvcfg = 0x30A

abbrev pub csr_stimecmp : ℕ
csr_stimecmp = 0x14D

unfoldable pub sstc_enabled : CsrFile → Bool
sstc_enabled f = bit_and (csr f csr_menvcfg >>> 63) 1 == 1

-- hw_mip with STIP, by what the read of mtime gave.
unfoldable pub with_stip : ℕ → ℕ → Result ℕ Trap → ℕ
with_stip hw_mip stimecmp (ok now) = if leb stimecmp now then bit_or hw_mip (1 <<< 5) else hw_mip
with_stip hw_mip stimecmp (err t) = hw_mip

abbrev pub hw_bits : ℕ
hw_bits = 2 ^ 3 + 2 ^ 7 + 2 ^ 9 + 2 ^ 11

-- The bits of mip that the poll writes.
unfoldable pub poll_mask : CsrFile → ℕ
poll_mask f = if sstc_enabled f then bit_or hw_bits (1 <<< 5) else hw_bits

unfoldable pub update_mip : Cpu → ℕ → Cpu
update_mip c hw_mip =
    let mask = poll_mask c.csrs in
    let old_mip = csr c.csrs csr_mip in
    record c {
      csrs =
          set_csr c.csrs csr_mip
            (bit_or (bit_and old_mip (complement 64 mask)) (bit_and hw_mip mask));
    }

abbrev pub counted : Cpu → Cpu
counted c = record c { poll_counter = (c.poll_counter + 1) % 2 ^ 8 }

module _ (bus : Bus) (poll_interrupts_for_hart : ℕ → bus.State → bus.State × ℕ) where
  -- The interrupts of the hart's devices and of its timer.
  unfoldable pub hardware_mip : Cpu → bus.State → bus.State × ℕ
  hardware_mip c m =
      let (m', hw_mip) = poll_interrupts_for_hart (csr c.csrs csr_mhartid) m in
      let stimecmp = csr c.csrs csr_stimecmp in
      let (m'', now) = bus.load m' (clint_base + mtime_offset) 8 in
      if sstc_enabled c.csrs && not (stimecmp == 0)
      then (m'', with_stip hw_mip stimecmp now)
      else (m', hw_mip)

  unfoldable pub take_interrupt : Option Trap → Exec bus (Unit {0})
  take_interrupt none c m = (c, m, ok tt)
  take_interrupt (some t) c m = (handle_trap c t c.pc, m, err t)

  unfoldable pub poll_interrupts : Exec bus (Unit {0})
  poll_interrupts c m =
      let (m', hw_mip) = hardware_mip c m in
      let c' = update_mip c hw_mip in take_interrupt (check_pending_interrupt c') c' m'

  -- The poll that is due every 256th time.
  unfoldable pub count_and_poll : Exec bus (Unit {0})
  count_and_poll c m =
      if (counted c).poll_counter == 0
      then poll_interrupts (counted c) m
      else pure bus tt (counted c) m

  unfoldable pub step_single : (Cpu → bus.State → Cpu × bus.State × Bool) → Exec bus (Unit {0})
  step_single handle_sbi_call = bind bus count_and_poll (λ _. step_single_inner bus handle_sbi_call)
