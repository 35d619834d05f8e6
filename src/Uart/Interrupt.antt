-- ===== src/Uart/Interrupt.antt =====
-- riscv-vm/src/devices/uart.rs: the interrupt that the registers signal.
use bavy.Prelude.{
  ℕ, ◌≡◌, ◌≢◌, arith, bit_and, bit_or, Bool, true, false, not, ◌&&◌, ◌==◌, if◌then◌else◌, [], ◌∷◌,
  ◌++◌, ◌⊎◌,
}
use bavy.Prelude.Bits.{bit, bit-bit_and, bit-bit_or, bit-lt, bit_and-pow_test}
use bavy.Uart.State.{
  Uart, UartRegs, update_interrupts_internal, update_interrupts, clear_data_ready, is_empty,
  pop_front,
}
use bavy.Uart.Mmio.{load_rbr, load_iir, load, store_thr, store_fcr, store}

-- The cause to signal: received data before the empty transmitter, each when it is enabled.
abbrev cause : UartRegs → Bool → ℕ
cause regs thre_ip =
    if bit regs.lsr 0 == 1 && bit regs.ier 0 == 1
    then 4
    else if thre_ip && bit regs.ier 1 == 1
    then 2
    else 1

-- The registers signal that cause, and 1 stands for none.
unfoldable IsSignaled : Uart → Type 0
IsSignaled u =
    (u.regs.iir ≡ cause u.regs u.thre_ip)
    × (u.regs.interrupting ≡ not (cause u.regs u.thre_ip == 1))

update_interrupts-IsSignaled : (u : Uart) → IsSignaled (update_interrupts u)
unfolding IsSignaled update_interrupts_internal
update_interrupts-IsSignaled u = ground (
  arith,
  bit_and-pow_test u.regs.lsr 0,
  bit_and-pow_test u.regs.ier 0,
  bit_and-pow_test u.regs.ier 1,
  bit-lt u.regs.lsr 0,
  bit-lt u.regs.ier 0,
  bit-lt u.regs.ier 1,
)

-- A load of any register, of registers that signal the interrupt they ask for, leaves them so.
load-IsSignaled : (u : Uart) (offset size : ℕ) → IsSignaled u → IsSignaled (load u offset size).0
unfolding load load_rbr load_iir
load-IsSignaled u offset size signaled =
    let received = if is_empty (pop_front u.rx).0 then clear_data_ready u.regs else u.regs in
    ground (
      arith,
      update_interrupts-IsSignaled (record u { rx = (pop_front u.rx).0; regs = received }),
      update_interrupts-IsSignaled (record u { thre_ip = false }),
    )

low_bit-bit_or : (lsr : ℕ) → bit (bit_or lsr 0x60) 0 ≡ bit lsr 0
unfolding bit
low_bit-bit_or lsr = omega (arith, bit-bit_or lsr 0x60 0)

low_bit-clear : (lsr : ℕ) → bit (bit_and lsr 254) 0 ≡ 0
unfolding bit
low_bit-clear lsr = omega (arith, bit-bit_and lsr 254 0)

store_fcr-IsSignaled :
    (u : Uart) (val : ℕ) → IsSignaled u → bit val 1 ≡ 0 → IsSignaled (store_fcr u val)
unfolding store_fcr IsSignaled
store_fcr-IsSignaled u val signaled keeps =
    ground (arith, signaled.0, signaled.1, bit_and-pow_test val 1, low_bit-bit_or u.regs.lsr)

second_bit : (value : ℕ) → bit (bit_and value 0xff) 1 ≡ bit value 1
unfolding bit
second_bit value = omega (arith, bit-bit_and value 0xff 1)

-- A store to registers that signal the interrupt they ask for leaves them so, but for one that
-- clears the input queue.
store-IsSignaled :
    (u : Uart) (offset size value : ℕ)
    → IsSignaled u
    → (offset ≢ 2) ⊎ (bit value 1 ≡ 0)
    → IsSignaled (store u offset size value)
unfolding store store_thr IsSignaled
store-IsSignaled u offset size value signaled keeps =
    let val = bit_and value 0xff in
    let sent = record u.regs { lsr = bit_or u.regs.lsr 0x20 } in
    ground (
      arith,
      signaled.0,
      signaled.1,
      keeps,
      second_bit value,
      store_fcr-IsSignaled u val signaled,
      update_interrupts-IsSignaled
          (record u { tx = u.tx ++ val ∷ []; thre_ip = true; regs = sent }),
      update_interrupts-IsSignaled (record u { regs = record u.regs { ier = val } }),
    )

-- A store that clears the input queue leaves a received-data interrupt signalled: with that
-- interrupt pending, an FCR store of a value with bit 1 set leaves `interrupting` set and Data Ready
-- clear.
store-fcr_stale :
    (u : Uart) (value : ℕ)
    → IsSignaled u
    → u.regs.iir ≡ 4
    → bit value 1 ≡ 1
    → ((store u 2 1 value).regs.interrupting ≡ true) × (bit (store u 2 1 value).regs.lsr 0 ≡ 0)
unfolding store store_fcr IsSignaled
store-fcr_stale u value signaled received clears = ground (
  arith,
  signaled.0,
  signaled.1,
  second_bit value,
  bit_and-pow_test (bit_and value 0xff) 1,
  low_bit-bit_or (bit_and u.regs.lsr 254),
  low_bit-clear u.regs.lsr,
)
