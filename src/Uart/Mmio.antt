-- ===== src/Uart/Mmio.antt =====
-- riscv-vm/src/devices/uart.rs: the memory-mapped registers. Every access succeeds, so the value
-- of a load stands without its `Ok`.
use bavy.Prelude.{
  ℕ, bit_and, bit_or, Bool, true, false, not, ◌==◌, if◌then◌else◌, [], ◌∷◌, ◌++◌, Option, none,
  some,
}
use bavy.Uart.State.{Uart, update_interrupts, clear_data_ready, is_empty, pop_front}

-- The DLAB bit selects the divisor latch.
abbrev pub dlab : Uart → Bool
dlab u = not (bit_and u.regs.lcr 0x80 == 0)

abbrev pub unwrap_or : Option ℕ → ℕ → ℕ
unwrap_or none d = d
unwrap_or (some b) d = b

-- RBR in normal mode.
unfoldable pub load_rbr : Uart → Uart × ℕ
load_rbr u =
    let (rest, byte) = pop_front u.rx in
    let regs = if is_empty rest then clear_data_ready u.regs else u.regs in
    (update_interrupts (record u { rx = rest; regs = regs }), unwrap_or byte 0)

unfoldable pub load_iir : Uart → Uart × ℕ
load_iir u =
    if bit_and u.regs.iir 0x0F == 0x02
    then (update_interrupts (record u { thre_ip = false }), u.regs.iir)
    else (u, u.regs.iir)

unfoldable pub load : Uart → ℕ → ℕ → Uart × ℕ
load u offset size =
    let received = load_rbr u in
    let identified = load_iir u in
    if not (size == 1)
    then (u, 0)
    else if offset == 0
    then if dlab u then (u, u.regs.dll) else received
    else if offset == 1
    then if dlab u then (u, u.regs.dlm) else (u, u.regs.ier)
    else if offset == 2
    then identified
    else if offset == 3
    then (u, u.regs.lcr)
    else if offset == 4
    then (u, u.regs.mcr)
    else if offset == 5
    then (u, u.regs.lsr)
    else if offset == 6
    then (u, u.regs.msr)
    else if offset == 7
    then (u, u.regs.scr)
    else (u, 0)

-- THR in normal mode: the byte is sent at once, and the THRE interrupt asserted again.
unfoldable pub store_thr : Uart → ℕ → Uart
store_thr u val = update_interrupts (record u {
  tx = u.tx ++ val ∷ [];
  thre_ip = true;
  regs = record u.regs { lsr = bit_or u.regs.lsr 0x20 };
})

-- FCR: bits 1 and 2 clear the queues.
unfoldable pub store_fcr : Uart → ℕ → Uart
store_fcr u val =
    let cleared =
      if not (bit_and val 0x02 == 0)
      then record u { rx = []; regs = clear_data_ready (record u.regs { fcr = val }) }
      else record u { regs = record u.regs { fcr = val } } in
    if not (bit_and val 0x04 == 0)
    then record cleared {
      tx = [];
      regs = record cleared.regs { lsr = bit_or cleared.regs.lsr 0x60 };
    }
    else cleared

unfoldable pub store : Uart → ℕ → ℕ → ℕ → Uart
store u offset size value =
    let val = bit_and value 0xff in
    if not (size == 1)
    then u
    else if offset == 0
    then if dlab u then record u { regs = record u.regs { dll = val } } else store_thr u val
    else if offset == 1
    then if dlab u
      then record u { regs = record u.regs { dlm = val } }
      else update_interrupts (record u { regs = record u.regs { ier = val } })
    else if offset == 2
    then store_fcr u val
    else if offset == 3
    then record u { regs = record u.regs { lcr = val } }
    else if offset == 4
    then record u { regs = record u.regs { mcr = val } }
    else if offset == 7
    then record u { regs = record u.regs { scr = val } }
    else u
