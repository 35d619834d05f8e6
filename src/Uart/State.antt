-- ===== src/Uart/State.antt =====
-- riscv-vm/src/devices/uart.rs: the registers, the queues and the host's operations. Each
-- operation holds the locks of what it changes to its end, so it is one step.
use bavy.Prelude.{
  ℕ, bit_and, bit_or, Bool, true, false, not, ◌&&◌, ◌==◌, if◌then◌else◌, List, [], ◌∷◌, ◌++◌,
  Option, none, some,
}
use bavy.Prelude.Bits.{complement}

pub record UartRegs : Type 0 where
  pub ier : ℕ
  pub iir : ℕ
  pub fcr : ℕ
  pub lcr : ℕ
  pub mcr : ℕ
  pub lsr : ℕ
  pub msr : ℕ
  pub scr : ℕ
  pub dll : ℕ
  pub dlm : ℕ
  pub interrupting : Bool

-- The queues of `RxState` and `TxState`, the latter's flag and the registers.
pub record Uart : Type 0 where
  pub rx : List ℕ
  pub tx : List ℕ
  pub thre_ip : Bool
  pub regs : UartRegs

unfoldable pub new : Uart
new = record {
  rx = [];
  tx = [];
  thre_ip = true;
  regs = record {
    ier = 0;
    iir = 1;
    fcr = 0;
    lcr = 0;
    mcr = 0;
    lsr = 0x60;
    msr = 0;
    scr = 0;
    dll = 0;
    dlm = 0;
    interrupting = false;
  };
}

unfoldable pub update_interrupts_internal : UartRegs → Bool → UartRegs
update_interrupts_internal regs thre_ip =
    if not (bit_and regs.lsr 0x01 == 0) && not (bit_and regs.ier 0x01 == 0)
    then record regs { interrupting = true; iir = 0x04 }
    else if thre_ip && not (bit_and regs.ier 0x02 == 0)
    then record regs { interrupting = true; iir = 0x02 }
    else record regs { interrupting = false; iir = 0x01 }

-- `update_interrupts_internal` on the registers and the flag in place.
abbrev pub update_interrupts : Uart → Uart
update_interrupts u = record u { regs = update_interrupts_internal u.regs u.thre_ip }

-- `lsr &= !0x01` and `lsr |= 0x01`.
abbrev pub clear_data_ready : UartRegs → UartRegs
clear_data_ready regs = record regs { lsr = bit_and regs.lsr (complement 8 0x01) }

abbrev pub set_data_ready : UartRegs → UartRegs
set_data_ready regs = record regs { lsr = bit_or regs.lsr 0x01 }

unfoldable pub is_empty : List ℕ → Bool
is_empty [] = true
is_empty (b ∷ rest) = false

unfoldable pub set_input : Uart → List ℕ → Uart
set_input u values = record u {
  rx = values;
  regs = if is_empty values then clear_data_ready u.regs else set_data_ready u.regs;
}

unfoldable pub set_output : Uart → List ℕ → Uart
set_output u values = record u { tx = values }

-- `set_registers`: the ten registers of `saved`.
unfoldable pub set_registers : Uart → UartRegs → Uart
set_registers u saved =
    update_interrupts (record u { regs = record saved { interrupting = u.regs.interrupting } })

unfoldable pub push_input : Uart → ℕ → Uart
push_input u byte =
    update_interrupts (record u { rx = u.rx ++ byte ∷ []; regs = set_data_ready u.regs })

-- `VecDeque::pop_front`.
unfoldable pub pop_front : List ℕ → List ℕ × Option ℕ
pop_front [] = ([], none)
pop_front (b ∷ rest) = (rest, some b)

unfoldable pub pop_output : Uart → Uart × Option ℕ
pop_output u = let (rest, byte) = pop_front u.tx in (record u { tx = rest }, byte)

unfoldable pub drain_output : Uart → Uart × List ℕ
drain_output u = (record u { tx = [] }, u.tx)

unfoldable pub push_output : Uart → ℕ → Uart
push_output u byte = record u { tx = u.tx ++ byte ∷ [] }

-- `push_output_str`, on the bytes of the string.
unfoldable pub push_output_str : Uart → List ℕ → Uart
push_output_str u bytes = record u { tx = u.tx ++ bytes }

unfoldable pub clear_interrupt : Uart → Uart
clear_interrupt u = record u { regs = record u.regs { interrupting = false } }
