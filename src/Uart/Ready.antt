-- ===== src/Uart/Ready.antt =====
-- riscv-vm/src/devices/uart.rs: the line status register tells whether there is input.
use bavy.Prelude.{
  ℕ, ◌≡◌, refl, sym, ap, ◌∙◌, ◌%◌, arith, bit_and, bit_or, Bool, true, false, if◌then◌else◌, List,
  [], ◌∷◌, ◌++◌,
}
use bavy.Prelude.Bits.{bit, bit-bit_and, bit-bit_or, bit-lt, complement}
use bavy.Uart.State.{
  Uart, UartRegs, new, update_interrupts_internal, update_interrupts, clear_data_ready, is_empty,
  set_input, set_output, push_input, pop_output, drain_output, push_output, push_output_str,
  pop_front, clear_interrupt,
}
use bavy.Uart.Mmio.{load_rbr, load_iir, load, store_thr, store_fcr, store}

-- Data Ready is set exactly when the input queue is not empty.
unfoldable pub IsReady : Uart → Type 0
IsReady u = bit u.regs.lsr 0 ≡ (if is_empty u.rx then 0 else 1)

-- The accesses of the guest and the operations of the host, but for the registers of a snapshot.
pub data Step : Uart → Uart → Type 0 where
  loaded : (u : Uart) (offset size : ℕ) → Step u (load u offset size).0
  stored : (u : Uart) (offset size value : ℕ) → Step u (store u offset size value)
  input_pushed : (u : Uart) (byte : ℕ) → Step u (push_input u byte)
  input_restored : (u : Uart) (values : List ℕ) → Step u (set_input u values)
  output_restored : (u : Uart) (values : List ℕ) → Step u (set_output u values)
  output_popped : (u : Uart) → Step u (pop_output u).0
  output_drained : (u : Uart) → Step u (drain_output u).0
  output_pushed : (u : Uart) (byte : ℕ) → Step u (push_output u byte)
  string_pushed : (u : Uart) (bytes : List ℕ) → Step u (push_output_str u bytes)
  interrupt_cleared : (u : Uart) → Step u (clear_interrupt u)

pub data Reached : Uart → Type 0 where
  start : Reached new
  next : {u v : Uart} → Reached u → Step u v → Reached v

lsr-update_interrupts :
    (regs : UartRegs) (thre_ip : Bool)
    → bit (update_interrupts_internal regs thre_ip).lsr 0 ≡ bit regs.lsr 0
unfolding update_interrupts_internal
lsr-update_interrupts regs thre_ip = ground arith

bit-clear : (lsr : ℕ) → bit (bit_and lsr (complement 8 1)) 0 ≡ 0
unfolding bit
bit-clear lsr = omega (arith, bit-bit_and lsr (complement 8 1) 0)

bit-set : (lsr : ℕ) → bit (bit_or lsr 1) 0 ≡ 1
unfolding bit
bit-set lsr = omega (arith, bit-bit_or lsr 1 0, bit-lt lsr 0)

bit-kept : (lsr m : ℕ) → m % 2 ≡ 0 → bit (bit_or lsr m) 0 ≡ bit lsr 0
unfolding bit
bit-kept lsr m even = omega (arith, bit-bit_or lsr m 0)

is_empty-append : (xs : List ℕ) (b : ℕ) → is_empty (xs ++ b ∷ []) ≡ false
unfolding is_empty
is_empty-append [] b = refl
is_empty-append (x ∷ xs) b = refl

update_interrupts-IsReady : (u : Uart) → IsReady u → IsReady (update_interrupts u)
unfolding IsReady
update_interrupts-IsReady u ready = lsr-update_interrupts u.regs u.thre_ip ∙ ready

load_rbr-IsReady : (u : Uart) → IsReady u → IsReady (load_rbr u).0
unfolding IsReady load_rbr is_empty pop_front
load_rbr-IsReady u ready = lsr-update_interrupts _ u.thre_ip ∙ go u.rx ready
  where
    go :
        (rx : List ℕ)
        → bit u.regs.lsr 0 ≡ (if is_empty rx then 0 else 1)
        → bit (if is_empty (pop_front rx).0 then clear_data_ready u.regs else u.regs).lsr 0
          ≡ (if is_empty (pop_front rx).0 then 0 else 1)
    go [] h = bit-clear u.regs.lsr
    go (b ∷ []) h = bit-clear u.regs.lsr
    go (b ∷ c ∷ rest) h = h

thre_ip-IsReady : (u : Uart) → IsReady u → IsReady (record u { thre_ip = false })
unfolding IsReady
thre_ip-IsReady u ready = ready

load-IsReady : (u : Uart) (offset size : ℕ) → IsReady u → IsReady (load u offset size).0
unfolding load load_iir
load-IsReady u offset size ready = ground (
  arith,
  ready,
  load_rbr-IsReady u ready,
  update_interrupts-IsReady (record u { thre_ip = false }) (thre_ip-IsReady u ready),
)

store_fcr-IsReady : (u : Uart) (val : ℕ) → IsReady u → IsReady (store_fcr u val)
unfolding IsReady store_fcr is_empty
store_fcr-IsReady u val ready = ground (
  arith,
  bit-clear u.regs.lsr,
  bit-kept u.regs.lsr 0x60 refl,
  bit-kept (bit_and u.regs.lsr (complement 8 1)) 0x60 refl,
)

store_thr-IsReady : (u : Uart) (val : ℕ) → IsReady u → IsReady (store_thr u val)
unfolding IsReady store_thr
store_thr-IsReady u val ready = lsr-update_interrupts _ true ∙ bit-kept u.regs.lsr 0x20 refl ∙ ready

store-IsReady : (u : Uart) (offset size value : ℕ) → IsReady u → IsReady (store u offset size value)
unfolding store IsReady
store-IsReady u offset size value ready =
    let val = bit_and value 0xff in
    ground (
      arith,
      store_thr-IsReady u val ready,
      store_fcr-IsReady u val ready,
      lsr-update_interrupts (record u.regs { ier = val }) u.thre_ip,
    )

-- Every access of the guest and every operation of the host but the restoring of the registers
-- keeps Data Ready in step with the input queue.
pub Step-IsReady : {u v : Uart} → Step u v → IsReady u → IsReady v
unfolding IsReady is_empty set_input push_input pop_output drain_output push_output push_output_str
    set_output clear_interrupt
Step-IsReady (loaded u offset size) ready = load-IsReady u offset size ready
Step-IsReady (stored u offset size value) ready = store-IsReady u offset size value ready
Step-IsReady (input_pushed u byte) ready =
    lsr-update_interrupts _ u.thre_ip
    ∙ bit-set u.regs.lsr
    ∙ sym (ap (λ (t : Bool). if t then 0 else 1) (is_empty-append u.rx byte))
Step-IsReady (input_restored u []) ready = bit-clear u.regs.lsr
Step-IsReady (input_restored u (v ∷ values)) ready = bit-set u.regs.lsr
Step-IsReady (output_restored u values) ready = ready
Step-IsReady (output_popped u) ready = ready
Step-IsReady (output_drained u) ready = ready
Step-IsReady (output_pushed u byte) ready = ready
Step-IsReady (string_pushed u bytes) ready = ready
Step-IsReady (interrupt_cleared u) ready = ready

-- In every state that a new serial port reaches by accesses of the guest and operations of the
-- host, but for the restoring of the registers, Data Ready is set exactly when there is input.
pub Reached-IsReady : {u : Uart} → Reached u → IsReady u
unfolding IsReady new is_empty bit
Reached-IsReady start = refl
Reached-IsReady (next reached step) = Step-IsReady step (Reached-IsReady reached)
