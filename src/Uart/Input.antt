-- ===== src/Uart/Input.antt =====
-- riscv-vm/src/devices/uart.rs: bytes pass through the queues in order.
use bavy.Prelude.{
  ℕ, zero, suc, ◌≡◌, refl, sym, ap, ◌∙◌, arith, bit_and, Bool, true, false, not, ◌==◌, List, [],
  ◌∷◌, ◌++◌, length, map,
}
use mathlib.Core.List.{append_assoc, append-nil}
use bavy.Uart.State.{
  Uart, UartRegs, update_interrupts_internal, push_input, drain_output, pop_front,
}
use bavy.Uart.Mmio.{dlab, unwrap_or, load_rbr, load, store, store_thr}

-- n loads of the receiver's register.
unfoldable pub receive : ℕ → Uart → Uart × List ℕ
receive zero u = (u, [])
receive (suc n) u = let (v, byte) = load u 0 1 in let (w, bytes) = receive n v in (w, byte ∷ bytes)

-- The host's input, byte by byte.
unfoldable pub push_all : Uart → List ℕ → Uart
push_all u [] = u
push_all u (b ∷ bytes) = push_all (push_input u b) bytes

-- The guest's stores of bytes into the transmitter's register.
unfoldable send : Uart → List ℕ → Uart
send u [] = u
send u (b ∷ bytes) = send (store u 0 1 b) bytes

lcr-update_interrupts :
    (regs : UartRegs) (thre_ip : Bool) → (update_interrupts_internal regs thre_ip).lcr ≡ regs.lcr
unfolding update_interrupts_internal
lcr-update_interrupts regs thre_ip = ground arith

abbrev is_dlab : ℕ → Bool
is_dlab lcr = not (bit_and lcr 0x80 == 0)

load-normal : (u : Uart) → dlab u ≡ false → load u 0 1 ≡ load_rbr u
unfolding load
load-normal u normal = ground (arith, normal)

load_lem :
    (u : Uart) (x : ℕ) (rest : List ℕ)
    → dlab u ≡ false
    → u.rx ≡ x ∷ rest
    → ((load u 0 1).1 ≡ x) × ((load u 0 1).0.rx ≡ rest) × (dlab (load u 0 1).0 ≡ false)
unfolding load_rbr pop_front
load_lem u x rest normal queue = rw (load-normal u normal) (
  ap (λ l. unwrap_or (pop_front l).1 0) queue,
  ap (λ l. (pop_front l).0) queue,
  ap is_dlab (lcr-update_interrupts _ u.thre_ip) ∙ ground (arith, normal),
)

-- With DLAB clear, n loads give the first n bytes of the input queue and leave the others.
receive_lem :
    (u : Uart) (xs ys : List ℕ)
    → dlab u ≡ false
    → u.rx ≡ xs ++ ys
    → ((receive (length xs) u).1 ≡ xs) × ((receive (length xs) u).0.rx ≡ ys)
unfolding receive
receive_lem u [] ys normal queue = (refl, queue)
receive_lem u (x ∷ xs) ys normal queue =
    let first = load_lem u x (xs ++ ys) normal queue in
    let others = receive_lem (load u 0 1).0 xs ys first.2 first.1 in
    (rw (first.0, others.0) refl, others.1)

rx-push_all : (u : Uart) (bytes : List ℕ) → (push_all u bytes).rx ≡ u.rx ++ bytes
unfolding push_all push_input
rx-push_all u [] = sym (append-nil u.rx)
rx-push_all u (b ∷ bytes) = rx-push_all (push_input u b) bytes ∙ append_assoc u.rx (b ∷ []) bytes

dlab-push_all : (u : Uart) (bytes : List ℕ) → dlab (push_all u bytes) ≡ dlab u
unfolding push_all push_input
dlab-push_all u [] = refl
dlab-push_all u (b ∷ bytes) =
    dlab-push_all (push_input u b) bytes ∙ ap is_dlab (lcr-update_interrupts _ u.thre_ip)

-- With DLAB clear, the guest receives the bytes that wait and then those that the host pushes, in
-- order, and the input queue is empty after them.
pub receive-push_all :
    (u : Uart) (bytes : List ℕ)
    → dlab u ≡ false
    → ((receive (length (u.rx ++ bytes)) (push_all u bytes)).1 ≡ u.rx ++ bytes)
      × ((receive (length (u.rx ++ bytes)) (push_all u bytes)).0.rx ≡ [])
receive-push_all u bytes normal =
    receive_lem (push_all u bytes) (u.rx ++ bytes) [] (dlab-push_all u bytes ∙ normal)
      (rx-push_all u bytes ∙ sym (append-nil (u.rx ++ bytes)))

store-normal : (u : Uart) (b : ℕ) → dlab u ≡ false → store u 0 1 b ≡ store_thr u (bit_and b 0xff)
unfolding store
store-normal u b normal = ground (arith, normal)

dlab-store : (u : Uart) (b : ℕ) → dlab u ≡ false → dlab (store u 0 1 b) ≡ false
unfolding store_thr
dlab-store u b normal =
    rw (store-normal u b normal) (ap is_dlab (lcr-update_interrupts _ true) ∙ normal)

tx-store : (u : Uart) (b : ℕ) → dlab u ≡ false → (store u 0 1 b).tx ≡ u.tx ++ bit_and b 0xff ∷ []
unfolding store_thr
tx-store u b normal = ap (λ (v : Uart). v.tx) (store-normal u b normal)

-- With DLAB clear, draining the output gives the bytes that waited and then the low bytes of what
-- the guest stored, in order.
drain_output-send :
    (u : Uart) (bytes : List ℕ)
    → dlab u ≡ false
    → (drain_output (send u bytes)).1 ≡ u.tx ++ map (λ b. bit_and b 0xff) bytes
unfolding drain_output send
drain_output-send u [] normal = sym (append-nil u.tx)
drain_output-send u (b ∷ bytes) normal =
    let others = drain_output-send (store u 0 1 b) bytes (dlab-store u b normal) in
    others
    ∙ ap (λ l. l ++ map (λ c. bit_and c 0xff) bytes) (tx-store u b normal)
    ∙ append_assoc u.tx (bit_and b 0xff ∷ []) (map (λ c. bit_and c 0xff) bytes)
