-- ===== src/Sbi/Tests.antt =====
-- The theorems on hart state management and interrupts between harts at concrete inputs.
use bavy.Prelude.{
  arith, ℕ, suc, ◌<◌, Bool-cases, inl, inr, ◌≡◌, get_or, replicate, length, length-set,
  length-replicate, ok, ◌∙◌, ◌+◌, ◌-◌, true, ◌&&◌, ◌==◌, ltb, leb, if◌then◌else◌,
}
use bavy.Sbi.Hsm.{success, initial, stopped, started, max_harts, handle, neg}
use bavy.Bus.{Bus}
use bavy.Prelude.Bits.{bit, bit-beyond}
use bavy.Clint.State.{Clint, with_harts, is_msip_pending}
use bavy.Sbi.Ipi.{send_ipi}
use bavy.Sbi.Ipi.Delivery.{clint_bus, pending-send_ipi, pending-send_ipi_all}
use bavy.Sbi.Hsm.Calls.{moved, handle-moved}

-- A bus that counts its stores.
abbrev counter : Bus
counter = record {
  State = ℕ;
  load = λ m addr size. (m, ok 0);
  store = λ m addr size value. (suc m, ok tt);
}

initial-full : length initial ≡ max_harts
unfolding initial
initial-full =
    length-set {A = ℕ} (replicate max_harts stopped) 0 started
    ∙ length-replicate {A = ℕ} max_harts stopped

handle-moved_example :
    get_or (handle counter 0 initial 3 0 0).1 3 stopped
    ≡ moved 3 0 0 (ok tt) 3 (get_or initial 3 stopped)
handle-moved_example = handle-moved counter 0 initial 3 0 0 3 initial-full

abbrev eight : Clint
eight = with_harts 0 8

eight-full : length eight.msip ≡ max_harts
unfolding with_harts
eight-full = length-replicate max_harts 0

-- Harts 100 and 102.
only_two : (b : ℕ) → bit 5 b ≡ 1 → 100 + b < max_harts
only_two b set = elim (Bool-cases (ltb b 3)) [
  | inl low ↦ ground (arith, low)
  | inr high ↦ absurd (ground (arith, high, set, bit-beyond 3 5 b (omega arith)))
]

pending-send_ipi_example :
    ((send_ipi (clint_bus 0) eight 5 100).1 ≡ success 0)
    × (is_msip_pending (send_ipi (clint_bus 0) eight 5 100).0 102 ≡ (
        if leb 100 102 && (ltb 102 (100 + 64) && bit 5 (102 - 100) == 1)
        then true
        else is_msip_pending eight 102))
pending-send_ipi_example = pending-send_ipi 0 5 100 102 eight eight-full (omega arith) only_two

pending-send_ipi_all_example :
    is_msip_pending (send_ipi (clint_bus 0) eight 0 (neg 1)).0 70
    ≡ (if ltb 70 64 then true else is_msip_pending eight 70)
pending-send_ipi_all_example = pending-send_ipi_all 0 0 70 eight eight-full
