-- ===== src/Clint/Registers.antt =====
-- riscv-vm/src/devices/clint.rs: what a store into the registers does to each hart.
use bavy.Prelude.{
  ℕ, ◌+◌, ◌-◌, ◌*◌, ◌/◌, ◌%◌, ◌^◌, ◌<◌, ◌≡◌, arith, bit_and, Bool, true, false, ◌==◌, leb,
  if◌then◌else◌, List, length, get_or, set, get_or-set, length-set,
}
use bavy.Prelude.Bits.{bit_and_mask}
use bavy.Clint.State.{
  Clint, max_harts, max_u64, mtime, set_msip, wake_hart, wait_for_interrupt, set_mtimecmp,
  set_mtimecmp_low, set_mtimecmp_high, with_low, with_high, get_mtimecmp, is_timer_pending,
  is_msip_pending, check_interrupts_for_hart,
}
use bavy.Clint.Update.{Attempt}
use bavy.Clint.Mmio.{load, store, store_mtimecmp_half, load_mtimecmp_half, mtimecmp_offset}
use bavy.Clint.Time.{IsQuiet, update_loop-quiet, with_low_lem, with_high_lem}

pub record IsClint (c : Clint) : Type 0 where
  pub msips : length c.msip ≡ max_harts
  pub timers : length c.mtimecmp ≡ max_harts
  pub flags : length c.wakeups ≡ max_harts
  pub words : (hart : ℕ) → get_or c.mtimecmp hart max_u64 < 2 ^ 64

-- The two ways to ask for a hart's interrupts agree.
pub check_interrupts_lem :
    (now : ℕ) (c : Clint) (hart : ℕ)
    → check_interrupts_for_hart now c hart ≡ (is_msip_pending c hart, is_timer_pending now c hart)
unfolding check_interrupts_for_hart is_msip_pending is_timer_pending
check_interrupts_lem now c hart = ground arith

-- In a well-formed CLINT, a 64-bit store of `value` into the timer of one of its 128 harts makes
-- that hart's timer interrupt pending exactly when mtime has reached `value`, and changes the
-- interrupts of no other hart.
pub check_interrupts-store_timer :
    (now : ℕ) (c : Clint) (attempts : List Attempt) (hart other value : ℕ)
    → IsClint c
    → hart < max_harts
    → check_interrupts_for_hart now (store c attempts (mtimecmp_offset + hart * 8) 8 value) other
      ≡ (
        is_msip_pending c other,
        if hart == other then leb value (mtime now c) else is_timer_pending now c other,
      )
unfolding check_interrupts_for_hart store set_mtimecmp is_msip_pending is_timer_pending mtime
check_interrupts-store_timer now c attempts hart other value h inside =
    let slot : (mtimecmp_offset + hart * 8 - mtimecmp_offset) / 8 ≡ hart = omega arith in
    ground (arith, slot, get_or-set c.mtimecmp hart other value max_u64 (omega (arith, h.timers)))

-- In a well-formed CLINT, a 32-bit store into the msip of one of its 128 harts makes its software
-- interrupt pending exactly when the value is odd, and changes the interrupts of no other hart.
check_interrupts-store_msip :
    (now : ℕ) (c : Clint) (attempts : List Attempt) (hart other value : ℕ)
    → IsClint c
    → hart < max_harts
    → check_interrupts_for_hart now (store c attempts (hart * 4) 4 value) other ≡ (
      if hart == other then value % 2 == 1 else is_msip_pending c other,
      is_timer_pending now c other,
    )
unfolding check_interrupts_for_hart store set_msip wake_hart is_msip_pending is_timer_pending mtime
check_interrupts-store_msip now c attempts hart other value h inside =
    let slot : hart * 4 / 4 ≡ hart = omega arith in
    let value' = value % 2 ^ 32 in
    ground (
      arith,
      slot,
      bit_and_mask 1 value',
      bit_and_mask 1 (bit_and value' 1),
      get_or-set c.msip hart other (bit_and value' 1) 0 (omega (arith, h.msips)),
    )

-- A software interrupt is not lost on a hart that is about to wait: in a well-formed CLINT, after
-- a 32-bit store of an odd value into the msip of one of its 128 harts, the hart's next wait
-- returns without blocking.
wait-store_msip :
    (c : Clint) (attempts : List Attempt) (hart value timeout_ms : ℕ) (woken : Bool)
    → IsClint c
    → hart < max_harts
    → value % 2 ≡ 1
    → (wait_for_interrupt (store c attempts (hart * 4) 4 value) hart timeout_ms woken).1 ≡ false
unfolding store set_msip wake_hart wait_for_interrupt
wait-store_msip c attempts hart value timeout_ms woken h inside odd =
    let slot : hart * 4 / 4 ≡ hart = omega arith in
    let value' = value % 2 ^ 32 in
    ground (
      arith,
      slot,
      bit_and_mask 1 value',
      get_or-set c.wakeups hart hart true false (omega (arith, h.flags)),
    )

-- The two 32-bit loads of the timer of one of the 128 harts are the halves of its 64-bit load.
pub load-halves :
    (now : ℕ) (c : Clint) (hart : ℕ)
    → hart < max_harts
    → load now c (mtimecmp_offset + hart * 8 + 4) 4 * 2 ^ 32
        + load now c (mtimecmp_offset + hart * 8) 4
      ≡ load now c (mtimecmp_offset + hart * 8) 8
unfolding load load_mtimecmp_half
load-halves now c hart inside =
    let slot : (mtimecmp_offset + hart * 8 - mtimecmp_offset) / 8 ≡ hart = omega arith in
    let high_slot : (mtimecmp_offset + hart * 8 + 4 - mtimecmp_offset) / 8 ≡ hart = omega arith in
    let low : (mtimecmp_offset + hart * 8 - mtimecmp_offset) % 8 ≡ 0 = omega arith in
    let high : (mtimecmp_offset + hart * 8 + 4 - mtimecmp_offset) % 8 ≡ 4 = omega arith in
    ground (arith, slot, high_slot, low, high, bit_and_mask 32 (get_or c.mtimecmp hart max_u64))

-- The timers after the word of one hart is replaced.
abbrev with_timer : Clint → ℕ → ℕ → Clint
with_timer c hart word = record c { mtimecmp = set c.mtimecmp hart word }

store-low :
    (c : Clint) (attempts : List Attempt) (hart value : ℕ)
    → hart < max_harts
    → IsQuiet attempts
    → store c attempts (mtimecmp_offset + hart * 8) 4 value
      ≡ with_timer c hart (with_low (value % 2 ^ 32) (get_or c.mtimecmp hart max_u64))
unfolding store store_mtimecmp_half set_mtimecmp_low
store-low c attempts hart value inside quiet =
    let slot : (mtimecmp_offset + hart * 8 - mtimecmp_offset) / 8 ≡ hart = omega arith in
    let low : (mtimecmp_offset + hart * 8 - mtimecmp_offset) % 8 ≡ 0 = omega arith in
    ground (
      arith,
      slot,
      low,
      update_loop-quiet (with_low (value % 2 ^ 32)) (get_or c.mtimecmp hart max_u64) attempts quiet,
    )

store-high :
    (c : Clint) (attempts : List Attempt) (hart value : ℕ)
    → hart < max_harts
    → IsQuiet attempts
    → store c attempts (mtimecmp_offset + hart * 8 + 4) 4 value
      ≡ with_timer c hart (with_high (value % 2 ^ 32) (get_or c.mtimecmp hart max_u64))
unfolding store store_mtimecmp_half set_mtimecmp_high
store-high c attempts hart value inside quiet =
    let slot : (mtimecmp_offset + hart * 8 + 4 - mtimecmp_offset) / 8 ≡ hart = omega arith in
    let high : (mtimecmp_offset + hart * 8 + 4 - mtimecmp_offset) % 8 ≡ 4 = omega arith in
    ground (
      arith,
      slot,
      high,
      update_loop-quiet (with_high (value % 2 ^ 32)) (get_or c.mtimecmp hart max_u64) attempts
          quiet,
    )

-- In a well-formed CLINT, storing the low half and then the high half of the timer of one of its
-- 128 harts, each while no other hart stores into it but however often the exchange fails, leaves
-- the 64-bit word of the two halves there and the timers of the other harts as they were.
pub get_mtimecmp-store_halves :
    (c : Clint) (first second : List Attempt) (hart other low high : ℕ)
    → IsClint c
    → hart < max_harts
    → IsQuiet first
    → IsQuiet second
    → get_mtimecmp
        (store
          (store c first (mtimecmp_offset + hart * 8) 4 low)
          second
          (mtimecmp_offset + hart * 8 + 4)
          4
          high)
        other
      ≡ (if hart == other then (high % 2 ^ 32) * 2 ^ 32 + low % 2 ^ 32 else get_mtimecmp c other)
unfolding get_mtimecmp
get_mtimecmp-store_halves c first second hart other low high h inside quiet quiet' =
    let old = get_or c.mtimecmp hart max_u64 in
    let word = with_low (low % 2 ^ 32) old in
    let timers = set c.mtimecmp hart word in
    let here : get_or timers hart max_u64 ≡ word =
      ground (arith, get_or-set c.mtimecmp hart hart word max_u64 (omega (arith, h.timers))) in
    rw
      (
        store-low c first hart low inside quiet,
        store-high (with_timer c hart word) second hart high inside quiet',
        here,
        with_high_lem (high % 2 ^ 32) word,
      )
      (ground (
        arith,
        get_or-set timers hart other ((high % 2 ^ 32) * 2 ^ 32 + word % 2 ^ 32) max_u64
            (omega (arith, h.timers, length-set c.mtimecmp hart word)),
        get_or-set c.mtimecmp hart other word max_u64 (omega (arith, h.timers)),
        with_low_lem (low % 2 ^ 32) old (h.words hart) (omega arith),
      ))
