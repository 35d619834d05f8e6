-- ===== src/Clint/State.antt =====
-- riscv-vm/src/devices/clint.rs: the state, the wakeups and the accessors. `now_millis` is the
-- argument `now`. The u64 product of mtime wraps, as it does in a release build.
use bavy.Prelude.{
  ℕ, ◌-◌, ◌*◌, ◌/◌, ◌%◌, ◌^◌, bit_and, bit_or, Bool, true, false, not, ◌||◌, ◌==◌, ltb, leb,
  if◌then◌else◌, List, [], ◌∷◌, get_or, set, replicate, zero, suc, min,
}
use bavy.Prelude.Bits.{◌<<<◌}
use bavy.Clint.Update.{Attempt, update_loop}

abbrev pub max_harts : ℕ
max_harts = 128

abbrev pub ticks : ℕ
ticks = 10000

abbrev pub max_u64 : ℕ
max_u64 = 2 ^ 64 - 1

-- The atomic arrays; of a `HartWakeup`, its flag.
pub record Clint : Type 0 where
  pub start_time_ms : ℕ
  pub msip : List ℕ
  pub mtimecmp : List ℕ
  pub num_harts : ℕ
  pub wakeups : List Bool

-- `with_harts`, at the time `now`.
unfoldable pub with_harts : ℕ → ℕ → Clint
with_harts now harts = record {
  start_time_ms = now;
  msip = replicate max_harts 0;
  mtimecmp = replicate max_harts max_u64;
  num_harts = min harts max_harts;
  wakeups = replicate max_harts false;
}

unfoldable pub set_num_harts : Clint → ℕ → Clint
set_num_harts c harts = record c { num_harts = min harts max_harts }

unfoldable pub mtime : ℕ → Clint → ℕ
mtime now c = ((now - c.start_time_ms) * ticks) % 2 ^ 64

unfoldable pub set_mtime : ℕ → Clint → ℕ → Clint
set_mtime now c val = record c { start_time_ms = now - val / ticks }

unfoldable pub get_msip : Clint → ℕ → ℕ
get_msip c hart = if ltb hart max_harts then get_or c.msip hart 0 else 0

-- `wake_hart`: the flag is set, and a waiter is notified.
unfoldable pub wake_hart : Clint → ℕ → Clint
wake_hart c hart = if ltb hart max_harts then record c { wakeups = set c.wakeups hart true } else c

unfoldable pub set_msip : Clint → ℕ → ℕ → Clint
set_msip c hart value =
    let stored = record c { msip = set c.msip hart (bit_and value 1) } in
    if ltb hart max_harts
    then if not (bit_and value 1 == 0) then wake_hart stored hart else stored
    else c

-- `wait_for_interrupt`, and whether it blocked. A wait that blocks leaves the flag as it is when
-- the wait ends: `woken` says whether a `wake` came before.
unfoldable pub wait_for_interrupt : Clint → ℕ → ℕ → Bool → Clint × Bool
wait_for_interrupt c hart timeout_ms woken =
    if leb max_harts hart || timeout_ms == 0
    then (c, false)
    else if get_or c.wakeups hart false
    then (record c { wakeups = set c.wakeups hart false }, false)
    else (record c { wakeups = set c.wakeups hart woken }, true)

unfoldable pub get_mtimecmp : Clint → ℕ → ℕ
get_mtimecmp c hart = if ltb hart max_harts then get_or c.mtimecmp hart max_u64 else max_u64

unfoldable pub set_mtimecmp : Clint → ℕ → ℕ → Clint
set_mtimecmp c hart value =
    if ltb hart max_harts then record c { mtimecmp = set c.mtimecmp hart value } else c

unfoldable pub with_low : ℕ → ℕ → ℕ
with_low value current = bit_or (bit_and current (2 ^ 64 - 2 ^ 32)) value

unfoldable pub with_high : ℕ → ℕ → ℕ
with_high value current = bit_or (bit_and current (2 ^ 32 - 1)) (value <<< 32)

unfoldable pub set_mtimecmp_low : Clint → List Attempt → ℕ → ℕ → Clint
set_mtimecmp_low c attempts hart value = if leb max_harts hart then c else record c {
  mtimecmp =
      set c.mtimecmp hart (update_loop (with_low value) (get_or c.mtimecmp hart max_u64) attempts);
}

unfoldable pub set_mtimecmp_high : Clint → List Attempt → ℕ → ℕ → Clint
set_mtimecmp_high c attempts hart value = if leb max_harts hart then c else record c {
  mtimecmp =
      set c.mtimecmp hart (update_loop (with_high value) (get_or c.mtimecmp hart max_u64) attempts);
}

unfoldable pub is_timer_pending : ℕ → Clint → ℕ → Bool
is_timer_pending now c hart_id =
    if leb max_harts hart_id then false else leb (get_or c.mtimecmp hart_id max_u64) (mtime now c)

unfoldable pub is_msip_pending : Clint → ℕ → Bool
is_msip_pending c hart_id =
    if leb max_harts hart_id then false else not (bit_and (get_or c.msip hart_id 0) 1 == 0)

unfoldable pub check_interrupts_for_hart : ℕ → Clint → ℕ → Bool × Bool
check_interrupts_for_hart now c hart_id =
    let msip = not (bit_and (get_or c.msip hart_id 0) 1 == 0) in
    let timer = leb (get_or c.mtimecmp hart_id max_u64) (mtime now c) in
    if leb max_harts hart_id then (false, false) else (msip, timer)

-- `set_msip_array` and `set_mtimecmp_array`: the values, and the reset value in the slots left.
unfoldable pub fill : ℕ → List ℕ → ℕ → List ℕ
fill n [] rest = replicate n rest
fill zero (v ∷ values) rest = []
fill (suc n) (v ∷ values) rest = v ∷ fill n values rest

unfoldable pub set_msip_array : Clint → List ℕ → Clint
set_msip_array c values = record c { msip = fill max_harts values 0 }

unfoldable pub set_mtimecmp_array : Clint → List ℕ → Clint
set_mtimecmp_array c values = record c { mtimecmp = fill max_harts values max_u64 }
