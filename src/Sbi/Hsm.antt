-- ===== src/Sbi/Hsm.antt =====
-- riscv-vm/src/sbi/hsm.rs: starting, stopping and suspending harts, and the results of
-- riscv-vm/src/sbi/mod.rs. An i64 is its 64-bit pattern, as the dispatcher writes it to a0 and a1.
-- The bus is a `Bus`; of the CPU, a0 and mhartid are arguments, since the handlers read only these
-- and log the others. The state codes are those of the array.
pub mod Calls
use bavy.Prelude.{
  ℕ, ◌+◌, ◌-◌, ◌*◌, ◌^◌, Bool, ◌||◌, ◌==◌, ltb, leb, if◌then◌else◌, List, [], ◌∷◌, get_or, set,
  replicate, Option, none, some, Result, ok, err,
}
use bavy.Bus.{Bus}
use bavy.Cpu.Types.{Trap}

-- The code -n.
abbrev pub neg : ℕ → ℕ
neg n = 2 ^ 64 - n

pub record SbiRet : Type 0 where
  pub error : ℕ
  pub value : ℕ

unfoldable pub success : ℕ → SbiRet
success value = record { error = 0; value = value }

unfoldable pub not_supported : SbiRet
not_supported = record { error = neg 2; value = 0 }

unfoldable pub invalid_param : SbiRet
invalid_param = record { error = neg 3; value = 0 }

unfoldable pub failed : SbiRet
failed = record { error = neg 1; value = 0 }

unfoldable pub already_started : SbiRet
already_started = record { error = neg 7; value = 0 }

abbrev pub started : ℕ
started = 0

abbrev pub stopped : ℕ
stopped = 1

abbrev pub start_pending : ℕ
start_pending = 2

abbrev pub suspended : ℕ
suspended = 4

abbrev pub max_harts : ℕ
max_harts = 128

-- HART_STATES after `init_primary_hart`.
unfoldable pub initial : List ℕ
initial = set (replicate max_harts stopped) 0 started

-- `none` for the -1 of a hart that is not there.
unfoldable pub get_hart_state : List ℕ → ℕ → Option ℕ
get_hart_state states hart_id =
    if leb max_harts hart_id then none else some (get_or states hart_id stopped)

unfoldable pub set_hart_state : List ℕ → ℕ → ℕ → List ℕ
set_hart_state states hart_id state =
    if ltb hart_id max_harts then set states hart_id state else states

-- CLINT_BASE + MSIP_OFFSET + target_hart * 4
abbrev pub msip_addr : ℕ → ℕ
msip_addr target_hart = 0x02000000 + target_hart * 4

module _ (bus : Bus) where
  -- A call's outcome: the bus, the states of the harts and the result.
  abbrev pub Called : Type 0
  Called = bus.State × List ℕ × SbiRet

  -- What the write of msip (`write32`, the bus's store of size 4) gives: on an error the hart is stopped again.
  abbrev pub signaled : bus.State × Result (Unit {0}) Trap → List ℕ → ℕ → Called
  signaled (m, ok x) states target_hart = (m, set states target_hart start_pending, success 0)
  signaled (m, err e) states target_hart =
      (m, set (set states target_hart start_pending) target_hart stopped, failed)

  unfoldable pub hart_start : bus.State → List ℕ → ℕ → Called
  hart_start m states target_hart =
      let current_state = get_or states target_hart stopped in
      let called = signaled (bus.store m (msip_addr target_hart) 4 1) states target_hart in
      if leb max_harts target_hart
      then (m, states, invalid_param)
      else if current_state == started || current_state == start_pending
      then (m, states, already_started)
      else called

  -- The states pass through STOP_PENDING and SUSPEND_PENDING, which no other hart need see.
  unfoldable pub hart_stop : bus.State → List ℕ → ℕ → Called
  hart_stop m states hart_id = (
    m,
    (if ltb hart_id max_harts then set (set states hart_id 3) hart_id stopped else states),
    success 0,
  )

  unfoldable pub hart_get_status : bus.State → List ℕ → ℕ → Called
  hart_get_status m states target_hart =
      if leb max_harts target_hart
      then (m, states, invalid_param)
      else (m, states, success (get_or states target_hart stopped))

  unfoldable pub hart_suspend : bus.State → List ℕ → ℕ → Called
  hart_suspend m states hart_id = (
    m,
    (if ltb hart_id max_harts then set (set states hart_id 5) hart_id suspended else states),
    success 0,
  )

  -- `handle`, with a0 and mhartid.
  unfoldable pub handle : bus.State → List ℕ → ℕ → ℕ → ℕ → Called
  handle m states a0 mhartid fid =
      let start = hart_start m states a0 in
      let stop = hart_stop m states mhartid in
      let status = hart_get_status m states a0 in
      let suspend = hart_suspend m states mhartid in
      if fid == 0
      then start
      else if fid == 1
      then stop
      else if fid == 2
      then status
      else if fid == 3
      then suspend
      else (m, states, not_supported)
