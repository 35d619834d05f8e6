-- ===== src/Sbi/Hsm/Calls.antt =====
-- riscv-vm/src/sbi/hsm.rs: what a call does to every hart, and who starts a hart.
use bavy.Prelude.{
  ℕ, ◌<◌, ◌≡◌, ap, arith, ◌==◌, ◌&&◌, ◌||◌, not, ltb, if◌then◌else◌, List, get_or, set, length,
  length-set, get_or-set, Result, ok, err,
}
use bavy.Bus.{Bus}
use bavy.Cpu.Types.{Trap}
use bavy.Sbi.Hsm.{
  SbiRet, success, invalid_param, failed, already_started, started, stopped, start_pending,
  suspended, max_harts, msip_addr, signaled, hart_start, hart_stop, hart_get_status, hart_suspend,
  handle,
}

-- What the hart that is started gets to, by what the write of its msip gave.
abbrev pub after_signal : Result (Unit {0}) Trap → ℕ
after_signal (ok x) = start_pending
after_signal (err e) = stopped

-- The state of `hart` after a call by hart `mhartid`, where it was `s` before: a start of it, its own
-- stop, its own suspension, or neither. There are 128 harts.
unfoldable pub moved : ℕ → ℕ → ℕ → Result (Unit {0}) Trap → ℕ → ℕ → ℕ
moved a0 mhartid fid stored hart s =
    if not (ltb hart max_harts)
    then s
    else if fid == 0 && (hart == a0 && not (s == started || s == start_pending))
    then after_signal stored
    else if fid == 1 && hart == mhartid
    then stopped
    else if fid == 3 && hart == mhartid
    then suspended
    else s

module _ (bus : Bus) where
  set-set :
      (states : List ℕ) (hart other first second : ℕ)
      → hart < length states
      → get_or (set (set states hart first) hart second) other stopped
        ≡ (if hart == other then second else get_or states other stopped)
  set-set states hart other first second inside = ground (
    arith,
    get_or-set (set states hart first) hart other second stopped
        (omega (arith, length-set states hart first)),
    get_or-set states hart other first stopped inside,
  )

  get_or-signaled :
      (r : bus.State × Result (Unit {0}) Trap) (states : List ℕ) (target hart : ℕ)
      → target < length states
      → get_or (signaled bus r states target).1 hart stopped
        ≡ (if target == hart then after_signal r.1 else get_or states hart stopped)
  get_or-signaled (m, ok x) states target hart inside =
      get_or-set states target hart start_pending stopped inside
  get_or-signaled (m, err e) states target hart inside =
      set-set states target hart start_pending stopped inside

  -- On the 128 states, the state of every hart after a call. A start moves the hart that a0 names,
  -- where it is neither started nor start-pending: to start-pending if its msip could be written, to
  -- stopped if not. The caller's stop moves the caller to stopped, its suspension to suspended. Every
  -- other hart keeps its state, and an unknown function moves none.
  pub handle-moved :
      (m : bus.State) (states : List ℕ) (a0 mhartid fid hart : ℕ)
      → length states ≡ max_harts
      → get_or (handle bus m states a0 mhartid fid).1 hart stopped
        ≡ moved a0 mhartid fid
            ((bus.store m (msip_addr a0) 4 1).1)
            hart
            (get_or states hart stopped)
  unfolding handle hart_start hart_stop hart_get_status hart_suspend moved
  handle-moved m states a0 mhartid fid hart full = ground (
    arith,
    full,
    get_or-signaled (bus.store m (msip_addr a0) 4 1) states a0 hart,
    set-set states mhartid hart 3 stopped,
    set-set states mhartid hart 5 suspended,
  )

  signaled-success :
      (r : bus.State × Result (Unit {0}) Trap) (states : List ℕ) (target : ℕ)
      → target < length states
      → (signaled bus r states target).2.error ≡ 0
      → get_or (signaled bus r states target).1 target stopped ≡ start_pending
  unfolding success failed
  signaled-success (m, ok x) states target inside e =
      ground (arith, get_or-set states target target start_pending stopped inside)
  signaled-success (m, err x) states target inside e = absurd (omega (arith, e))

  start-success :
      (m : bus.State) (states : List ℕ) (a0 mhartid : ℕ)
      → length states ≡ max_harts
      → (handle bus m states a0 mhartid 0).2.error ≡ 0
      → (a0 < max_harts) × (get_or (handle bus m states a0 mhartid 0).1 a0 stopped ≡ start_pending)
  unfolding handle hart_start invalid_param already_started
  start-success m states a0 mhartid full e =
      ground (arith, full, e, signaled-success (bus.store m (msip_addr a0) 4 1) states a0)

  start-pending :
      (m : bus.State) (states : List ℕ) (a0 mhartid : ℕ)
      → a0 < max_harts
      → get_or states a0 stopped ≡ start_pending
      → (handle bus m states a0 mhartid 0 ≡ (m, states, already_started))
        × (handle bus m states a0 mhartid 2 ≡ (m, states, success start_pending))
  unfolding handle hart_start hart_get_status
  start-pending m states a0 mhartid inside e = ground (arith, e)

  -- On the 128 states, a hart starts once: when a start of hart `a0` returns success, a start of
  -- it that follows says that it is already started and changes nothing, the bus included, and its
  -- status is start-pending.
  hart_start-twice :
      (m : bus.State) (states : List ℕ) (a0 mhartid : ℕ)
      → length states ≡ max_harts
      → (handle bus m states a0 mhartid 0).2 ≡ success 0
      → let (m', states', ret) = handle bus m states a0 mhartid 0 in
        (handle bus m' states' a0 mhartid 0 ≡ (m', states', already_started))
        × (handle bus m' states' a0 mhartid 2 ≡ (m', states', success start_pending))
  unfolding success
  hart_start-twice m states a0 mhartid full succeeded =
      let pending =
        start-success m states a0 mhartid full (ap (λ (r : SbiRet). r.error) succeeded) in
      start-pending _ _ a0 mhartid pending.0 pending.1
