-- ===== src/Plic/Mmio.antt =====
-- riscv-vm/src/devices/plic.rs: the memory-mapped registers.
use bavy.Prelude.{
  ℕ, ◌+◌, ◌-◌, ◌*◌, ◌/◌, ◌%◌, ◌^◌, bit_and, Bool, not, ◌&&◌, ◌==◌, ltb, leb, if◌then◌else◌, Result,
  ok, get_or, set,
}
use bavy.Prelude.Bits.{◌>>>◌, complement}
use bavy.Dram.{MemoryError}
use bavy.Plic.State.{
  Plic, PlicState, num_sources, num_contexts, pending_cached, enable_cached, threshold_cached,
  priority_cached, sync_enable_cache, sync_threshold_cache, sync_priority_cache,
}
use bavy.Plic.Claim.{claim_interrupt_for_internal}

-- The context of an offset in the enable region, and the offset in its block.
abbrev pub enable_context : ℕ → ℕ
enable_context offset = (offset - 0x2000) / 0x80

abbrev pub in_enable : ℕ → Bool
in_enable offset = leb 0x2000 offset && ltb offset (0x2000 + 0x80 * num_contexts)

abbrev pub enable_inner : ℕ → ℕ
enable_inner offset = (offset - 0x2000) % 0x80

-- The same of the threshold and claim registers.
abbrev pub target_context : ℕ → ℕ
target_context offset = (offset - 0x200000) / 0x1000

abbrev pub target_base : ℕ → ℕ
target_base offset = 0x200000 + 0x1000 * target_context offset

unfoldable pub load : Plic → ℕ → ℕ → Plic × Result ℕ MemoryError
load p offset size =
    let ctx = enable_context offset in
    let target = target_context offset in
    let (s, claim) = claim_interrupt_for_internal p.state target in
    if not (size == 4)
    then (p, ok 0)
    else if ltb offset 0x1000 && ltb (offset >>> 2) num_sources
    then (p, ok (priority_cached p (offset >>> 2)))
    else if offset == 0x1000
    then (p, ok (pending_cached p))
    else if in_enable offset && (ltb ctx num_contexts && enable_inner offset == 0)
    then (p, ok (enable_cached p ctx))
    else if leb 0x200000 offset && ltb target num_contexts
    then if offset == target_base offset
      then (p, ok (threshold_cached p target))
      else if offset == target_base offset + 4
      then (record p { state = s }, ok claim)
      else (p, ok 0)
    else (p, ok 0)

-- The completion write: the interrupt is no longer in flight.
unfoldable pub complete : PlicState → ℕ → ℕ → PlicState
complete s ctx val =
    let id = bit_and val 0xffff in
    if ltb 0 id && ltb id num_sources
    then record s {
      active = set s.active ctx (bit_and (get_or s.active ctx 0) (complement 32 (2 ^ id)));
    }
    else s

abbrev pub with_state : Plic → PlicState → Plic
with_state p s = record p { state = s }

unfoldable pub store : Plic → ℕ → ℕ → ℕ → Plic × Result (Unit {0}) MemoryError
unfolding sync_enable_cache sync_threshold_cache sync_priority_cache
store p offset size value =
    let val = value % 2 ^ 32 in
    let s = p.state in
    let idx = offset >>> 2 in
    let ctx = enable_context offset in
    let target = target_context offset in
    if not (size == 4)
    then (p, ok tt)
    else if ltb offset 0x1000
    then (
      if ltb idx num_sources
          then sync_priority_cache (with_state p (record s { priority = set s.priority idx val }))
              idx
          else p,
      ok tt,
    )
    else if offset == 0x1000
    then (p, ok tt)
    else if in_enable offset
    then (
      if ltb ctx num_contexts && enable_inner offset == 0
          then sync_enable_cache (with_state p (record s { enable = set s.enable ctx val })) ctx
          else p,
      ok tt,
    )
    else if leb 0x200000 offset && ltb target num_contexts
    then if offset == target_base offset
      then (
        sync_threshold_cache (with_state p (record s { threshold = set s.threshold target val }))
            target,
        ok tt,
      )
      else if offset == target_base offset + 4
      then (with_state p (complete s target val), ok tt)
      else (p, ok tt)
    else (p, ok tt)
