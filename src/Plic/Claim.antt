-- ===== src/Plic/Claim.antt =====
-- riscv-vm/src/devices/plic.rs: which interrupt a context is offered, and the claim.
use bavy.Prelude.{
  ℕ, zero, suc, ◌+◌, ◌-◌, ◌^◌, bit_and, bit_or, Bool, false, ◌&&◌, ◌==◌, ltb, leb, if◌then◌else◌,
  Option, none, some, get_or, set,
}
use bavy.Prelude.Bits.{◌>>>◌}
use bavy.Prelude.Loops.{any_from}
use bavy.Plic.State.{Plic, PlicState, num_sources, num_contexts}

unfoldable pub eligible_for_context : PlicState → ℕ → ℕ → Bool
eligible_for_context s source ctx =
    let pending = bit_and (s.pending >>> source) 1 == 1 in
    let enabled = bit_and (get_or s.enable ctx 0 >>> source) 1 == 1 in
    let over_threshold = ltb (get_or s.threshold ctx 0) (get_or s.priority source 0) in
    let not_active = bit_and (get_or s.active ctx 0 >>> source) 1 == 0 in
    pending && (enabled && (over_threshold && not_active))

-- One round of the loop of `claim_interrupt_for_internal`, on (max_prio, max_id).
unfoldable pub claim_round : PlicState → ℕ → ℕ → ℕ × ℕ → ℕ × ℕ
claim_round s ctx i best =
    let prio = get_or s.priority i 0 in
    if eligible_for_context s i ctx then if ltb best.0 prio then (prio, i) else best else best

unfoldable pub claim_loop : PlicState → ℕ → ℕ → ℕ → ℕ × ℕ → ℕ × ℕ
claim_loop s ctx zero i best = best
claim_loop s ctx (suc left) i best = claim_loop s ctx left (i + 1) (claim_round s ctx i best)

unfoldable pub claim_interrupt_for_internal : PlicState → ℕ → PlicState × ℕ
claim_interrupt_for_internal s ctx =
    let max_id = (claim_loop s ctx (num_sources - 1) 1 (0, 0)).1 in
    let marked = bit_or (get_or s.active ctx 0) (2 ^ max_id) in
    (if max_id == 0 then s else record s { active = set s.active ctx marked }, max_id)

-- `none`: the index `ctx` is out of the arrays' bounds, and the call panics.
unfoldable pub claim_interrupt_for : Plic → ℕ → Option (Plic × ℕ)
claim_interrupt_for p ctx =
    let (s, id) = claim_interrupt_for_internal p.state ctx in
    if ltb ctx num_contexts then some (record p { state = s }, id) else none

unfoldable pub is_interrupt_pending_for : Plic → ℕ → Bool
is_interrupt_pending_for p ctx =
    if leb num_contexts ctx
    then false
    else any_from (num_sources - 1) 1 (λ i. eligible_for_context p.state i ctx)

unfoldable pub is_interrupt_pending : Plic → Bool
unfolding is_interrupt_pending_for
is_interrupt_pending p = is_interrupt_pending_for p (if ltb 1 num_contexts then 1 else 0)
