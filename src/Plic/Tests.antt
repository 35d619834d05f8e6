-- ===== src/Plic/Tests.antt =====
-- Runs of the interrupt controller, and the theorems at concrete inputs.
use bavy.Prelude.{◌^◌, ◌<◌, ◌≡◌, refl, arith, true, some, ok, get_or, set, replicate}
use bavy.Prelude.Loops.{any_from}
use bavy.Plic.State.{
  Plic, new, set_source_level, is_interrupt_pending_for_fast, has_pending_candidate,
}
use bavy.Plic.Claim.{
  eligible_for_context, claim_round, claim_loop, claim_interrupt_for_internal, claim_interrupt_for,
  is_interrupt_pending_for,
}
use bavy.Plic.Mmio.{store}
use bavy.Plic.Coherent.{IsCoherent, Reached, start, next, stores, sets_level, Reached-IsCoherent}
use bavy.Plic.Pending.{fast_no_false_negatives}
use bavy.Plic.Order.{IsClaim, claim_interrupt_for_internal-IsClaim}
use bavy.Plic.Complete.{claim_register, complete-claim}
use bavy.Plic.Registers.{priority_register, enable_register}

-- Source 5 has priority 3 and is enabled for context 1.
abbrev with_priority : Plic
with_priority = (store new (priority_register 5) 4 3).0

abbrev with_enable : Plic
with_enable = (store with_priority (enable_register 1) 4 32).0

-- Its line is up.
abbrev raised : Plic
raised = set_source_level with_enable 5 true

raised-Reached : Reached raised
raised-Reached =
    next
      (next (next start (stores new (priority_register 5) 4 3))
        (stores with_priority (enable_register 1) 4 32))
      (sets_level with_enable 5 true)

Reached-IsCoherent_example : IsCoherent raised
Reached-IsCoherent_example = Reached-IsCoherent raised-Reached

raised-IsCoherent : IsCoherent raised
raised-IsCoherent = Reached-IsCoherent raised-Reached

raised-pending : is_interrupt_pending_for raised 1 ≡ true
unfolding is_interrupt_pending_for any_from eligible_for_context set_source_level store new
    replicate get_or set
raised-pending = refl

fast_no_false_negatives_example :
    (is_interrupt_pending_for_fast raised 1 ≡ true) × (has_pending_candidate raised 1 ≡ true)
fast_no_false_negatives_example = fast_no_false_negatives raised 1 raised-IsCoherent raised-pending

claim_interrupt_for_internal-IsClaim_example :
    IsClaim raised.state 1 (claim_interrupt_for_internal raised.state 1).1
claim_interrupt_for_internal-IsClaim_example = claim_interrupt_for_internal-IsClaim raised.state 1

abbrev claimed : Plic
claimed = record raised { state = (claim_interrupt_for_internal raised.state 1).0 }

raised-claimed : claim_interrupt_for raised 1 ≡ some (claimed, 5)
unfolding claim_interrupt_for claim_interrupt_for_internal claim_loop claim_round
    eligible_for_context set_source_level store new replicate get_or set
raised-claimed = refl

raised-words : get_or raised.state.active 1 0 < 2 ^ 32
unfolding set_source_level store new replicate get_or set
raised-words = omega arith

complete-claim_example : store claimed (claim_register 1) 4 5 ≡ (raised, ok tt)
complete-claim_example =
    complete-claim raised claimed 1 5 raised-IsCoherent raised-words raised-claimed
      (λ e. omega arith)
