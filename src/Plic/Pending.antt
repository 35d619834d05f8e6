-- ===== src/Plic/Pending.antt =====
-- riscv-vm/src/devices/plic.rs: the lock-free polling check against the check behind the mutex.
use bavy.Prelude.{ℕ, ◌-◌, ◌<◌, ◌≡◌, arith, true, bit_and, get_or, ◌↔◌}
use bavy.Prelude.Bits.{bit, bit-zero, bit-bit_and, bit_shr_test, bit_and-pow_test}
use bavy.Prelude.Loops.{any_from, any_from-found, any_from-hit}
use bavy.Plic.State.{
  Plic, PlicState, num_sources, is_fast_candidate, is_interrupt_pending_for_fast,
  has_pending_candidate,
}
use bavy.Plic.Claim.{eligible_for_context, is_interrupt_pending_for}
use bavy.Plic.Coherent.{IsCoherent}

-- A source is offered to a context exactly if it is pending and enabled there, its priority is
-- over the threshold, and the context has not claimed it.
pub record IsOffered (s : PlicState) (source ctx : ℕ) : Type 0 where
  pub pends : bit s.pending source ≡ 1
  pub enabled : bit (get_or s.enable ctx 0) source ≡ 1
  pub over : get_or s.threshold ctx 0 < get_or s.priority source 0
  pub free : bit (get_or s.active ctx 0) source ≡ 0

pub eligible_iff :
    (s : PlicState) (source ctx : ℕ)
    → (eligible_for_context s source ctx ≡ true) ↔ IsOffered s source ctx
unfolding eligible_for_context
eligible_iff s source ctx = ground (
  arith,
  bit_shr_test s.pending source,
  bit_shr_test (get_or s.enable ctx 0) source,
  bit_shr_test (get_or s.active ctx 0) source,
)

fast_candidate :
    (p : Plic) (ctx source : ℕ)
    → IsCoherent p
    → IsOffered p.state source ctx
    → (is_fast_candidate p
          (bit_and p.pending_cache (get_or p.enable_cache ctx 0))
          (get_or p.threshold_cache ctx 0)
          source
        ≡ true)
      × (bit (bit_and p.pending_cache (get_or p.enable_cache ctx 0)) source ≡ 1)
unfolding is_fast_candidate
fast_candidate p ctx source h o = ground (
  arith,
  bit_and-pow_test (bit_and p.pending_cache (get_or p.enable_cache ctx 0)) source,
  bit-bit_and p.pending_cache (get_or p.enable_cache ctx 0) source,
)

-- In a coherent controller the lock-free checks have no false negatives: where the accurate check
-- finds an interrupt, both find one.
pub fast_no_false_negatives :
    (p : Plic) (ctx : ℕ)
    → IsCoherent p
    → is_interrupt_pending_for p ctx ≡ true
    → (is_interrupt_pending_for_fast p ctx ≡ true) × (has_pending_candidate p ctx ≡ true)
unfolding is_interrupt_pending_for is_interrupt_pending_for_fast has_pending_candidate
fast_no_false_negatives p ctx h pending =
    let accurate : any_from (num_sources - 1) 1 (λ i. eligible_for_context p.state i ctx) ≡ true =
      ground arith in
    let (source, low, high, hit) =
      any_from-found (num_sources - 1) 1 (λ i. eligible_for_context p.state i ctx) accurate in
    let (candidate, is_one) =
      fast_candidate p ctx source h ((eligible_iff p.state source ctx).0 hit) in
    let test =
      is_fast_candidate p (bit_and p.pending_cache (get_or p.enable_cache ctx 0))
        (get_or p.threshold_cache ctx 0) in
    let fast : any_from (num_sources - 1) 1 test ≡ true =
      any_from-hit (num_sources - 1) 1 test source low high candidate in
    ground (arith, bit-zero source)
