-- ===== src/Plic/Order.antt =====
-- riscv-vm/src/devices/plic.rs: which source a claim takes.
use bavy.Prelude.{ℕ, zero, suc, ◌+◌, ◌-◌, ◌≤◌, ◌<◌, ◌≡◌, ◌≢◌, refl, arith, true, get_or}
use native.Mathlib.Nat.{add-zero}
use bavy.Plic.State.{PlicState, num_sources}
use bavy.Plic.Claim.{eligible_for_context, claim_round, claim_loop, claim_interrupt_for_internal}
use bavy.Plic.Pending.{IsOffered, eligible_iff}

-- Of the sources from 1 up to `bound`, `id` is the first of the highest priority among those
-- that the context may claim, and `prio` its priority; if there is none, both are 0.
pub record IsBest (s : PlicState) (ctx bound prio id : ℕ) : Type 0 where
  pub nothing : id ≡ 0 → prio ≡ 0
  pub offered :
      id ≢ 0
      → (eligible_for_context s id ctx ≡ true) × (get_or s.priority id 0 ≡ prio) × (id < bound)
  pub highest :
      (j : ℕ)
      → 1 ≤ j
      → j < bound
      → eligible_for_context s j ctx ≡ true
      → get_or s.priority j 0 ≤ prio
  pub first :
      (j : ℕ) → 1 ≤ j → j < id → eligible_for_context s j ctx ≡ true → get_or s.priority j 0 < prio

module _ (s : PlicState) (ctx : ℕ) where
  claim_round-IsBest :
      (i : ℕ) (best : ℕ × ℕ)
      → 1 ≤ i
      → IsBest s ctx i best.0 best.1
      → let best' = claim_round s ctx i best in IsBest s ctx (i + 1) best'.0 best'.1
  unfolding claim_round
  claim_round-IsBest i best low h = record {
    nothing = ground (arith, h.nothing);
    offered = ground (arith, h.offered);
    highest = λ j a b o. ground (arith, h.highest j);
    first = λ j a b o. ground (arith, h.first j, h.highest j, h.offered);
  }

  claim_loop-IsBest :
      (left i : ℕ) (best : ℕ × ℕ)
      → 1 ≤ i
      → IsBest s ctx i best.0 best.1
      → let best' = claim_loop s ctx left i best in IsBest s ctx (i + left) best'.0 best'.1
  unfolding claim_loop
  claim_loop-IsBest zero i best low h = rw add-zero h
  claim_loop-IsBest (suc left) i best low h =
      let rest =
        claim_loop-IsBest left (i + 1) (claim_round s ctx i best) (omega arith)
          (claim_round-IsBest i best low h) in
      let e : i + 1 + left ≡ i + suc left = omega arith in rw e at rest

  nothing_yet : IsBest s ctx 1 0 0
  nothing_yet = record {
    nothing = λ e. refl;
    offered = λ ne. absurd (ne refl);
    highest = λ j low high o. absurd (omega arith);
    first = λ j low high o. absurd (omega arith);
  }

  -- What the claim answers: 0 exactly if no source from 1 to 31 is offered to the context; else an
  -- offered source such that no offered one has a higher priority, and none before it the same.
  pub record IsClaim (id : ℕ) : Type 0 where
    pub none_offered : id ≡ 0 → (j : ℕ) → 1 ≤ j → j < num_sources → IsOffered s j ctx → ⊥
    pub offered : id ≢ 0 → IsOffered s id ctx
    pub in_range : id < num_sources
    pub highest :
        (j : ℕ)
        → 1 ≤ j
        → j < num_sources
        → IsOffered s j ctx
        → get_or s.priority j 0 ≤ get_or s.priority id 0
    pub first :
        (j : ℕ)
        → 1 ≤ j
        → j < id
        → IsOffered s j ctx
        → get_or s.priority j 0 < get_or s.priority id 0

  found_one :
      (prio id j : ℕ)
      → IsBest s ctx num_sources prio id
      → 1 ≤ j
      → j < num_sources
      → IsOffered s j ctx
      → (id ≢ 0) × (get_or s.priority id 0 ≡ prio) × (get_or s.priority j 0 ≤ prio)
  found_one prio id j best low high o =
      let le = best.highest j low high ((eligible_iff s j ctx).1 o) in
      let ne : id ≢ 0 = λ e. absurd (omega (arith, best.nothing e, o.over)) in
      (ne, (best.offered ne).1, le)

  best_in_range : (prio id : ℕ) → IsBest s ctx num_sources prio id → id < num_sources
  best_in_range prio zero best = omega arith
  best_in_range prio (suc id) best = (best.offered (λ e. cc)).2

  -- A claim by a context answers 0 exactly where no source is offered to it, and otherwise the source
  -- of highest priority among those that are offered, the lowest-numbered of these.
  pub claim_interrupt_for_internal-IsClaim : IsClaim (claim_interrupt_for_internal s ctx).1
  unfolding claim_interrupt_for_internal
  claim_interrupt_for_internal-IsClaim =
      let found = claim_loop s ctx (num_sources - 1) 1 (0, 0) in
      let best : IsBest s ctx num_sources found.0 found.1 =
        claim_loop-IsBest (num_sources - 1) 1 (0, 0) (omega arith) nothing_yet in
      record {
        none_offered = λ e j low high o. (found_one found.0 found.1 j best low high o).0 e;
        offered = λ ne. (eligible_iff s found.1 ctx).0 (best.offered ne).0;
        in_range = best_in_range found.0 found.1 best;
        highest = λ j low high o. omega (arith, found_one found.0 found.1 j best low high o);
        first = λ j low high o.
            let before : j < num_sources = omega (arith, best_in_range found.0 found.1 best) in
            omega (
              arith,
              best.first j low high ((eligible_iff s j ctx).1 o),
              found_one found.0 found.1 j best low before o,
            );
      }
