-- ===== src/Plic/Complete.antt =====
-- riscv-vm/src/devices/plic.rs: a claim marks the interrupt as in flight, and a completion ends that.
use bavy.Prelude.{
  ℕ, ◌+◌, ◌*◌, ◌%◌, ◌^◌, ◌<◌, ◌≡◌, ◌≢◌, ap, ◌∙◌, arith, bit_and, bit_or, get_or, set, length,
  set_back, get_or-set_self, ok, some,
}
use bavy.Prelude.Bits.{bit, complement, bit_and_mask, set_clear}
use bavy.Plic.State.{Plic, PlicState, num_sources, num_contexts}
use bavy.Plic.Claim.{claim_interrupt_for_internal, claim_interrupt_for}
use bavy.Plic.Mmio.{store, complete, target_context, with_state}
use bavy.Plic.Order.{claim_interrupt_for_internal-IsClaim}
use bavy.Plic.Coherent.{IsCoherent}

-- The registers of a context.
abbrev pub claim_register : ℕ → ℕ
claim_register ctx = 0x200000 + 0x1000 * ctx + 4

store-claim_register :
    (p : Plic) (ctx value : ℕ)
    → ctx < num_contexts
    → store p (claim_register ctx) 4 value
      ≡ (with_state p (complete p.state ctx (value % 2 ^ 32)), ok tt)
unfolding store
store-claim_register p ctx value h =
    let here : target_context (claim_register ctx) ≡ ctx = omega arith in ground arith

pub claimed_lem :
    (s : PlicState) (ctx : ℕ)
    → (claim_interrupt_for_internal s ctx).1 ≢ 0
    → (claim_interrupt_for_internal s ctx).0 ≡ record s {
      active =
          set s.active ctx
            (bit_or (get_or s.active ctx 0) (2 ^ (claim_interrupt_for_internal s ctx).1));
    }
unfolding claim_interrupt_for_internal
claimed_lem s ctx ne = ground arith

completed_lem :
    (s : PlicState) (ctx id : ℕ)
    → 0 < id
    → id < num_sources
    → complete s ctx (id % 2 ^ 32) ≡ record s {
      active = set s.active ctx (bit_and (get_or s.active ctx 0) (complement 32 (2 ^ id)));
    }
unfolding complete
completed_lem s ctx id low high =
    let whole : bit_and (id % 2 ^ 32) 0xffff ≡ id = omega (arith, bit_and_mask 16 (id % 2 ^ 32)) in
    rw whole (ground arith)

pub claim_inversion :
    (p p' : Plic) (ctx id : ℕ)
    → claim_interrupt_for p ctx ≡ some (p', id)
    → (ctx < num_contexts)
      × (p' ≡ with_state p (claim_interrupt_for_internal p.state ctx).0)
      × (id ≡ (claim_interrupt_for_internal p.state ctx).1)
unfolding claim_interrupt_for
claim_inversion p p' ctx id h = ground arith

-- Marking and completing an interrupt that is not in flight.
complete-mark :
    (s : PlicState) (ctx id : ℕ)
    → ctx < length s.active
    → get_or s.active ctx 0 < 2 ^ 32
    → 0 < id
    → id < num_sources
    → bit (get_or s.active ctx 0) id ≡ 0
    → complete
        (record s { active = set s.active ctx (bit_or (get_or s.active ctx 0) (2 ^ id)) })
        ctx
        (id % 2 ^ 32)
      ≡ s
complete-mark s ctx id inside fits low high free =
    let old : ℕ = get_or s.active ctx 0 in
    let marked : PlicState = record s { active = set s.active ctx (bit_or old (2 ^ id)) } in
    let cleared = set_clear 32 old id fits high free in
    completed_lem marked ctx id low high
    ∙ rw (get_or-set_self s.active ctx (bit_or old (2 ^ id)) 0 inside, cleared)
        (ap (λ active. record s { active = active })
          (set_back s.active ctx (bit_or old (2 ^ id)) 0 inside))

-- In a coherent controller whose active word of the context fits 32 bits, a claim that answers a
-- source and its completion through the context's register leave the controller as it was.
pub complete-claim :
    (p p' : Plic) (ctx id : ℕ)
    → IsCoherent p
    → get_or p.state.active ctx 0 < 2 ^ 32
    → claim_interrupt_for p ctx ≡ some (p', id)
    → id ≢ 0
    → store p' (claim_register ctx) 4 id ≡ (p, ok tt)
complete-claim p p' ctx id h fits claimed ne =
    let (inside, state, answer) = claim_inversion p p' ctx id claimed in
    let claim = claim_interrupt_for_internal p.state ctx in
    let nonzero : claim.1 ≢ 0 = λ e. ne (answer ∙ e) in
    let offer = claim_interrupt_for_internal-IsClaim p.state ctx in
    let restored : complete claim.0 ctx (claim.1 % 2 ^ 32) ≡ p.state =
      ap (λ s. complete s ctx (claim.1 % 2 ^ 32)) (claimed_lem p.state ctx nonzero)
      ∙ complete-mark p.state ctx claim.1 (omega (arith, h.active_len)) fits (omega arith)
          offer.in_range (offer.offered nonzero).free in
    rw (state, answer)
      (store-claim_register (with_state p claim.0) ctx claim.1 inside ∙ λ i.
        (with_state p (restored i), ok tt))
