-- ===== src/Plic/Registers.antt =====
-- riscv-vm/src/devices/plic.rs: the registers as software sees them, and the snapshot.
use bavy.Prelude.{
  ℕ, ◌+◌, ◌*◌, ◌/◌, ◌%◌, ◌^◌, ◌<◌, ◌≡◌, ◌≢◌, ap, ◌∙◌, arith, ◌==◌, if◌then◌else◌, bit_or, get_or,
  set, length, get_or-set, ◌↔◌, ◌⊎◌, ok, some,
}
use bavy.Prelude.Bits.{bit-lt, bit-bit_or, bit-pow}
use bavy.Plic.State.{
  Plic, PlicState, num_sources, num_contexts, priority_cached, enable_cached, threshold_cached,
}
use bavy.Plic.Claim.{claim_interrupt_for_internal, claim_interrupt_for}
use bavy.Plic.Mmio.{load, store, complete, target_context, enable_context}
use bavy.Plic.Snapshot.{
  set_priority, set_pending, set_enable, set_threshold, set_active, get_priority, get_pending,
  get_enable, get_threshold, get_active,
}
use bavy.Plic.Snapshot.Restore.{restore_from_all, copy_from-restore_from}
use bavy.Plic.Pending.{IsOffered}
use bavy.Plic.Complete.{claim_inversion, claimed_lem}
use bavy.Plic.Coherent.{IsCoherent, store-IsCoherent}

abbrev pub enable_register : ℕ → ℕ
enable_register ctx = 0x2000 + 0x80 * ctx

abbrev pub threshold_register : ℕ → ℕ
threshold_register ctx = 0x200000 + 0x1000 * ctx

abbrev pub priority_register : ℕ → ℕ
priority_register source = 4 * source

-- What a 32-bit read of each register returns.
load_registers :
    (p : Plic) (ctx source : ℕ)
    → IsCoherent p
    → ctx < num_contexts
    → source < num_sources
    → (load p (priority_register source) 4 ≡ (p, ok (get_or p.state.priority source 0)))
      × (load p (enable_register ctx) 4 ≡ (p, ok (get_or p.state.enable ctx 0)))
      × (load p (threshold_register ctx) 4 ≡ (p, ok (get_or p.state.threshold ctx 0)))
unfolding load priority_cached enable_cached threshold_cached
load_registers p ctx source h inside few =
    let word : 4 * source / 2 ^ 2 ≡ source = omega arith in
    let block : enable_context (enable_register ctx) ≡ ctx = omega arith in
    let target : target_context (threshold_register ctx) ≡ ctx = omega arith in
    (ground arith, ground arith, ground arith)

-- What a 32-bit write of each register changes.
store_registers :
    (p : Plic) (ctx source value : ℕ)
    → ctx < num_contexts
    → source < num_sources
    → ((store p (priority_register source) 4 value).0.state
        ≡ record p.state { priority = set p.state.priority source (value % 2 ^ 32) })
      × ((store p (enable_register ctx) 4 value).0.state
          ≡ record p.state { enable = set p.state.enable ctx (value % 2 ^ 32) })
      × ((store p (threshold_register ctx) 4 value).0.state
          ≡ record p.state { threshold = set p.state.threshold ctx (value % 2 ^ 32) })
unfolding store
store_registers p ctx source value inside few =
    let word : 4 * source / 2 ^ 2 ≡ source = omega arith in
    let block : enable_context (enable_register ctx) ≡ ctx = omega arith in
    let target : target_context (threshold_register ctx) ≡ ctx = omega arith in
    (ground arith, ground arith, ground arith)

-- In a coherent controller, a 32-bit write of a priority, enable or threshold register in range is
-- read back from that register, cut to 32 bits, and the other registers of its kind read as
-- before.
pub load-store :
    (p : Plic) (ctx ctx' source source' value : ℕ)
    → IsCoherent p
    → ctx < num_contexts
    → ctx' < num_contexts
    → source < num_sources
    → source' < num_sources
    → ((load (store p (priority_register source) 4 value).0 (priority_register source') 4).1
        ≡ ok (if source == source' then value % 2 ^ 32 else get_or p.state.priority source' 0))
      × ((load (store p (enable_register ctx) 4 value).0 (enable_register ctx') 4).1
          ≡ ok (if ctx == ctx' then value % 2 ^ 32 else get_or p.state.enable ctx' 0))
      × ((load (store p (threshold_register ctx) 4 value).0 (threshold_register ctx') 4).1
          ≡ ok (if ctx == ctx' then value % 2 ^ 32 else get_or p.state.threshold ctx' 0))
load-store p ctx ctx' source source' value h inside inside' few few' =
    let (s1, s2, s3) = store_registers p ctx source value inside few in
    let reads = λ (offset : ℕ).
      load_registers (store p offset 4 value).0 ctx' source' (store-IsCoherent p offset 4 value h)
        inside' few' in
    (
      ap (λ r. r.1) (reads (priority_register source)).0
          ∙ ap ok (
              ap (λ s. get_or s.priority source' 0) s1
              ∙ get_or-set p.state.priority source source' (value % 2 ^ 32) 0
                  (omega (arith, h.priority_len))),
      ap (λ r. r.1) (reads (enable_register ctx)).1
          ∙ ap ok (
              ap (λ s. get_or s.enable ctx' 0) s2
              ∙ get_or-set p.state.enable ctx ctx' (value % 2 ^ 32) 0
                  (omega (arith, h.enable_len))),
      ap (λ r. r.1) (reads (threshold_register ctx)).2
          ∙ ap ok (
              ap (λ s. get_or s.threshold ctx' 0) s3
              ∙ get_or-set p.state.threshold ctx ctx' (value % 2 ^ 32) 0
                  (omega (arith, h.threshold_len))),
    )

-- Software cannot raise or lower an interrupt line: no write changes the pending bits.
pub store-pending :
    (p : Plic) (offset size value : ℕ)
    → (store p offset size value).0.state.pending ≡ p.state.pending
unfolding store complete
store-pending p offset size value = ground arith

offers-mark :
    (s : PlicState) (ctx id c j : ℕ)
    → ctx < length s.active
    → let s' : PlicState = record s {
      active = set s.active ctx (bit_or (get_or s.active ctx 0) (2 ^ id));
    } in
      IsOffered s' j c ↔ (((c ≢ ctx) ⊎ (j ≢ id)) × IsOffered s j c)
offers-mark s ctx id c j inside =
    let marked : ℕ = bit_or (get_or s.active ctx 0) (2 ^ id) in
    let after = get_or-set s.active ctx c marked 0 inside in
    let bits = bit-bit_or (get_or s.active ctx 0) (2 ^ id) j in
    let power = bit-pow id j in
    let range = bit-lt (get_or s.active ctx 0) j in (λ o. ground arith, λ o. ground arith)

-- In a coherent controller, after a claim that answers a source, that source is no longer offered
-- to its context, and every other offer stands as it stood.
pub claim-offers :
    (p p' : Plic) (ctx id c j : ℕ)
    → IsCoherent p
    → claim_interrupt_for p ctx ≡ some (p', id)
    → id ≢ 0
    → IsOffered p'.state j c ↔ (((c ≢ ctx) ⊎ (j ≢ id)) × IsOffered p.state j c)
claim-offers p p' ctx id c j h claimed ne =
    let (inside, state, answer) = claim_inversion p p' ctx id claimed in
    let nonzero : (claim_interrupt_for_internal p.state ctx).1 ≢ 0 = λ e. ne (answer ∙ e) in
    let changed : p'.state ≡ record p.state {
      active = set p.state.active ctx (bit_or (get_or p.state.active ctx 0) (2 ^ id));
    } =
      rw (state, answer) (claimed_lem p.state ctx nonzero) in
    rw changed (offers-mark p.state ctx id c j (omega (arith, h.active_len)))

-- Restoring the parts that the snapshot of `saved` holds.
unfoldable pub restore : Plic → Plic → Plic
restore saved p =
    set_active
      (set_threshold
        (set_enable (set_pending (set_priority p (get_priority saved)) (get_pending saved))
          (get_enable saved))
        (get_threshold saved))
      (get_active saved)

-- Restoring a snapshot of a controller into another one gives the first, when both are coherent and
-- trace alike.
pub restore-snapshot :
    (saved p : Plic)
    → IsCoherent saved
    → IsCoherent p
    → saved.state.debug ≡ p.state.debug
    → restore saved p ≡ saved
unfolding restore set_priority set_pending set_enable set_threshold set_active get_priority
    get_pending get_enable get_threshold get_active
restore-snapshot saved p hs h e = ground (
  arith,
  restore_from_all saved.state.priority p.state.priority,
  restore_from_all saved.state.enable p.state.enable,
  restore_from_all saved.state.threshold p.state.threshold,
  restore_from_all saved.state.active p.state.active,
  copy_from-restore_from num_sources saved.state.priority p.state.priority,
  copy_from-restore_from num_contexts saved.state.enable p.state.enable,
  copy_from-restore_from num_contexts saved.state.threshold p.state.threshold,
)
