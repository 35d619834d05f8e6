-- ===== src/Plic/Coherent.antt =====
-- riscv-vm/src/devices/plic.rs: the atomic caches mirror the state behind the mutex.
use bavy.Prelude.{
  ℕ, ◌-◌, ◌%◌, ◌^◌, ◌≡◌, refl, arith, Bool, List, length, get_or, length-set, length-replicate,
  get_or-set_self, bit_and, bit_or, some,
}
use bavy.Prelude.Bits.{◌>>>◌, complement}
use bavy.Plic.State.{
  Plic, num_sources, num_contexts, new, sync_caches, update_pending, set_source_level,
}
use bavy.Plic.Claim.{claim_interrupt_for_internal, claim_loop, claim_interrupt_for}
use bavy.Plic.Mmio.{load, store, complete, enable_context, target_context}
use bavy.Plic.Snapshot.{set_priority, set_pending, set_enable, set_threshold, set_active}
use bavy.Plic.Snapshot.Restore.{length-restore_from, copy_from-restore_from}

-- The arrays have their fixed lengths, and each cache equals what it caches.
pub record IsCoherent (p : Plic) : Type 0 where
  pub priority_len : length p.state.priority ≡ num_sources
  pub enable_len : length p.state.enable ≡ num_contexts
  pub threshold_len : length p.state.threshold ≡ num_contexts
  pub active_len : length p.state.active ≡ num_contexts
  pub pending_same : p.pending_cache ≡ p.state.pending
  pub enable_same : p.enable_cache ≡ p.state.enable
  pub threshold_same : p.threshold_cache ≡ p.state.threshold
  pub priority_same : p.priority_cache ≡ p.state.priority

pub new-IsCoherent : IsCoherent new
unfolding new
new-IsCoherent = record {
  priority_len = length-replicate num_sources 0;
  enable_len = length-replicate num_contexts 0;
  threshold_len = length-replicate num_contexts 0;
  active_len = length-replicate num_contexts 0;
  pending_same = refl;
  enable_same = refl;
  threshold_same = refl;
  priority_same = refl;
}

update_pending-IsCoherent :
    (p : Plic) (source : ℕ) → IsCoherent p → IsCoherent (update_pending p source)
unfolding update_pending
update_pending-IsCoherent p source h = ground arith

set_source_level-IsCoherent :
    (p : Plic) (source : ℕ) (level : Bool)
    → IsCoherent p
    → IsCoherent (set_source_level p source level)
unfolding set_source_level
set_source_level-IsCoherent p source level h = ground arith

claim-IsCoherent :
    (p : Plic) (ctx : ℕ)
    → IsCoherent p
    → IsCoherent (record p { state = (claim_interrupt_for_internal p.state ctx).0 })
unfolding claim_interrupt_for_internal
claim-IsCoherent p ctx h = ground (
  arith,
  length-set p.state.active ctx (
      bit_or (get_or p.state.active ctx 0)
        (2 ^ (claim_loop p.state ctx (num_sources - 1) 1 (0, 0)).1)),
)

complete-IsCoherent :
    (p : Plic) (ctx val : ℕ)
    → IsCoherent p
    → IsCoherent (record p { state = complete p.state ctx val })
unfolding complete
complete-IsCoherent p ctx val h = ground (
  arith,
  length-set p.state.active ctx
      (bit_and (get_or p.state.active ctx 0) (complement 32 (2 ^ bit_and val 0xffff))),
)

load-IsCoherent : (p : Plic) (offset size : ℕ) → IsCoherent p → IsCoherent (load p offset size).0
unfolding load
load-IsCoherent p offset size h = ground (arith, claim-IsCoherent p (target_context offset) h)

pub store-IsCoherent :
    (p : Plic) (offset size value : ℕ) → IsCoherent p → IsCoherent (store p offset size value).0
unfolding store
store-IsCoherent p offset size value h = ground (
  arith,
  complete-IsCoherent p (target_context offset) (value % 2 ^ 32) h,
  length-set p.state.priority (offset >>> 2) (value % 2 ^ 32),
  length-set p.state.enable (enable_context offset) (value % 2 ^ 32),
  length-set p.state.threshold (target_context offset) (value % 2 ^ 32),
  get_or-set_self p.state.priority (offset >>> 2) (value % 2 ^ 32) 0,
  get_or-set_self p.state.enable (enable_context offset) (value % 2 ^ 32) 0,
  get_or-set_self p.state.threshold (target_context offset) (value % 2 ^ 32) 0,
)

pub set_priority-IsCoherent :
    (p : Plic) (values : List ℕ) → IsCoherent p → IsCoherent (set_priority p values)
unfolding set_priority
set_priority-IsCoherent p values h = ground (
  arith,
  length-restore_from 0 values p.state.priority,
  copy_from-restore_from num_sources values p.state.priority,
)

pub set_enable-IsCoherent :
    (p : Plic) (values : List ℕ) → IsCoherent p → IsCoherent (set_enable p values)
unfolding set_enable
set_enable-IsCoherent p values h = ground (
  arith,
  length-restore_from 0 values p.state.enable,
  copy_from-restore_from num_contexts values p.state.enable,
)

pub set_threshold-IsCoherent :
    (p : Plic) (values : List ℕ) → IsCoherent p → IsCoherent (set_threshold p values)
unfolding set_threshold
set_threshold-IsCoherent p values h = ground (
  arith,
  length-restore_from 0 values p.state.threshold,
  copy_from-restore_from num_contexts values p.state.threshold,
)

pub set_active-IsCoherent :
    (p : Plic) (values : List ℕ) → IsCoherent p → IsCoherent (set_active p values)
unfolding set_active
set_active-IsCoherent p values h = ground (arith, length-restore_from 0 values p.state.active)

pub set_pending-IsCoherent :
    (p : Plic) (value : ℕ) → IsCoherent p → IsCoherent (set_pending p value)
unfolding set_pending
set_pending-IsCoherent p value h = ground arith

sync_caches-IsCoherent : (p : Plic) → IsCoherent p → IsCoherent (sync_caches p)
unfolding sync_caches
sync_caches-IsCoherent p h = ground arith

-- One step of the controller: any method that changes it, a claim only where it does not panic.
pub data Step : Plic → Plic → Type 0 where
  syncs : (p : Plic) → Step p (sync_caches p)
  updates_pending : (p : Plic) (source : ℕ) → Step p (update_pending p source)
  sets_level : (p : Plic) (source : ℕ) (level : Bool) → Step p (set_source_level p source level)
  loads : (p : Plic) (offset size : ℕ) → Step p (load p offset size).0
  stores : (p : Plic) (offset size value : ℕ) → Step p (store p offset size value).0
  claims : (p p' : Plic) (ctx id : ℕ) → claim_interrupt_for p ctx ≡ some (p', id) → Step p p'
  restores_priority : (p : Plic) (values : List ℕ) → Step p (set_priority p values)
  restores_pending : (p : Plic) (value : ℕ) → Step p (set_pending p value)
  restores_enable : (p : Plic) (values : List ℕ) → Step p (set_enable p values)
  restores_threshold : (p : Plic) (values : List ℕ) → Step p (set_threshold p values)
  restores_active : (p : Plic) (values : List ℕ) → Step p (set_active p values)

claimed-IsCoherent :
    (p p' : Plic) (ctx id : ℕ)
    → claim_interrupt_for p ctx ≡ some (p', id)
    → IsCoherent p
    → IsCoherent p'
unfolding claim_interrupt_for
claimed-IsCoherent p p' ctx id e h = ground (arith, claim-IsCoherent p ctx h)

pub Step-IsCoherent : {p p' : Plic} → Step p p' → IsCoherent p → IsCoherent p'
Step-IsCoherent (syncs p) h = sync_caches-IsCoherent p h
Step-IsCoherent (updates_pending p source) h = update_pending-IsCoherent p source h
Step-IsCoherent (sets_level p source level) h = set_source_level-IsCoherent p source level h
Step-IsCoherent (loads p offset size) h = load-IsCoherent p offset size h
Step-IsCoherent (stores p offset size value) h = store-IsCoherent p offset size value h
Step-IsCoherent (claims p p' ctx id e) h = claimed-IsCoherent p p' ctx id e h
Step-IsCoherent (restores_priority p values) h = set_priority-IsCoherent p values h
Step-IsCoherent (restores_pending p value) h = set_pending-IsCoherent p value h
Step-IsCoherent (restores_enable p values) h = set_enable-IsCoherent p values h
Step-IsCoherent (restores_threshold p values) h = set_threshold-IsCoherent p values h
Step-IsCoherent (restores_active p values) h = set_active-IsCoherent p values h

-- What can be reached from a new controller.
pub data Reached : Plic → Type 0 where
  start : Reached new
  next : {p p' : Plic} → Reached p → Step p p' → Reached p'

-- However the controller is used, its caches mirror the state.
pub Reached-IsCoherent : {p : Plic} → Reached p → IsCoherent p
Reached-IsCoherent start = new-IsCoherent
Reached-IsCoherent (next r s) = Step-IsCoherent s (Reached-IsCoherent r)
