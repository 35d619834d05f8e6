-- ===== src/Plic/State.antt =====
-- riscv-vm/src/devices/plic.rs: the state behind the mutex and the atomic caches that mirror it, as
-- one record, the cache accessors and the fast polling check, and the interrupt lines.
use bavy.Prelude.{
  ℕ, ◌+◌, ◌-◌, ◌*◌, ◌^◌, bit_and, bit_or, Bool, false, not, ◌&&◌, ◌==◌, ltb, leb, if◌then◌else◌,
  List, get_or, set, replicate,
}
use bavy.Prelude.Bits.{complement}
use bavy.Prelude.Loops.{any_from}

abbrev pub max_harts : ℕ
max_harts = 128

abbrev pub num_sources : ℕ
num_sources = 32

abbrev pub num_contexts : ℕ
num_contexts = 2 * max_harts

pub record PlicState : Type 0 where
  pub priority : List ℕ  -- [u32; NUM_SOURCES]
  pub pending : ℕ  -- u32
  pub enable : List ℕ  -- [u32; NUM_CONTEXTS]
  pub threshold : List ℕ  -- [u32; NUM_CONTEXTS]
  pub active : List ℕ  -- [u32; NUM_CONTEXTS]
  pub debug : Bool

pub record Plic : Type 0 where
  pub state : PlicState
  pub pending_cache : ℕ
  pub enable_cache : List ℕ
  pub threshold_cache : List ℕ
  pub priority_cache : List ℕ

unfoldable pub m_context : ℕ → ℕ
m_context hart_id = hart_id * 2

unfoldable pub s_context : ℕ → ℕ
s_context hart_id = hart_id * 2 + 1

unfoldable pub new : Plic
new = record {
  state = record {
    priority = replicate num_sources 0;
    pending = 0;
    enable = replicate num_contexts 0;
    threshold = replicate num_contexts 0;
    active = replicate num_contexts 0;
    debug = false;
  };
  pending_cache = 0;
  enable_cache = replicate num_contexts 0;
  threshold_cache = replicate num_contexts 0;
  priority_cache = replicate num_sources 0;
}

-- Each loop stores every element of an array into the cache of the same length.
unfoldable pub sync_caches : Plic → Plic
sync_caches p = record p {
  pending_cache = p.state.pending;
  enable_cache = p.state.enable;
  threshold_cache = p.state.threshold;
  priority_cache = p.state.priority;
}

unfoldable pub sync_pending_cache : Plic → Plic
sync_pending_cache p = record p { pending_cache = p.state.pending }

unfoldable pub sync_enable_cache : Plic → ℕ → Plic
sync_enable_cache p ctx =
    if ltb ctx num_contexts
    then record p { enable_cache = set p.enable_cache ctx (get_or p.state.enable ctx 0) }
    else p

unfoldable pub sync_threshold_cache : Plic → ℕ → Plic
sync_threshold_cache p ctx =
    if ltb ctx num_contexts
    then record p { threshold_cache = set p.threshold_cache ctx (get_or p.state.threshold ctx 0) }
    else p

unfoldable pub sync_priority_cache : Plic → ℕ → Plic
sync_priority_cache p source =
    if ltb source num_sources
    then record p {
      priority_cache = set p.priority_cache source (get_or p.state.priority source 0);
    }
    else p

unfoldable pub pending_cached : Plic → ℕ
pending_cached p = p.pending_cache

unfoldable pub enable_cached : Plic → ℕ → ℕ
enable_cached p ctx = if ltb ctx num_contexts then get_or p.enable_cache ctx 0 else 0

unfoldable pub threshold_cached : Plic → ℕ → ℕ
threshold_cached p ctx = if ltb ctx num_contexts then get_or p.threshold_cache ctx 0 else 0

unfoldable pub priority_cached : Plic → ℕ → ℕ
priority_cached p source = if ltb source num_sources then get_or p.priority_cache source 0 else 0

-- The body of the loop of `is_interrupt_pending_for_fast`.
unfoldable pub is_fast_candidate : Plic → ℕ → ℕ → ℕ → Bool
is_fast_candidate p candidates threshold source =
    not (bit_and candidates (2 ^ source) == 0) && ltb threshold (get_or p.priority_cache source 0)

unfoldable pub is_interrupt_pending_for_fast : Plic → ℕ → Bool
is_interrupt_pending_for_fast p ctx =
    let pending = p.pending_cache in
    let enable = get_or p.enable_cache ctx 0 in
    let threshold = get_or p.threshold_cache ctx 0 in
    let candidates = bit_and pending enable in
    if leb num_contexts ctx
    then false
    else if candidates == 0
    then false
    else any_from (num_sources - 1) 1 (is_fast_candidate p candidates threshold)

unfoldable pub has_pending_candidate : Plic → ℕ → Bool
has_pending_candidate p ctx =
    if leb num_contexts ctx
    then false
    else not (bit_and p.pending_cache (get_or p.enable_cache ctx 0) == 0)

abbrev pub set_pending_bits : Plic → ℕ → Plic
set_pending_bits p bits = record p { state = record p.state { pending = bits } }

unfoldable pub update_pending : Plic → ℕ → Plic
unfolding sync_pending_cache
update_pending p source =
    if ltb source 32
    then sync_pending_cache (set_pending_bits p (bit_or p.state.pending (2 ^ source)))
    else p

unfoldable pub set_source_level : Plic → ℕ → Bool → Plic
unfolding sync_pending_cache
set_source_level p source level =
    let raised = bit_or p.state.pending (2 ^ source) in
    let lowered = bit_and p.state.pending (complement 32 (2 ^ source)) in
    if leb 32 source
    then p
    else sync_pending_cache (set_pending_bits p (if level then raised else lowered))
