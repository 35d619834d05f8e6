-- ===== src/Plic/Snapshot.antt =====
-- riscv-vm/src/devices/plic.rs: reading the state for a snapshot, and restoring it.
pub mod Restore
use bavy.Prelude.{ℕ, zero, suc, ◌+◌, min, ltb, if◌then◌else◌, List, [], ◌∷◌, length, get_or, set}
use bavy.Plic.State.{Plic, num_sources, num_contexts, set_pending_bits, sync_pending_cache}

-- `for (i, &val) in values.iter().enumerate() { if i < array.len() { array[i] = val; } }`, with `i`
-- values done.
unfoldable pub restore_from : ℕ → List ℕ → List ℕ → List ℕ
restore_from i [] array = array
restore_from i (val ∷ values) array =
    restore_from (i + 1) values (if ltb i (length array) then set array i val else array)

-- `for i in 0..left { cache[i].store(array[i]); }`, from i on.
unfoldable pub copy_from : ℕ → ℕ → List ℕ → List ℕ → List ℕ
copy_from zero i array cache = cache
copy_from (suc left) i array cache = copy_from left (i + 1) array (set cache i (get_or array i 0))

unfoldable pub get_priority : Plic → List ℕ
get_priority p = p.state.priority

unfoldable pub get_pending : Plic → ℕ
get_pending p = p.state.pending

unfoldable pub get_enable : Plic → List ℕ
get_enable p = p.state.enable

unfoldable pub get_threshold : Plic → List ℕ
get_threshold p = p.state.threshold

unfoldable pub get_active : Plic → List ℕ
get_active p = p.state.active

unfoldable pub set_priority : Plic → List ℕ → Plic
set_priority p values =
    let array = restore_from 0 values p.state.priority in
    record p {
      state = record p.state { priority = array };
      priority_cache = copy_from (min num_sources (length values)) 0 array p.priority_cache;
    }

unfoldable pub set_pending : Plic → ℕ → Plic
unfolding sync_pending_cache
set_pending p value = sync_pending_cache (set_pending_bits p value)

unfoldable pub set_enable : Plic → List ℕ → Plic
set_enable p values =
    let array = restore_from 0 values p.state.enable in
    record p {
      state = record p.state { enable = array };
      enable_cache = copy_from (min num_contexts (length values)) 0 array p.enable_cache;
    }

unfoldable pub set_threshold : Plic → List ℕ → Plic
set_threshold p values =
    let array = restore_from 0 values p.state.threshold in
    record p {
      state = record p.state { threshold = array };
      threshold_cache = copy_from (min num_contexts (length values)) 0 array p.threshold_cache;
    }

-- `active` has no cache.
unfoldable pub set_active : Plic → List ℕ → Plic
set_active p values = record p {
  state = record p.state { active = restore_from 0 values p.state.active };
}
