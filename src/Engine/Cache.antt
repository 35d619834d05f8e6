-- ===== src/Engine/Cache.antt =====
-- riscv-vm/src/engine/cache.rs: the cache of compiled blocks. The hash map is an association list
-- from addresses to blocks, and its order stands for the order in which the map is walked.
pub mod Lookup
pub mod Found
use bavy.Prelude.{
  ℕ, ◌+◌, ◌-◌, ◌%◌, ◌/◌, ◌^◌, ◌==◌, ltb, leb, if◌then◌else◌, Option, none, some, Bool, true, false,
  not, ◌&&◌, List, [], ◌∷◌, ◌++◌, length,
}
use bavy.Engine.Block.{Block}

abbrev pub block_cache_size : ℕ
block_cache_size = 4096

abbrev pub Blocks : Type 0
Blocks = List (ℕ × Block)

pub record BlockCache : Type 0 where
  pub blocks : Blocks
  pub generation : ℕ  -- u32
  pub hits : ℕ
  pub misses : ℕ
  pub invalidations : ℕ

unfoldable pub new : BlockCache
new = record { blocks = []; generation = 0; hits = 0; misses = 0; invalidations = 0 }

-- The hash map's `get`, `insert` and `retain`; `remove` is a `retain`.
unfoldable pub find : ℕ → Blocks → Option Block
find pc [] = none
find pc ((key, block) ∷ rest) = if key == pc then some block else find pc rest

unfoldable pub put : ℕ → Block → Blocks → Blocks
put pc block [] = (pc, block) ∷ []
put pc block ((key, old) ∷ rest) =
    if key == pc then (pc, block) ∷ rest else (key, old) ∷ put pc block rest

unfoldable pub retain : (ℕ → Block → Bool) → Blocks → Blocks
retain keep [] = []
retain keep ((key, block) ∷ rest) =
    let kept = retain keep rest in if keep key block then (key, block) ∷ kept else kept

abbrev remove : Blocks → ℕ → Blocks
remove blocks pc = retain (λ key block. not (key == pc)) blocks

unfoldable pub remove_all : List ℕ → Blocks → Blocks
remove_all [] blocks = blocks
remove_all (pc ∷ pcs) blocks = remove_all pcs (remove blocks pc)

-- The result of a lookup, with the counters; `touch` is done to a block that is found.
unfoldable pub looked_up :
    BlockCache → (Block → Block) → ℕ → Option Block → BlockCache × Option Block
looked_up cache touch pc none = (record cache { misses = cache.misses + 1 }, none)
looked_up cache touch pc (some block) =
    if block.generation == cache.generation
    then (
      record cache { hits = cache.hits + 1; blocks = put pc (touch block) cache.blocks },
      some (touch block),
    )
    else (record cache { misses = cache.misses + 1 }, none)

unfoldable pub get : BlockCache → ℕ → BlockCache × Option Block
get cache pc = looked_up cache (λ block. block) pc (find pc cache.blocks)

-- `saturating_add(1)` on u32.
abbrev pub touch : Block → Block
touch block = record block {
  exec_count = if ltb block.exec_count (2 ^ 32 - 1) then block.exec_count + 1 else block.exec_count;
}

unfoldable pub get_and_touch : BlockCache → ℕ → BlockCache × Option Block
get_and_touch cache pc = looked_up cache touch pc (find pc cache.blocks)

-- The loop of `evict_cold` that collects addresses.
unfoldable pub collect_cold : ℕ → List ℕ → Blocks → List ℕ
collect_cold threshold cold [] = cold
collect_cold threshold cold ((pc, block) ∷ rest) =
    let cold = if ltb block.exec_count 10 then cold ++ pc ∷ [] else cold in
    let more = collect_cold threshold cold rest in
    if ltb block.exec_count 10 && leb threshold (length cold) then cold else more

unfoldable pub evict_cold : BlockCache → BlockCache
evict_cold cache =
    let threshold = length cache.blocks / 4 in
    let blocks = remove_all (collect_cold threshold [] cache.blocks) cache.blocks in
    let oldest_gen = (cache.generation + 2 ^ 32 - 1) % 2 ^ 32 in
    if leb block_cache_size (length blocks)
    then record cache { blocks = retain (λ pc block. leb oldest_gen block.generation) blocks }
    else record cache { blocks = blocks }

unfoldable pub insert : BlockCache → Block → BlockCache
insert cache block =
    let room = if leb block_cache_size (length cache.blocks) then evict_cold cache else cache in
    record room { blocks = put block.start_pc block room.blocks }

unfoldable pub flush : BlockCache → BlockCache
flush cache = record cache {
  generation = (cache.generation + 1) % 2 ^ 32;
  invalidations = cache.invalidations + 1;
}

unfoldable pub invalidate_range : BlockCache → ℕ → ℕ → BlockCache
invalidate_range cache start_pa end_pa = record cache {
  blocks =
      retain
        (λ pc block.
          not (ltb block.start_pa end_pa && ltb start_pa (block.start_pa + block.byte_len)))
        cache.blocks;
  invalidations = cache.invalidations + 1;
}

unfoldable pub clear : BlockCache → BlockCache
clear cache = new
