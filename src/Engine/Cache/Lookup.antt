-- ===== src/Engine/Cache/Lookup.antt =====
-- riscv-vm/src/engine/cache.rs: what a lookup finds after each operation.
use bavy.Prelude.{
  ℕ, ◌≡◌, refl, sym, ◌∙◌, ◌/◌, arith, ◌==◌, leb, if◌then◌else◌, Option, none, some, Bool, not,
  Bool-cases, inl, inr, List, [], ◌∷◌, length, ==_iff,
}
use mathlib.Core.Path.{subst}
use bavy.Engine.Block.{Block}
use bavy.Engine.Cache.{
  Blocks, BlockCache, find, put, retain, remove_all, collect_cold, looked_up, get, get_and_touch,
  evict_cold, insert, touch, block_cache_size,
}

pub find-put :
    (pc key : ℕ) (block : Block) (blocks : Blocks)
    → find pc (put key block blocks) ≡ (if key == pc then some block else find pc blocks)
unfolding find put
find-put pc key block [] = refl
find-put pc key block ((k, old) ∷ rest) = ground (arith, find-put pc key block rest)

-- A block that is inserted in the cache's generation is found at its address.
pub get-insert :
    (cache : BlockCache) (block : Block)
    → block.generation ≡ (insert cache block).generation
    → (get (insert cache block) block.start_pc).1 ≡ some block
unfolding get insert looked_up
get-insert cache block current =
    rw
      (find-put block.start_pc block.start_pc block
        (if leb block_cache_size (length cache.blocks) then evict_cold cache else cache).blocks)
      (ground (arith, current))

-- Every block of the map has the property.
abbrev pub AllBlocks {ℓ} : (ℕ → Block → Type ℓ) → Blocks → Type ℓ
AllBlocks P [] = Unit
AllBlocks P ((key, block) ∷ rest) = P key block × AllBlocks P rest

module _ (P : ℕ → Block → Type 0) where
  AllBlocks-put :
      (pc : ℕ) (block : Block) (blocks : Blocks)
      → AllBlocks P blocks
      → P pc block
      → AllBlocks P (put pc block blocks)
  unfolding put
  AllBlocks-put pc block [] all new = (new, tt)
  AllBlocks-put pc block ((key, old) ∷ rest) all new = elim (Bool-cases (key == pc)) [
    | inl e ↦ rw e (new, all.1)
    | inr e ↦ rw e (all.0, AllBlocks-put pc block rest all.1 new)
  ]

  AllBlocks-retain :
      (keep : ℕ → Block → Bool) (blocks : Blocks)
      → AllBlocks P blocks
      → AllBlocks P (retain keep blocks)
  unfolding retain
  AllBlocks-retain keep [] all = tt
  AllBlocks-retain keep ((key, block) ∷ rest) all = elim (Bool-cases (keep key block)) [
    | inl e ↦ rw e (all.0, AllBlocks-retain keep rest all.1)
    | inr e ↦ rw e (AllBlocks-retain keep rest all.1)
  ]

  AllBlocks-remove_all :
      (pcs : List ℕ) (blocks : Blocks) → AllBlocks P blocks → AllBlocks P (remove_all pcs blocks)
  unfolding remove_all
  AllBlocks-remove_all [] blocks all = all
  AllBlocks-remove_all (pc ∷ pcs) blocks all =
      AllBlocks-remove_all pcs (retain (λ key block. not (key == pc)) blocks)
        (AllBlocks-retain (λ key block. not (key == pc)) blocks all)

  AllBlocks-evict_cold :
      (cache : BlockCache) → AllBlocks P cache.blocks → AllBlocks P (evict_cold cache).blocks
  unfolding evict_cold
  AllBlocks-evict_cold cache all =
      let cold = collect_cold (length cache.blocks / 4) [] cache.blocks in
      let warm = AllBlocks-remove_all cold cache.blocks all in
      elim (Bool-cases (leb block_cache_size (length (remove_all cold cache.blocks)))) [
        | inl e ↦ rw e (AllBlocks-retain _ (remove_all cold cache.blocks) warm)
        | inr e ↦ rw e warm
      ]

  -- Every entry keeps the property where the new one has it.
  pub AllBlocks-insert :
      (cache : BlockCache) (block : Block)
      → AllBlocks P cache.blocks
      → P block.start_pc block
      → AllBlocks P (insert cache block).blocks
  unfolding insert
  AllBlocks-insert cache block all new =
      elim (Bool-cases (leb block_cache_size (length cache.blocks))) [
        | inl e ↦ rw e (
            AllBlocks-put block.start_pc block (evict_cold cache).blocks
              (AllBlocks-evict_cold cache all) new)
        | inr e ↦ rw e (AllBlocks-put block.start_pc block cache.blocks all new)
      ]

  -- The block that a lookup gives has it.
  abbrev pub Has : ℕ → Option Block → Type 0
  Has pc none = Unit
  Has pc (some block) = P pc block

  find-AllBlocks :
      (pc : ℕ) (blocks : Blocks)
      → AllBlocks P blocks
      → (r : Option Block) → find pc blocks ≡ r
      → Has pc r
  unfolding find
  find-AllBlocks pc [] all none e = tt
  find-AllBlocks pc [] all (some block) e = absurd (cc)
  find-AllBlocks pc ((key, old) ∷ rest) all r e = elim (Bool-cases (key == pc)) [
    | inl same ↦
        let at : key ≡ pc = (==_iff key pc).0 same in
        let it : some old ≡ r = sym (rw same refl) ∙ e in
        subst (Has pc) it (subst (λ k. P k old) at all.0)
    | inr other ↦ find-AllBlocks pc rest all.1 r (sym (rw other refl) ∙ e)
  ]

  looked_up-AllBlocks :
      (cache : BlockCache) (pc : ℕ) (r : Option Block)
      → AllBlocks P cache.blocks
      → ((block : Block) → P pc block → P pc (touch block))
      → Has pc r
      → AllBlocks P (looked_up cache touch pc r).0.blocks × Has pc ((looked_up cache touch pc r).1)
  unfolding looked_up
  looked_up-AllBlocks cache pc none all keeps has = (all, tt)
  looked_up-AllBlocks cache pc (some block) all keeps has =
      elim (Bool-cases (block.generation == cache.generation)) [
        | inl e ↦
            rw e
              (AllBlocks-put pc (touch block) cache.blocks all (keeps block has), keeps block has)
        | inr e ↦ rw e (all, tt)
      ]

  pub get_and_touch-AllBlocks :
      (cache : BlockCache) (pc : ℕ)
      → AllBlocks P cache.blocks
      → ((block : Block) → P pc block → P pc (touch block))
      → AllBlocks P (get_and_touch cache pc).0.blocks × Has pc ((get_and_touch cache pc).1)
  unfolding get_and_touch
  get_and_touch-AllBlocks cache pc all keeps =
      looked_up-AllBlocks cache pc (find pc cache.blocks) all keeps
        (find-AllBlocks pc cache.blocks all (find pc cache.blocks) refl)
