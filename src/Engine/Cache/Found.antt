-- ===== src/Engine/Cache/Found.antt =====
-- riscv-vm/src/engine/cache.rs: a block that is found stays found.
use bavy.Prelude.{
  ℕ, ◌≡◌, ◌≢◌, ◌<◌, suc, ap, refl, sym, ◌∙◌, arith, ◌==◌, leb, Option, none, some, false,
  Bool-cases, inl, inr, [], ◌∷◌, length, ==_iff,
}
use mathlib.Core.Path.{subst}
use bavy.Engine.Block.{Block}
use bavy.Engine.Cache.{
  Blocks, BlockCache, find, put, looked_up, get_and_touch, insert, touch, block_cache_size,
}
use bavy.Engine.Cache.Lookup.{find-put}

-- A lookup at the address gives no block.
abbrev pub IsMissed : BlockCache → ℕ → Type 0
IsMissed cache pc =
    (block : Block) → find pc cache.blocks ≡ some block → block.generation ≢ cache.generation

-- The block, current and found at its address but for its count of runs.
abbrev pub IsFound : ℕ → Block → BlockCache → Type 0
IsFound pc block cache =
    (n : ℕ) × (find pc cache.blocks ≡ some (record block { exec_count = n }))
    × (block.generation ≡ cache.generation)

module _ (cache : BlockCache) (pc : ℕ) where
  looked_up-IsMissed :
      (r : Option Block)
      → find pc cache.blocks ≡ r
      → (looked_up cache touch pc r).1 ≡ none
      → IsMissed (looked_up cache touch pc r).0 pc
  unfolding looked_up
  looked_up-IsMissed none e gone = λ block found. absurd (cc)
  looked_up-IsMissed (some old) e gone = elim (Bool-cases (old.generation == cache.generation)) [
    | inl current ↦
        let hit : (looked_up cache touch pc (some old)).1 ≡ some (touch old) = rw current refl in
        absurd (cc)
    | inr stale ↦
        rw stale (λ block found same.
          let it : old ≡ block = cc in absurd (ground (arith, same, stale, it)))
  ]

  pub get_and_touch-IsMissed :
      (get_and_touch cache pc).1 ≡ none → IsMissed (get_and_touch cache pc).0 pc
  unfolding get_and_touch
  get_and_touch-IsMissed = looked_up-IsMissed (find pc cache.blocks) refl

length-put :
    (pc : ℕ) (block old : Block) (blocks : Blocks)
    → find pc blocks ≡ some old
    → length (put pc block blocks) ≡ length blocks
unfolding find put
length-put pc block old [] e = absurd (cc)
length-put pc block old ((key, other) ∷ rest) e = elim (Bool-cases (key == pc)) [
  | inl same ↦ rw same refl
  | inr differs ↦ rw differs (ap suc (length-put pc block old rest (sym (rw differs refl) ∙ e)))
]

module _ (pc : ℕ) (block : Block) (cache : BlockCache) where
  looked_up-IsFound :
      (at : ℕ) (r : Option Block)
      → find at cache.blocks ≡ r
      → IsFound pc block cache
      → IsFound pc block (looked_up cache touch at r).0
        × (length (looked_up cache touch at r).0.blocks ≡ length cache.blocks)
  unfolding looked_up
  looked_up-IsFound at none e found = (found, refl)
  looked_up-IsFound at (some old) e (n, here, current) =
      elim (Bool-cases (old.generation == cache.generation)) [
        | inr stale ↦ rw stale ((n, here, current), refl)
        | inl fresh ↦ rw fresh (
            rw (find-put pc at (touch old) cache.blocks) (elim (Bool-cases (at == pc)) [
              | inr differs ↦
                  rw differs ((n, here, current), length-put at (touch old) old cache.blocks e)
              | inl same ↦
                  let it : old ≡ record block { exec_count = n } =
                    let alike : at ≡ pc = (==_iff at pc).0 same in cc in
                  rw same (
                    ((
                      (touch (record block { exec_count = n })).exec_count,
                      ap (λ b. some (touch b)) it,
                      current,
                    )),
                    length-put at (touch old) old cache.blocks e,
                  )
            ]))
      ]

  pub get_and_touch-IsFound :
      (at : ℕ)
      → IsFound pc block cache
      → IsFound pc block (get_and_touch cache at).0
        × (length (get_and_touch cache at).0.blocks ≡ length cache.blocks)
  unfolding get_and_touch
  get_and_touch-IsFound at found = looked_up-IsFound at (find at cache.blocks) refl found

  pub insert-IsFound :
      (other : Block)
      → length cache.blocks < block_cache_size
      → IsMissed cache other.start_pc
      → IsFound pc block cache
      → IsFound pc block (insert cache other)
  unfolding insert
  insert-IsFound other room missed (n, at, current) =
      let small : leb block_cache_size (length cache.blocks) ≡ false = ground (arith, room) in
      rw small (
        rw (find-put pc other.start_pc other cache.blocks)
          (elim (Bool-cases (other.start_pc == pc)) [
            | inl same ↦ absurd (
                missed (record block { exec_count = n })
                  (subst (λ a. find a cache.blocks ≡ some (record block { exec_count = n }))
                    (sym ((==_iff other.start_pc pc).0 same)) at)
                  current)
            | inr differs ↦ rw differs (n, at, current)
          ]))
