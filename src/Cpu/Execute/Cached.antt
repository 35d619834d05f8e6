-- ===== src/Cpu/Execute/Cached.antt =====
-- riscv-vm/src/cpu/core.rs, execution.rs: decoding through the cache is decoding.
use bavy.Prelude.{
  ℕ, ◌<◌, ◌≡◌, refl, sym, ◌∙◌, ap, arith, bit_and, Option, none, some, Option-cases, inl, inr,
  Result, ok, err, get_or, length, length-set, get_or-set, length-replicate, get_or-replicate,
}
use bavy.Prelude.Bits.{bit_and_mask}
use bavy.Bus.{Bus}
use bavy.Cpu.Types.{Trap}
use bavy.Engine.Decoder.{Op, decode}
use bavy.Cpu.State.{
  Cpu, DecodeCacheEntry, hits, decode_cache_lookup, decode_cache_insert, invalidate_decode_cache,
  decode_cache_size, decode_cache_mask,
}
use bavy.Cpu.Trap.{handle_trap}
use bavy.Cpu.Trap.Entry.{decode_cache-handle_trap}
use bavy.Cpu.Execute.Step.{decode_miss, decode_hit, decode_cached}

-- Every entry of the cache holds what its word decodes to.
pub record IsCached (c : Cpu) : Type 0 where
  pub full : length c.decode_cache ≡ decode_cache_size
  pub true_to_word :
      (i pc raw : ℕ) (decoded : Op)
      → get_or c.decode_cache i none ≡ some (pc, raw, decoded)
      → decode raw ≡ ok decoded

decode_cache_lookup-decode :
    (c : Cpu) (pc raw : ℕ) (decoded : Op)
    → IsCached c
    → decode_cache_lookup c pc raw ≡ some decoded
    → decode raw ≡ ok decoded
unfolding decode_cache_lookup hits
decode_cache_lookup-decode c pc raw decoded h found =
    elim (Option-cases (get_or c.decode_cache (bit_and pc decode_cache_mask) none)) [
      | inl nothing ↦ absurd (ground (arith, nothing))
      | inr ((cached_pc, cached_raw, cached), e) ↦
          let known = h.true_to_word (bit_and pc decode_cache_mask) cached_pc cached_raw cached e in
          ground (arith, e, known)
    ]

pub decode_cache_insert-IsCached :
    (c : Cpu) (pc raw : ℕ) (decoded : Op)
    → IsCached c
    → decode raw ≡ ok decoded
    → IsCached (decode_cache_insert c pc raw decoded)
unfolding decode_cache_insert
decode_cache_insert-IsCached c pc raw decoded h known =
    let idx = bit_and pc decode_cache_mask in
    let inside : idx < length c.decode_cache = rw (bit_and_mask 8 pc, h.full) (omega arith) in
    record {
      full = length-set c.decode_cache idx (some (pc, raw, decoded)) ∙ h.full;
      true_to_word = λ i p r d e.
          let after = get_or-set c.decode_cache idx i (some (pc, raw, decoded)) none inside in
          let before = h.true_to_word i p r d in ground (arith, after, before);
    }

pub invalidate_decode_cache-IsCached : (c : Cpu) → IsCached (invalidate_decode_cache c)
unfolding invalidate_decode_cache
invalidate_decode_cache-IsCached c = record {
  full = length-replicate decode_cache_size none;
  true_to_word = λ i p r d e.
      let blank : Option DecodeCacheEntry = none in
      absurd (ground (arith, get_or-replicate decode_cache_size i blank));
}

pub handle_trap-IsCached :
    (c : Cpu) (trap : Trap) (pc : ℕ) → IsCached c → IsCached (handle_trap c trap pc)
handle_trap-IsCached c trap pc h =
    let same = decode_cache-handle_trap c trap pc in
    record {
      full = ap length same ∙ h.full;
      true_to_word =
          λ i p r d e. h.true_to_word i p r d (ap (λ cache. get_or cache i none) (sym same) ∙ e);
    }

module _ (bus : Bus) (c : Cpu) (m : bus.State) (pc raw : ℕ) (h : IsCached c) where
  abbrev Decoded : Cpu × bus.State × Result Op Trap → Type 0
  Decoded (c', m', r) = (r ≡ decode raw) × (m' ≡ m) × IsCached c'

  decode_miss-Decoded :
      (r : Result Op Trap) → decode raw ≡ r → Decoded (decode_miss bus r pc raw c m)
  unfolding decode_miss
  decode_miss-Decoded (ok decoded) e =
      (sym e, refl, decode_cache_insert-IsCached c pc raw decoded h e)
  decode_miss-Decoded (err t) e = (sym e, refl, handle_trap-IsCached c t pc h)

  decode_hit-Decoded :
      (o : Option Op) → decode_cache_lookup c pc raw ≡ o → Decoded (decode_hit bus o pc raw c m)
  unfolding decode_hit
  decode_hit-Decoded none e = decode_miss-Decoded (decode raw) refl
  decode_hit-Decoded (some decoded) e =
      (sym (decode_cache_lookup-decode c pc raw decoded h e), refl, h)

-- From a cache whose entries hold what their words decode to, decoding through the cache gives
-- what the decoder gives, the instruction or the trap; it leaves the bus alone; and the cache is
-- again such a cache, also when a trap was entered.
pub decode_cached-decode :
    (bus : Bus) (c : Cpu) (m : bus.State) (pc raw : ℕ)
    → IsCached c
    → ((decode_cached bus pc raw c m).2 ≡ decode raw)
      × ((decode_cached bus pc raw c m).1 ≡ m)
      × IsCached ((decode_cached bus pc raw c m).0)
unfolding decode_cached
decode_cached-decode bus c m pc raw h =
    decode_hit-Decoded bus c m pc raw h (decode_cache_lookup c pc raw) refl
