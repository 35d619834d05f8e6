-- ===== src/Cpu/Blocks/Reads.antt =====
-- riscv-vm/src/engine/block.rs: the words that `fetch_insn` reads one after the other.
use bavy.Prelude.{ℕ, ◌+◌, ◌%◌, ◌^◌, ◌≡◌, refl, ap, ok, List, [], ◌∷◌}
use bavy.Cpu.State.{Cpu}
use bavy.Bus.{Bus}
use bavy.Engine.Block.Compile.{fetch_insn}
use bavy.Cpu.Blocks.Reference.{Insn}
use bavy.Cpu.Blocks.Grow.{add}

module _ (bus : Bus) where
  -- From `pc`, the fetches give these instructions, each behind the one before, and end at `pc'`.
  abbrev pub Reads : List Insn → ℕ → Cpu → bus.State → ℕ → Cpu → bus.State → Type 0
  Reads [] pc c m pc' c' m' = (pc ≡ pc') × (c ≡ c') × (m ≡ m')
  Reads (i ∷ is) pc c m pc' c' m' =
      (d : Cpu) × (n : bus.State) × (fetch_insn bus pc c m ≡ (d, n, ok (i.raw, i.insn_len)))
      × Reads is ((pc + i.insn_len) % 2 ^ 64) d n pc' c' m'

  -- The instructions in memory from `pc` on.
  abbrev pub IsRead : ℕ → Cpu → bus.State → List Insn → Type 0
  IsRead pc c m insns = (pc' : ℕ) × (c' : Cpu) × (m' : bus.State) × Reads insns pc c m pc' c' m'

  pub Reads-add :
      (i : Insn) (is : List Insn) (pc pc' : ℕ) (c c' d : Cpu) (m m' n : bus.State)
      → Reads is pc c m pc' c' m'
      → fetch_insn bus pc' c' m' ≡ (d, n, ok (i.raw, i.insn_len))
      → Reads (add i is) pc c m ((pc' + i.insn_len) % 2 ^ 64) d n
  Reads-add i [] pc pc' c c' d m m' n h f =
      (d, n, rw (h.0, h.1, h.2) f, (ap (λ p. (p + i.insn_len) % 2 ^ 64) h.0, refl, refl))
  Reads-add i (j ∷ js) pc pc' c c' d m m' n (e, k, g, h) f =
      (e, k, g, Reads-add i js ((pc + j.insn_len) % 2 ^ 64) pc' e c' d k m' n h f)
