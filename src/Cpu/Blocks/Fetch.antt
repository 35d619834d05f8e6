-- ===== src/Cpu/Blocks/Fetch.antt =====
-- riscv-vm/src/engine/block.rs: a fetch gives an instruction of 2 or 4 bytes, at an even address.
use bavy.Prelude.{ℕ, ◌%◌, ◌≤◌, ◌≡◌, arith, ◌==◌, bit_and, Bool-cases, inl, inr, Result, ok, err}
use bavy.Cpu.Types.{Trap}
use bavy.Cpu.State.{Cpu}
use bavy.Bus.{Bus}
use bavy.Mmu.Tlb
use bavy.Engine.Compressed.{expand_compressed}
use bavy.Cpu.Execute.Monad.{Exec, bind, after}
use bavy.Cpu.Blocks.Micro.{translate_addr_for_block}
use bavy.Engine.Block.Compile.{
  with_length, expanded_insn, read_half, fetch_insn_halves, fetched_insn, fetch_insn_word,
  fetch_insn,
}

-- What a fetch gives, if it gives a word.
abbrev pub IsLen : Result (ℕ × ℕ) Trap → Type 0
IsLen (ok (raw, insn_len)) = (insn_len % 2 ≡ 0) × (insn_len ≤ 4)
IsLen (err t) = Unit

module _ (bus : Bus) where
  abbrev Yields : Exec bus (ℕ × ℕ) → Type 0
  Yields x = (c : Cpu) (m : bus.State) → IsLen ((x c m).2)

  bind-Yields :
      {A : Type 0} (x : Exec bus A) (f : A → Exec bus (ℕ × ℕ))
      → ((a : A) → Yields (f a))
      → Yields (bind bus x f)
  unfolding bind
  bind-Yields {A} x f h c m = go (x c m)
    where
      go : (t : Cpu × bus.State × Result A Trap) → IsLen ((after bus f t).2)
      go (c', m', ok a) = h a c' m'
      go (c', m', err t) = tt

  with_length-Yields : (r : Result ℕ Trap) → Yields (with_length bus r)
  unfolding with_length
  with_length-Yields (ok v) c m = (omega arith, omega arith)
  with_length-Yields (err t) c m = tt

  expanded_insn-Yields : (half : ℕ) → Yields (expanded_insn bus half)
  unfolding expanded_insn
  expanded_insn-Yields half = with_length-Yields (expand_compressed half)

  fetch_insn_halves-Yields : (pc pa : ℕ) → Yields (fetch_insn_halves bus pc pa)
  unfolding fetch_insn_halves
  fetch_insn_halves-Yields pc pa = bind-Yields (read_half bus pc pa) _ (λ half.
      elim (Bool-cases (bit_and half 0x3 == 0x3)) [
        | inl e ↦ rw e (
            bind-Yields _ _ (λ pa_hi.
              bind-Yields (read_half bus pc pa_hi) _ (λ hi c m. (omega arith, omega arith))))
        | inr e ↦ rw e (expanded_insn-Yields half)
      ])

  fetched_insn-Yields : (r : Result ℕ Trap) (pc pa : ℕ) → Yields (fetched_insn bus r pc pa)
  unfolding fetched_insn
  fetched_insn-Yields (err e) pc pa = fetch_insn_halves-Yields pc pa
  fetched_insn-Yields (ok word) pc pa = elim (Bool-cases (bit_and word 0x3 == 0x3)) [
    | inl e ↦ rw e (λ c m. (omega arith, omega arith))
    | inr e ↦ rw e (expanded_insn-Yields (bit_and word 0xFFFF))
  ]

  pub fetch_insn-IsLen : (pc : ℕ) (c : Cpu) (m : bus.State) → IsLen ((fetch_insn bus pc c m).2)
  unfolding fetch_insn fetch_insn_word
  fetch_insn-IsLen pc c m = elim (Bool-cases (pc % 2 == 0)) [
    | inr odd ↦ rw odd tt
    | inl even ↦ rw even (
        bind-Yields (translate_addr_for_block bus pc Tlb.instruction) _
          (λ pa. elim (Bool-cases (pc % 4 == 0)) [
            | inl e ↦ rw e (λ c' m'.
                fetched_insn-Yields ((bus.load m' pa 4).1) pc pa c' ((bus.load m' pa 4).0))
            | inr e ↦ rw e (fetch_insn_halves-Yields pc pa)
          ])
          c m)
  ]

  -- At an odd address there is no instruction.
  pub fetch_insn_odd :
      (pc : ℕ) (c : Cpu) (m : bus.State) (v : ℕ × ℕ) → (fetch_insn bus pc c m).2 ≡ ok v → pc % 2 ≡ 0
  unfolding fetch_insn
  fetch_insn_odd pc c m v h = elim (Bool-cases (pc % 2 == 0)) [
    | inl even ↦ ground (arith, even)
    | inr odd ↦ absurd (ground (arith, h, odd))
  ]
