-- ===== src/Cpu/Blocks/Compiling.antt =====
-- riscv-vm/src/engine/block.rs: the compiler's loop ends.
use bavy.Prelude.{
  ℕ, zero, suc, ◌+◌, ◌%◌, ◌^◌, ◌<◌, ◌≤◌, ◌≡◌, inl, inr, refl, arith, ltb, Bool-cases, Option, some,
  Result, ok, err, List, [], length,
}
use bavy.Cpu.Types.{Trap}
use bavy.Cpu.State.{Cpu}
use bavy.Bus.{Bus}
use bavy.Mmu.Tlb
use bavy.Engine.Decoder.{Op, decode}
use bavy.Engine.Microop.{is_terminator}
use bavy.Engine.Block.{Block, CompileResult, new, push, is_full}
use bavy.Engine.Block.Transcode.{transcode}
use bavy.Engine.Block.Compile.{
  fetch_insn, next_page, jal_target, pushed, compile_decoded, compile_fetched, compile_loop,
  compile_from, compile, Round, max_rounds,
}
use bavy.Cpu.Blocks.Micro.{translate_addr_for_block}
use bavy.Cpu.Blocks.Reference.{Insn, IsFetched, transcode_all}
use bavy.Cpu.Blocks.Compiled.{
  IsPart, Ends, length-ops, returned-IsCompiled, partial-Ends, grown, grown-IsCompiled,
  grown-IsPart,
}
use bavy.Cpu.Blocks.Grow.{add, length-add}
use bavy.Cpu.Blocks.Reads.{Reads, IsRead, Reads-add}
use bavy.Cpu.Blocks.Fetch.{IsLen, fetch_insn-IsLen, fetch_insn_odd}

module _ (bus : Bus) (start_pc : ℕ) (c0 : Cpu) (m0 : bus.State) where
  -- A block that ends the compilation holds what was read from `start_pc` on.
  abbrev EndsRead : ℕ → Option CompileResult → Type 0
  EndsRead = Ends (IsRead bus start_pc c0 m0)

  -- A loop that ends from every block of at least `left` instructions.
  abbrev RoundEnds : Round bus → ℕ → Type 0
  RoundEnds round left =
      (block : Block) (pc pc_offset : ℕ) (insns : List Insn) (c : Cpu) (m : bus.State)
      → IsPart block pc pc_offset insns
      → Reads bus insns start_pc c0 m0 pc c m
      → left ≤ length insns
      → EndsRead block.start_pc ((round block pc pc_offset c m).2)

  module _ (round : Round bus) (left : ℕ) (ends : RoundEnds round (suc left)) (block : Block)
      (pc pc_offset : ℕ) (insns : List Insn) (h : IsPart block pc pc_offset insns)
      (enough : left ≤ length insns) where
    pushed-Ends :
        (i : Insn) (c : Cpu) (m : bus.State)
        → IsFetched i
        → pc % 2 ≡ 0
        → IsRead bus start_pc c0 m0 insns
        → Reads bus (add i insns) start_pc c0 m0 ((pc + i.insn_len) % 2 ^ 64) c m
        → EndsRead block.start_pc (
            (pushed bus round i.decoded i.insn_len block
              (push block (transcode i.decoded pc_offset i.insn_len) i.insn_len)
              pc
              pc_offset
              c
              m).2)
    unfolding push is_full pushed
    pushed-Ends i c m fetched even old read = elim (Bool-cases (ltb (length block.ops) 64)) [
      | inr full ↦ rw full (
        refl,
        (
          insns,
          returned-IsCompiled block pc pc_offset insns (some pc) h
              (ground (arith, full, length-ops h)),
          old,
        ),
      )
      | inl space ↦
          let room : length insns < 64 = ground (arith, space, length-ops h) in
          let read_all : IsRead bus start_pc c0 m0 (add i insns) = (_, _, _, read) in
          rw space (elim (Bool-cases (is_terminator (transcode i.decoded pc_offset i.insn_len))) [
            | inl ends_here ↦ rw ends_here (
              refl,
              (
                add i insns,
                grown-IsCompiled block pc pc_offset insns h i fetched even room
                    (jal_target i.decoded pc),
                read_all,
              ),
            )
            | inr goes_on ↦
                rw goes_on
                  (elim (Bool-cases (ltb ((pc + i.insn_len) % 2 ^ 64) (next_page block.start_pc))) [
                    | inr crossed ↦ rw crossed (
                      refl,
                      (
                        add i insns,
                        grown-IsCompiled block pc pc_offset insns h i fetched even room
                            (some ((pc + i.insn_len) % 2 ^ 64)),
                        read_all,
                      ),
                    )
                    | inl inside ↦ rw inside (
                        ends (grown block pc pc_offset insns h i fetched even room) _ _
                          (add i insns) c m
                          (grown-IsPart block pc pc_offset insns h i fetched even room goes_on) read
                          (omega (arith, length-add i insns, enough)))
                  ])
          ])
    ]

    compile_fetched-Ends :
        (c : Cpu) (m : bus.State)
        → Reads bus insns start_pc c0 m0 pc c m
        → (f : Cpu × bus.State × Result (ℕ × ℕ) Trap) → fetch_insn bus pc c m ≡ f
        → IsLen f.2
        → ((v : ℕ × ℕ) → f.2 ≡ ok v → pc % 2 ≡ 0)
        → EndsRead block.start_pc ((compile_fetched bus round block pc pc_offset f).2)
    unfolding compile_fetched
    compile_fetched-Ends c m read (d, n, err t) from len even =
        partial-Ends (IsRead bus start_pc c0 m0) block pc pc_offset insns t h (pc, c, m, read)
    compile_fetched-Ends c m read (d, n, ok (raw, insn_len)) from len even = go (decode raw) refl
      where
        go :
            (r : Result Op Trap)
            → decode raw ≡ r
            → EndsRead block.start_pc
                ((compile_decoded bus round r insn_len block pc pc_offset d n).2)
        go (err t) e =
            unfold compile_decoded in
            partial-Ends (IsRead bus start_pc c0 m0) block pc pc_offset insns t h (pc, c, m, read)
        go (ok decoded) e =
            let i : Insn = record { raw = raw; insn_len = insn_len; decoded = decoded } in
            unfold compile_decoded in
            pushed-Ends i d n (record { decodes = e; even = len.0; short = len.1 })
              (even (raw, insn_len) refl) (pc, c, m, read)
              (Reads-add bus i insns start_pc pc c0 c d m0 m n read from)

  compile_loop-Ends :
      (rounds left : ℕ) → left + rounds ≡ 65 → RoundEnds (compile_loop bus rounds) left
  unfolding compile_loop
  compile_loop-Ends zero left e block pc pc_offset insns c m h read enough =
      absurd (omega (arith, h.count))
  compile_loop-Ends (suc rounds) left e block pc pc_offset insns c m h read enough =
      compile_fetched-Ends (compile_loop bus rounds) left
        (compile_loop-Ends rounds (suc left) (omega arith)) block pc pc_offset insns h enough c m
        read (fetch_insn bus pc c m) refl (fetch_insn-IsLen bus pc c m) (fetch_insn_odd bus pc c m)

module _ (bus : Bus) where
  compile_from-Ends :
      (start_pc generation : ℕ)
      → (f : Cpu × bus.State × Result ℕ Trap)
      → Ends (IsRead bus start_pc f.0 f.1) start_pc ((compile_from bus start_pc generation f).2)
  unfolding compile_from new transcode_all
  compile_from-Ends start_pc generation (c, m, err t) = tt
  compile_from-Ends start_pc generation (c, m, ok start_pa) =
      compile_loop-Ends bus start_pc c m max_rounds 0 refl (new start_pc start_pa generation)
        start_pc 0 [] c m
        (record {
          ops = refl;
          fetched = tt;
          open_end = tt;
          offset = refl;
          bytes = refl;
          here = omega arith;
          count = omega arith;
          even = inl refl;
        })
        (refl, refl, refl) (omega arith)

  -- The hart and the memory after the translation of the address that the compiler starts from.
  abbrev pub compile_start : ℕ → Cpu → bus.State → Cpu × bus.State × Result ℕ Trap
  compile_start start_pc = translate_addr_for_block bus start_pc Tlb.instruction

  -- The block compiler always ends within its rounds: with a trap, or with a block at the address that
  -- was asked for, which is even. The block is compiled from the instructions, 1 to 64 of them, that
  -- the fetches read from there on, each behind the one before: its operations are what their
  -- decodings are transcoded to, each at its offset; only the last can end a block; and its length in
  -- bytes is the sum of theirs.
  pub compile-Ends :
      (start_pc generation : ℕ) (c : Cpu) (m : bus.State)
      → Ends
          (IsRead bus start_pc ((compile_start start_pc c m).0) ((compile_start start_pc c m).1))
          start_pc
          ((compile bus start_pc generation c m).2)
  unfolding compile
  compile-Ends start_pc generation c m =
      compile_from-Ends start_pc generation (compile_start start_pc c m)
