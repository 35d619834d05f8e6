-- ===== src/Cpu/Blocks/Compiled.antt =====
-- riscv-vm/src/engine/block.rs: the compiler ends, and what its blocks hold.
use bavy.Prelude.{
  ℕ, ◌+◌, ◌%◌, ◌^◌, ◌<◌, ◌≤◌, ◌≡◌, ◌⊎◌, inl, inr, refl, sym, ap, ◌∙◌, arith, ltb, false, Bool-cases,
  Option, none, some, List, [], ◌∷◌, ◌++◌, length, ltb→lt,
}
use bavy.Cpu.Types.{Trap}
use bavy.Engine.Microop.{is_terminator}
use bavy.Engine.Block
use bavy.Engine.Block.{Block, CompileResult, new, push, is_full}
use bavy.Engine.Block.Transcode.{transcode}
use bavy.Engine.Block.Compile.{partial}
use bavy.Cpu.Blocks.Reference.{Insn, IsFetched, AllFetched, total_len, transcode_all, IsStraight}
use bavy.Cpu.Blocks.Grow.{
  IsOpen, IsOpen-IsStraight, add, transcode_all-add, total_len-add, length-add, AllFetched-add,
  IsStraight-add, IsOpen-add, length-transcode_all, total_len-le,
}

-- A block is compiled from instructions.
pub record IsCompiled (block : Block) (insns : List Insn) : Type 0 where
  pub ops : block.ops ≡ transcode_all 0 insns
  pub fetched : AllFetched insns
  pub straight : IsStraight 0 insns
  pub bytes : block.byte_len ≡ total_len insns
  pub nonempty : 0 < length insns
  pub count : length insns ≤ 64
  pub even : block.start_pc % 2 ≡ 0

-- The compiler ends, with a block at the address that was asked for or with a trap; the block's
-- instructions are of a kind.
abbrev pub Ends : (List Insn → Type 0) → ℕ → Option CompileResult → Type 0
Ends P start_pc none = ⊥
Ends P start_pc (some (Block.ok block)) =
    (block.start_pc ≡ start_pc) × ((insns : List Insn) × IsCompiled block insns × P insns)
Ends P start_pc (some (Block.trap t)) = Unit
Ends P start_pc (some Block.unsuitable) = ⊥

-- A block in the making, before the instruction at `pc`.
pub record IsPart (block : Block) (pc pc_offset : ℕ) (insns : List Insn) : Type 0 where
  pub ops : block.ops ≡ transcode_all 0 insns
  pub fetched : AllFetched insns
  pub open_end : IsOpen 0 insns
  pub offset : pc_offset ≡ total_len insns
  pub bytes : block.byte_len ≡ total_len insns
  pub here : pc % 2 ^ 64 ≡ (block.start_pc + total_len insns) % 2 ^ 64
  pub count : length insns ≤ 64
  pub even : (insns ≡ []) ⊎ (block.start_pc % 2 ≡ 0)

pub length-ops :
    {block : Block} {pc pc_offset : ℕ} {insns : List Insn}
    → IsPart block pc pc_offset insns
    → length block.ops ≡ length insns
length-ops {insns = insns} h = ap length h.ops ∙ length-transcode_all 0 insns

-- A block that is returned as it is.
pub returned-IsCompiled :
    (block : Block) (pc pc_offset : ℕ) (insns : List Insn) (next : Option ℕ)
    → IsPart block pc pc_offset insns
    → 0 < length insns
    → IsCompiled (record block { next_block_pc = next }) insns
returned-IsCompiled block pc pc_offset insns next h some_insn = record {
  ops = h.ops;
  fetched = h.fetched;
  straight = IsOpen-IsStraight 0 insns h.open_end;
  bytes = h.bytes;
  nonempty = some_insn;
  count = h.count;
  even = elim h.even [ inl empty ↦ absurd (ground (arith, empty, some_insn)) | inr e ↦ e ];
}

pub partial-Ends :
    (P : List Insn → Type 0) (block : Block) (pc pc_offset : ℕ) (insns : List Insn) (t : Trap)
    → IsPart block pc pc_offset insns
    → P insns
    → Ends P block.start_pc (some (partial block t))
unfolding partial
partial-Ends P block pc pc_offset insns t h kind = elim (Bool-cases (ltb 0 (length block.ops))) [
  | inl e ↦ rw e (
    refl,
    (
      insns,
      returned-IsCompiled block pc pc_offset insns block.next_block_pc h
          (rw (← length-ops h) (ltb→lt 0 (length block.ops) e)),
      kind,
    ),
  )
  | inr e ↦ rw e tt
]

-- One more operation.
module _ (block : Block) (pc pc_offset : ℕ) (insns : List Insn)
    (h : IsPart block pc pc_offset insns) (i : Insn) (fetched : IsFetched i) (even : pc % 2 ≡ 0)
    (room : length insns < 64) where
  abbrev pub grown : Block
  grown = record block {
    ops = block.ops ++ transcode i.decoded pc_offset i.insn_len ∷ [];
    byte_len = (block.byte_len + i.insn_len) % 2 ^ 16;
  }

  start_even : block.start_pc % 2 ≡ 0
  start_even = elim h.even [
    | inl empty ↦
        let none_yet : total_len insns ≡ 0 = rw empty refl in omega (arith, h.here, even, none_yet)
    | inr e ↦ e
  ]

  grown-ops : grown.ops ≡ transcode_all 0 (add i insns)
  grown-ops =
      ap (λ n. block.ops ++ transcode i.decoded n i.insn_len ∷ []) (h.offset)
      ∙ ap (λ xs. xs ++ transcode i.decoded (total_len insns) i.insn_len ∷ []) h.ops
      ∙ ap (λ n. transcode_all 0 insns ++ transcode i.decoded n i.insn_len ∷ []) (omega arith)
      ∙ sym (transcode_all-add i 0 insns)

  grown-bytes : grown.byte_len ≡ total_len (add i insns)
  grown-bytes =
      omega
        (arith, h.bytes, total_len-add i insns, total_len-le insns h.fetched, fetched.short, room)

  pub grown-IsCompiled :
      (next : Option ℕ) → IsCompiled (record grown { next_block_pc = next }) (add i insns)
  grown-IsCompiled next = record {
    ops = grown-ops;
    fetched = AllFetched-add i insns h.fetched fetched;
    straight = IsStraight-add i 0 insns h.open_end;
    bytes = grown-bytes;
    nonempty = omega (arith, length-add i insns);
    count = omega (arith, length-add i insns, room);
    even = start_even;
  }

  pub grown-IsPart :
      is_terminator (transcode i.decoded pc_offset i.insn_len) ≡ false
      → IsPart grown ((pc + i.insn_len) % 2 ^ 64) ((pc_offset + i.insn_len) % 2 ^ 16) (add i insns)
  grown-IsPart goes_on = record {
    ops = grown-ops;
    fetched = AllFetched-add i insns h.fetched fetched;
    open_end = IsOpen-add i 0 insns h.open_end (
        ap (λ n. is_terminator (transcode i.decoded n i.insn_len)) (omega (arith, h.offset))
        ∙ goes_on);
    offset =
        omega (
          arith,
          h.offset,
          total_len-add i insns,
          total_len-le insns h.fetched,
          fetched.short,
          room,
        );
    bytes = grown-bytes;
    here = omega (arith, h.here, total_len-add i insns);
    count = omega (arith, length-add i insns, room);
    even = inr start_even;
  }
