-- ===== src/Cpu/Blocks/Grow.antt =====
-- riscv-vm/src/engine/block.rs: the instructions of a block that grows at its end.
use bavy.Prelude.{
  ℕ, suc, ◌+◌, ◌*◌, ◌≤◌, ◌≡◌, inl, inr, refl, ap, ◌∙◌, arith, false, List, [], ◌∷◌, ◌++◌, length,
}
use bavy.Engine.Microop.{is_terminator}
use bavy.Engine.Block.Transcode.{transcode}
use bavy.Cpu.Blocks.Reference.{Insn, IsFetched, AllFetched, total_len, transcode_all, IsStraight}

-- No operation of the block ends it.
abbrev pub IsOpen : ℕ → List Insn → Type 0
IsOpen pc_offset [] = Unit
IsOpen pc_offset (i ∷ is) =
    (is_terminator (transcode i.decoded pc_offset i.insn_len) ≡ false)
    × IsOpen (pc_offset + i.insn_len) is

pub IsOpen-IsStraight :
    (pc_offset : ℕ) (is : List Insn) → IsOpen pc_offset is → IsStraight pc_offset is
IsOpen-IsStraight pc_offset [] h = tt
IsOpen-IsStraight pc_offset (i ∷ is) h =
    (inr h.0, IsOpen-IsStraight (pc_offset + i.insn_len) is h.1)

module _ (i : Insn) where
  abbrev pub add : List Insn → List Insn
  add is = is ++ i ∷ []

  pub transcode_all-add :
      (pc_offset : ℕ) (is : List Insn)
      → transcode_all pc_offset (add is)
        ≡ transcode_all pc_offset is
          ++ transcode i.decoded (pc_offset + total_len is) i.insn_len ∷ []
  unfolding transcode_all
  transcode_all-add pc_offset [] = ap (λ n. transcode i.decoded n i.insn_len ∷ []) (omega arith)
  transcode_all-add pc_offset (j ∷ js) =
      let same : pc_offset + j.insn_len + total_len js ≡ pc_offset + (j.insn_len + total_len js) =
        omega arith in
      ap (λ xs. transcode j.decoded pc_offset j.insn_len ∷ xs)
        (transcode_all-add (pc_offset + j.insn_len) js
          ∙ ap
              (λ n.
                transcode_all (pc_offset + j.insn_len) js ++ transcode i.decoded n i.insn_len ∷ [])
              same)

  pub total_len-add : (is : List Insn) → total_len (add is) ≡ total_len is + i.insn_len
  total_len-add [] = omega arith
  total_len-add (j ∷ js) = omega (arith, total_len-add js)

  pub length-add : (is : List Insn) → length (add is) ≡ length is + 1
  length-add [] = refl
  length-add (j ∷ js) = omega (arith, length-add js)

  pub AllFetched-add : (is : List Insn) → AllFetched is → IsFetched i → AllFetched (add is)
  AllFetched-add [] h f = (f, tt)
  AllFetched-add (j ∷ js) h f = (h.0, AllFetched-add js h.1 f)

  pub IsStraight-add :
      (pc_offset : ℕ) (is : List Insn) → IsOpen pc_offset is → IsStraight pc_offset (add is)
  IsStraight-add pc_offset [] h = (inl refl, tt)
  IsStraight-add pc_offset (j ∷ js) h = (inr h.0, IsStraight-add (pc_offset + j.insn_len) js h.1)

  pub IsOpen-add :
      (pc_offset : ℕ) (is : List Insn)
      → IsOpen pc_offset is
      → is_terminator (transcode i.decoded (pc_offset + total_len is) i.insn_len) ≡ false
      → IsOpen pc_offset (add is)
  IsOpen-add pc_offset [] h goes_on =
      (ap (λ n. is_terminator (transcode i.decoded n i.insn_len)) (omega arith) ∙ goes_on, tt)
  IsOpen-add pc_offset (j ∷ js) h goes_on =
      let same : pc_offset + j.insn_len + total_len js ≡ pc_offset + (j.insn_len + total_len js) =
        omega arith in
      (
        h.0,
        IsOpen-add (pc_offset + j.insn_len) js h.1
            (ap (λ n. is_terminator (transcode i.decoded n i.insn_len)) same ∙ goes_on),
      )

pub length-transcode_all :
    (pc_offset : ℕ) (is : List Insn) → length (transcode_all pc_offset is) ≡ length is
unfolding transcode_all
length-transcode_all pc_offset [] = refl
length-transcode_all pc_offset (i ∷ is) = ap suc (length-transcode_all (pc_offset + i.insn_len) is)

pub total_len-le : (is : List Insn) → AllFetched is → total_len is ≤ 4 * length is
total_len-le [] h = omega arith
total_len-le (i ∷ is) h = omega (arith, h.0.short, total_len-le is h.1)
