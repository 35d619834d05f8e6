-- ===== src/Engine/Tests.antt =====
-- The theorems on the decoder at concrete inputs.
use bavy.Prelude.{◌≡◌, arith, and_then}
use bavy.Engine.Decoder.{decode}
use bavy.Engine.Decoder.Fields.{field}
use bavy.Engine.Decoder.Assemble.{instruction_of, fields_of, decode-fields_of}
use bavy.Engine.Compressed.{expand_compressed}
use bavy.Engine.Expansion.{meaning}
use bavy.Engine.Expansion.Table.{IsSrai, decode-expand_compressed}

-- lui x2, 0x12345.
decode-fields_of_example : decode 0x12345137 ≡ instruction_of (fields_of 0x12345137)
decode-fields_of_example = decode-fields_of 0x12345137 (omega arith)

-- c.lw a2, 0(a0), of quadrant 0.
not_srai : IsSrai 0x4110 → ⊥
not_srai h = absurd (omega (arith, h.quadrant))

decode-expand_compressed_example :
    and_then (expand_compressed 0x4110) decode ≡ meaning 0x4110 (field 0 2 0x4110)
decode-expand_compressed_example = decode-expand_compressed 0x4110 not_srai
