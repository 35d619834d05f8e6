-- ===== src/Cpu/Blocks/Words.antt =====
-- riscv-vm/src/cpu/core.rs: the results of the 32-bit multiplications and divisions in a block,
-- which divide i32 where the interpreter divides i64.
use bavy.Prelude.{ℕ, ◌-◌, ◌*◌, ◌/◌, ◌%◌, ◌^◌, Bool, not, ◌&&◌, ◌==◌, ltb, if◌then◌else◌}
use bavy.Engine.Decoder.{extend32}
use bavy.Cpu.Execute.Alu.{low32}

abbrev pub negative32 : ℕ → Bool
negative32 a = not (ltb a (2 ^ 31))

abbrev pub negate32 : ℕ → ℕ
negate32 a = (2 ^ 32 - a) % 2 ^ 32

abbrev pub magnitude32 : ℕ → ℕ
magnitude32 a = if negative32 a then 2 ^ 32 - a else a

-- Rust's `a / b` and `a % b` on i32, for b other than 0 and a pair that does not overflow.
unfoldable pub div32 : ℕ → ℕ → ℕ
div32 a b =
    let q = magnitude32 a / magnitude32 b in
    if negative32 a
    then if negative32 b then q else negate32 q
    else if negative32 b
    then negate32 q
    else q

unfoldable pub rem32 : ℕ → ℕ → ℕ
rem32 a b = let r = magnitude32 a % magnitude32 b in if negative32 a then negate32 r else r

unfoldable pub micro_mulw : ℕ → ℕ → ℕ
micro_mulw v1 v2 =
    let a = extend32 (low32 v1) in let b = extend32 (low32 v2) in extend32 (low32 (a * b % 2 ^ 64))

unfoldable pub micro_divw : ℕ → ℕ → ℕ
micro_divw v1 v2 =
    let a = low32 v1 in
    let b = low32 v2 in
    if b == 0
    then 2 ^ 64 - 1
    else if (a == 2 ^ 31) && (b == 2 ^ 32 - 1)
    then extend32 (2 ^ 31)
    else extend32 (div32 a b)

unfoldable pub micro_divuw : ℕ → ℕ → ℕ
micro_divuw v1 v2 =
    let a = low32 v1 in
    let b = low32 v2 in if b == 0 then extend32 (2 ^ 32 - 1) else extend32 (a / b)

unfoldable pub micro_remw : ℕ → ℕ → ℕ
micro_remw v1 v2 =
    let a = low32 v1 in
    let b = low32 v2 in
    if b == 0
    then extend32 a
    else if (a == 2 ^ 31) && (b == 2 ^ 32 - 1)
    then 0
    else extend32 (rem32 a b)

unfoldable pub micro_remuw : ℕ → ℕ → ℕ
micro_remuw v1 v2 =
    let a = low32 v1 in let b = low32 v2 in if b == 0 then extend32 a else extend32 (a % b)
