-- ===== src/Cpu/Execute/Reserve.antt =====
-- riscv-vm/src/cpu/execution.rs: SC writes under a reservation, once.
use bavy.Prelude.{ℕ, ◌%◌, ◌≡◌, ◌∙◌, arith, Bool, if◌then◌else◌, none, some, Result, ok, err}
use bavy.Bus.{Bus}
use bavy.Mmu.Tlb
use bavy.Cpu.Types.{Trap}
use bavy.Cpu.State.{Cpu, read_reg, write_reg, reservation_granule}
use bavy.Cpu.Execute.Alu.{low32}
use bavy.Cpu.Execute.Monad.{bind, or_trap, write, translate_addr}
use bavy.Cpu.Execute.Atomic.{execute_amo, atomic_of, store_conditional, conditional_write, reserved}

-- The size of the access and the function code of SC.W and SC.D, and the value that is stored.
abbrev pub width : Bool → ℕ
width is_word = if is_word then 4 else 8

abbrev pub funct3_of : Bool → ℕ
funct3_of is_word = if is_word then 2 else 3

abbrev pub stored_value : Bool → ℕ → ℕ
stored_value is_word v = if is_word then low32 v else v

-- The hart after an SC that has stored.
abbrev pub released : Cpu → ℕ → Cpu
released c rd = record (write_reg c rd 0) { reservation = none }

module _ (bus : Bus) (pc raw rd rs1 rs2 pa : ℕ) (is_word : Bool) (c c1 : Cpu) (m m1 : bus.State)
    (aligned : read_reg c rs1 % width is_word ≡ 0)
    (translated : translate_addr bus (read_reg c rs1) Tlb.load pc c m ≡ (c1, m1, ok pa)) where
  execute_amo-reserved :
      (m2 : bus.State)
      → c1.reservation ≡ some (reservation_granule (read_reg c rs1))
      → bus.store m1 pa (width is_word) (stored_value is_word (read_reg c1 rs2)) ≡ (m2, ok tt)
      → execute_amo bus pc raw rd rs1 rs2 (funct3_of is_word) 0b00011 c m
        ≡ (released c1 rd, m2, ok tt)
  unfolding execute_amo atomic_of store_conditional conditional_write bind write or_trap reserved
  execute_amo-reserved m2 held stored = ground (arith, aligned, translated, held, stored)

  execute_amo-unreserved :
      c1.reservation ≡ none
      → execute_amo bus pc raw rd rs1 rs2 (funct3_of is_word) 0b00011 c m
        ≡ (write_reg c1 rd 1, m1, ok tt)
  unfolding execute_amo atomic_of store_conditional bind reserved
  execute_amo-unreserved free = ground (arith, aligned, translated, free)

or_trap-reservation :
    (bus : Bus) (r : Result ℕ Trap) (pc pa : ℕ) (c c1 : Cpu) (m m1 : bus.State)
    → or_trap bus r pc c m ≡ (c1, m1, ok pa)
    → c1.reservation ≡ c.reservation
unfolding or_trap
or_trap-reservation bus (ok a) pc pa c c1 m m1 h = ground arith
or_trap-reservation bus (err t) pc pa c c1 m m1 h = absurd (ground arith)

translate_addr-reservation :
    (bus : Bus) (addr pc pa : ℕ) (c c1 : Cpu) (m m1 : bus.State)
    → translate_addr bus addr Tlb.load pc c m ≡ (c1, m1, ok pa)
    → c1.reservation ≡ c.reservation
unfolding translate_addr
translate_addr-reservation bus addr pc pa c c1 m m1 h = or_trap-reservation bus _ pc pa _ c1 _ m1 h

module _ (bus : Bus) (pc raw rd rs1 rs2 pa : ℕ) (is_word : Bool) (c c1 : Cpu) (m m1 m2 : bus.State)
    (pc' raw' rd' rs1' rs2' pa' : ℕ) (is_word' : Bool) (d : Cpu) (n : bus.State) where
  -- SC stores once. An SC to an aligned address whose granule is reserved, which translates and whose
  -- store succeeds, stores the register's value in its width, writes 0 to rd and gives up the
  -- reservation. An SC right after it, to any aligned address that translates, writes 1 to its rd and
  -- leaves memory as its translation left it.
  pub execute_amo_once :
      read_reg c rs1 % width is_word ≡ 0
      → c.reservation ≡ some (reservation_granule (read_reg c rs1))
      → translate_addr bus (read_reg c rs1) Tlb.load pc c m ≡ (c1, m1, ok pa)
      → bus.store m1 pa (width is_word) (stored_value is_word (read_reg c1 rs2)) ≡ (m2, ok tt)
      → read_reg (released c1 rd) rs1' % width is_word' ≡ 0
      → translate_addr bus (read_reg (released c1 rd) rs1') Tlb.load pc' (released c1 rd) m2
        ≡ (d, n, ok pa')
      → (execute_amo bus pc raw rd rs1 rs2 (funct3_of is_word) 0b00011 c m
          ≡ (released c1 rd, m2, ok tt))
        × (execute_amo bus pc' raw' rd' rs1' rs2' (funct3_of is_word') 0b00011 (released c1 rd) m2
            ≡ (write_reg d rd' 1, n, ok tt))
  execute_amo_once aligned held translated stored aligned' translated' = (
    execute_amo-reserved bus pc raw rd rs1 rs2 pa is_word c c1 m m1 aligned translated m2
        (translate_addr-reservation bus (read_reg c rs1) pc pa c c1 m m1 translated ∙ held) stored,
    execute_amo-unreserved bus pc' raw' rd' rs1' rs2' pa' is_word' (released c1 rd) d m2 n aligned'
        translated' (translate_addr-reservation bus _ pc' pa' (released c1 rd) d m2 n translated'),
  )
