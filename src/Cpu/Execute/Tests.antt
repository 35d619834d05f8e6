-- ===== src/Cpu/Execute/Tests.antt =====
-- The theorems on execution at concrete inputs.
use bavy.Prelude.{
  ℕ, ◌+◌, ◌-◌, ◌*◌, ◌%◌, ◌^◌, ◌<◌, ◌≡◌, ◌≢◌, refl, arith, none, some, replicate, length-replicate,
  Bool, true, false, ok, err, get_or, set, and_then,
}
use bavy.Prelude.Bits.{◌>>>◌, bit}
use bavy.Bus.{Bus}
use bavy.Cpu.Types.{machine, user, Trap}
use bavy.Cpu.Csr
use bavy.Cpu.Csr.{num_csrs, CsrFile, csr, set_csr, csr_mie}
use bavy.Cpu.Csr.Views.{IsCsrFile, new-IsCsrFile, set_csr-IsCsrFile}
use bavy.Cpu.Trap.{handle_trap, check_pending_interrupt, s_enabled}
use bavy.Cpu.Execute.Poll.{csr_menvcfg, csr_stimecmp, sstc_enabled, step_single}
use bavy.Cpu.Execute.Timer.{polled, step_single_timer}
use bavy.Cpu.State.{
  Cpu, read_reg, write_reg, csr_mideleg, decode_cache_size, invalidate_decode_cache,
  reservation_granule,
}
use bavy.Mmu.Tlb
use bavy.Engine.Decoder.{op_imm, decode}
use bavy.Engine.Compressed.{expand_compressed}
use bavy.Engine.Expansion.{short, six}
use bavy.Engine.Expansion.Table.{IsSrai}
use bavy.Cpu.Execute.Alu.{op_imm_result, div, rem, divu, remu, magnitude}
use bavy.Cpu.Execute.Alu.Laws.{div-rem}
use bavy.Cpu.Execute.Shift.{srai_imm, srai_funct7, op_imm_result-expand_compressed}
use bavy.Mmu.Translate.{translate}
use bavy.Cpu.Execute.Monad.{or_trap, translate_addr}
use bavy.Cpu.Execute.Atomic.{execute_amo}
use bavy.Cpu.Execute.Reserve.{released, execute_amo_once}
use bavy.Cpu.Execute.Step.{decode_cached, step_single_inner}
use bavy.Cpu.Execute.Cached.{IsCached, invalidate_decode_cache-IsCached, decode_cached-decode}
use bavy.Cpu.Execute.Hart.{IsHart}
use bavy.Cpu.Execute.Steps.{step_single_inner-IsHart}

-- i64::MIN by -1.
div-rem_example :
    ((div (2 ^ 63) (2 ^ 64 - 1) * (2 ^ 64 - 1) + rem (2 ^ 63) (2 ^ 64 - 1)) % 2 ^ 64 ≡ 2 ^ 63)
    × ((divu (2 ^ 63) (2 ^ 64 - 1) * (2 ^ 64 - 1) + remu (2 ^ 63) (2 ^ 64 - 1)) % 2 ^ 64 ≡ 2 ^ 63)
    × ((2 ^ 64 - 1) ≢ 0 → magnitude (rem (2 ^ 63) (2 ^ 64 - 1)) < magnitude (2 ^ 64 - 1))
    × ((2 ^ 64 - 1) ≢ 0 → remu (2 ^ 63) (2 ^ 64 - 1) < 2 ^ 64 - 1)
div-rem_example = div-rem (2 ^ 63) (2 ^ 64 - 1) (omega arith) (omega arith)

-- c.srai a0, 1.
shift_word : IsSrai 0x8505
shift_word = record { quadrant = refl; funct3 = refl; operation = refl }

op_imm_result-expand_compressed_example :
    (and_then (expand_compressed 0x8505) decode
      ≡ ok (op_imm (short 7 0x8505) (short 7 0x8505) (srai_imm 0x8505) 5 (srai_funct7 0x8505)))
    × (op_imm_result 5 (srai_funct7 0x8505) (2 ^ 63) (srai_imm 0x8505)
        ≡ some (2 ^ 63 >>> six 0x8505))
op_imm_result-expand_compressed_example = op_imm_result-expand_compressed 0x8505 (2 ^ 63) shift_word

-- Memory that reads 0.
abbrev blank : Bus
blank = record {
  State = Unit {0};
  load = λ m addr size. (m, ok 0);
  store = λ m addr size value. (m, ok tt);
}

abbrev hart : Cpu
hart = invalidate_decode_cache (record {
  regs = replicate 32 0;
  pc = 0x80000000;
  reservation = none;
  csrs = Csr.new;
  mode = machine;
  tlb = Tlb.new;
  poll_counter = 0;
  decode_cache = replicate decode_cache_size none;
})

hart-IsCached : IsCached hart
hart-IsCached = invalidate_decode_cache-IsCached _

decode_cached-decode_example :
    ((decode_cached blank 0x80000000 0x13 hart tt).2 ≡ decode 0x13)
    × ((decode_cached blank 0x80000000 0x13 hart tt).1 ≡ tt)
    × IsCached ((decode_cached blank 0x80000000 0x13 hart tt).0)
decode_cached-decode_example = decode_cached-decode blank hart tt 0x80000000 0x13 hart-IsCached

-- A memory of one word, and a hart whose x5 holds 64 and which has reserved its granule.
abbrev one_word : Bus
one_word = record {
  State = ℕ;
  load = λ m addr size. (m, ok m);
  store = λ m addr size value. (value, ok tt);
}

abbrev holder : Cpu
holder = record hart { regs = set (replicate 32 7) 5 64; reservation = some 64 }

holder_values :
    (read_reg holder 5 ≡ 64)
    × (read_reg (released holder 10) 5 ≡ 64)
    × (reservation_granule 64 ≡ 64)
    × (read_reg holder 6 ≡ 7)
unfolding read_reg write_reg get_or set replicate reservation_granule
holder_values = (refl, refl, refl, refl)

holder-translates :
    (translate_addr one_word (read_reg holder 5) Tlb.load 0 holder 3 ≡ (holder, 3, ok 64))
    × (translate_addr one_word (read_reg (released holder 10) 5) Tlb.load 4 (released holder 10) 7
        ≡ (released holder 10, 7, ok 64))
unfolding translate_addr translate or_trap read_reg write_reg get_or set replicate
    invalidate_decode_cache
holder-translates = (refl, refl)

-- sc.w x10, x6, (x5), twice.
execute_amo_once_example :
    (execute_amo one_word 0 0 10 5 6 2 0b00011 holder 3 ≡ (released holder 10, 7, ok tt))
    × (execute_amo one_word 4 0 10 5 6 2 0b00011 (released holder 10) 7
        ≡ (write_reg (released holder 10) 10 1, 7, ok tt))
execute_amo_once_example =
    execute_amo_once one_word 0 0 10 5 6 64 true holder holder 3 3 7 4 0 10 5 6 64 true
      (released holder 10) 7 (rw holder_values.0 refl) (rw (holder_values.0, holder_values.2) refl)
      holder-translates.0 (rw holder_values.3 refl) (rw holder_values.1 refl) holder-translates.1

hart-IsHart : IsHart hart
unfolding invalidate_decode_cache Csr.new get_or replicate
hart-IsHart = record {
  regs = length-replicate {A = ℕ} 32 0;
  csrs = length-replicate {A = ℕ} num_csrs 0;
  cache = hart-IsCached.full;
  decodings = hart-IsCached.true_to_word;
  zero = refl;
}

-- An SBI that handles nothing.
abbrev no_sbi : Cpu → Unit {0} → Cpu × Unit {0} × Bool
no_sbi c m = (c, m, false)

no_sbi-IsHart : (c : Cpu) (m : Unit {0}) → IsHart c → IsHart ((no_sbi c m).0)
no_sbi-IsHart c m h = h

step_single_inner-IsHart_example : IsHart ((step_single_inner blank no_sbi hart tt).0)
step_single_inner-IsHart_example =
    step_single_inner-IsHart blank no_sbi hart tt no_sbi-IsHart hart-IsHart

-- Sstc on, a comparison value of 1, and the supervisor timer interrupt enabled and delegated.
abbrev compared : CsrFile
compared = set_csr (set_csr Csr.new csr_menvcfg (2 ^ 63)) csr_stimecmp 1

abbrev timer_csrs : CsrFile
timer_csrs = set_csr (set_csr compared csr_mie 32) csr_mideleg 32

compared-IsCsrFile : IsCsrFile compared
compared-IsCsrFile =
    set_csr-IsCsrFile (set_csr Csr.new csr_menvcfg (2 ^ 63)) csr_stimecmp 1
      (set_csr-IsCsrFile Csr.new csr_menvcfg (2 ^ 63) new-IsCsrFile (omega arith) (omega arith))
      (omega arith) (omega arith)

timer_csrs-IsCsrFile : IsCsrFile timer_csrs
timer_csrs-IsCsrFile =
    set_csr-IsCsrFile (set_csr compared csr_mie 32) csr_mideleg 32
      (set_csr-IsCsrFile compared csr_mie 32 compared-IsCsrFile (omega arith) (omega arith))
      (omega arith) (omega arith)

-- A user's hart before its 256th step, on a bus whose clock reads 7.
abbrev waiting : Cpu
waiting = record hart { csrs = timer_csrs; mode = user; poll_counter = 255 }

abbrev clock : Bus
clock = record {
  State = Unit {0};
  load = λ m addr size. (m, ok 7);
  store = λ m addr size value. (m, ok tt);
}

waiting_values :
    (sstc_enabled timer_csrs ≡ true)
    × (csr timer_csrs csr_stimecmp ≡ 1)
    × (bit (csr timer_csrs csr_mie) 5 ≡ 1)
    × (bit (csr timer_csrs csr_mideleg) 5 ≡ 1)
unfolding sstc_enabled get_or set replicate Csr.new bit
waiting_values = (refl, refl, refl, refl)

step_single_timer_example :
    (t : Trap) × (check_pending_interrupt (polled clock (λ hart_id m. (m, 0)) waiting tt) ≡ some t)
    × (step_single clock (λ hart_id m. (m, 0)) (λ c m. (c, m, false)) waiting tt
        ≡ (handle_trap (polled clock (λ hart_id m. (m, 0)) waiting tt) t waiting.pc, tt, err t))
step_single_timer_example =
    step_single_timer clock (λ hart_id m. (m, 0)) (λ c m. (c, m, false)) waiting tt tt 7
      timer_csrs-IsCsrFile refl waiting_values.0 (omega (arith, waiting_values.1)) refl
      (omega (arith, waiting_values.1)) waiting_values.2 waiting_values.3 (unfold s_enabled in refl)
