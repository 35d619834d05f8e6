-- ===== src/Cpu/State.antt =====
-- riscv-vm/src/cpu/core.rs: a hart's state, its registers, its LR/SC reservation and its cache of
-- decoded instructions. Its cache of compiled blocks stands beside it in Cpu/Blocks/Chain.antt.
use bavy.Prelude.{
  ℕ, ◌+◌, ◌-◌, ◌^◌, bit_and, bit_or, ◌&&◌, Option, none, some, List, Result, ◌==◌, if◌then◌else◌,
  get_or, set, replicate,
}
use bavy.Prelude.Bits.{complement, ◌<<<◌}
use bavy.Cpu.Types.{Mode, machine, supervisor, Trap}
use bavy.Cpu.Csr
use bavy.Cpu.Csr.{CsrFile, csr, set_csr, csr_mstatus}
use bavy.Mmu.Tlb.{Tlb}
use bavy.Mmu.Tlb
use bavy.Engine.Decoder.{Op}

abbrev pub csr_satp : ℕ
csr_satp = 0x180

abbrev pub csr_misa : ℕ
csr_misa = 0x301

abbrev pub csr_medeleg : ℕ
csr_medeleg = 0x302

abbrev pub csr_mideleg : ℕ
csr_mideleg = 0x303

abbrev pub csr_mtvec : ℕ
csr_mtvec = 0x305

abbrev pub csr_mepc : ℕ
csr_mepc = 0x341

abbrev pub csr_mcause : ℕ
csr_mcause = 0x342

abbrev pub csr_mtval : ℕ
csr_mtval = 0x343

abbrev pub csr_stvec : ℕ
csr_stvec = 0x105

abbrev pub csr_sepc : ℕ
csr_sepc = 0x141

abbrev pub csr_scause : ℕ
csr_scause = 0x142

abbrev pub csr_stval : ℕ
csr_stval = 0x143

abbrev pub csr_time : ℕ
csr_time = 0xC01

abbrev pub csr_mcounteren : ℕ
csr_mcounteren = 0x306

abbrev pub csr_mhartid : ℕ
csr_mhartid = 0xF14

abbrev pub csr_pmpcfg0 : ℕ
csr_pmpcfg0 = 0x3A0

abbrev pub csr_pmpaddr0 : ℕ
csr_pmpaddr0 = 0x3B0

abbrev pub decode_cache_size : ℕ
decode_cache_size = 256

abbrev pub decode_cache_mask : ℕ
decode_cache_mask = decode_cache_size - 1

-- `(u64, u32, Op)`: the whole pc, the word and what it decodes to.
abbrev pub DecodeCacheEntry : Type 0
DecodeCacheEntry = ℕ × ℕ × Op

pub record Cpu : Type 0 where
  pub regs : List ℕ  -- [u64; 32]
  pub pc : ℕ
  pub reservation : Option ℕ
  pub csrs : CsrFile
  pub mode : Mode
  pub tlb : Tlb
  pub poll_counter : ℕ  -- u8
  pub decode_cache : List (Option DecodeCacheEntry)

unfoldable pub new : ℕ → ℕ → Cpu
new pc hart_id =
    let csrs = set_csr Csr.new csr_misa 0x4000000000181125 in
    let csrs = set_csr csrs csr_mhartid hart_id in
    let csrs = set_csr csrs csr_mstatus 0 in
    record {
      regs = replicate 32 0;
      pc = pc;
      reservation = none;
      csrs = csrs;
      mode = machine;
      tlb = Tlb.new;
      poll_counter = 0;
      decode_cache = replicate decode_cache_size none;
    }

-- medeleg and mideleg of `setup_smode_boot_with_dtb`.
abbrev pub boot_medeleg : ℕ
boot_medeleg =
    2 ^ 0 + 2 ^ 1 + 2 ^ 2 + 2 ^ 3 + 2 ^ 4 + 2 ^ 5 + 2 ^ 6 + 2 ^ 7 + 2 ^ 8 + 2 ^ 12 + 2 ^ 13 + 2 ^ 15

abbrev pub boot_mideleg : ℕ
boot_mideleg = 2 ^ 1 + 2 ^ 5 + 2 ^ 9

-- Without the note to the SBI that the first hart has started.
unfoldable pub setup_smode_boot_with_dtb : Cpu → ℕ → Cpu
setup_smode_boot_with_dtb c dtb_address =
    let csrs = set_csr c.csrs csr_medeleg boot_medeleg in
    let csrs = set_csr csrs csr_mideleg boot_mideleg in
    let mstatus = csr csrs csr_mstatus in
    let mstatus = bit_and mstatus (complement 64 (0b11 <<< 11)) in
    let mstatus = bit_or mstatus (0b01 <<< 11) in
    let mstatus = bit_or mstatus (1 <<< 7) in
    let csrs = set_csr csrs csr_mstatus mstatus in
    let csrs = set_csr csrs csr_mcounteren 0b111 in
    let csrs = set_csr csrs csr_pmpaddr0 0x003FFFFFFFFFFFFF in
    let csrs = set_csr csrs csr_pmpcfg0 0x1F in
    let hart_id = csr csrs csr_mhartid in
    record c { csrs = csrs; regs = set (set c.regs 10 hart_id) 11 dtb_address; mode = supervisor }

unfoldable pub hits : Option DecodeCacheEntry → ℕ → ℕ → Option Op
hits none pc raw = none
hits (some (cached_pc, cached_raw, found)) pc raw =
    if (cached_pc == pc) && (cached_raw == raw) then some found else none

unfoldable pub decode_cache_lookup : Cpu → ℕ → ℕ → Option Op
decode_cache_lookup c pc raw =
    hits (get_or c.decode_cache (bit_and pc decode_cache_mask) none) pc raw

unfoldable pub decode_cache_insert : Cpu → ℕ → ℕ → Op → Cpu
decode_cache_insert c pc raw decoded = record c {
  decode_cache = set c.decode_cache (bit_and pc decode_cache_mask) (some (pc, raw, decoded));
}

unfoldable pub invalidate_decode_cache : Cpu → Cpu
invalidate_decode_cache c = record c { decode_cache = replicate decode_cache_size none }

unfoldable pub read_reg : Cpu → ℕ → ℕ
read_reg c reg = if reg == 0 then 0 else get_or c.regs reg 0

unfoldable pub write_reg : Cpu → ℕ → ℕ → Cpu
write_reg c reg val = if reg == 0 then c else record c { regs = set c.regs reg val }

unfoldable pub reservation_granule : ℕ → ℕ
reservation_granule addr = bit_and addr (complement 64 (64 - 1))

unfoldable pub clear_reservation_if_conflict : Cpu → ℕ → Cpu
clear_reservation_if_conflict c addr = elim c.reservation [
  | none ↦ c
  | some res ↦
      (if reservation_granule res == reservation_granule addr
        then record c { reservation = none }
        else c)
]

unfoldable pub read_csr : Cpu → ℕ → Option (Result ℕ Trap)
read_csr c addr = Csr.read c.csrs addr c.mode

unfoldable pub write_csr : Cpu → ℕ → ℕ → Option (Cpu × Result (Unit {0}) Trap)
write_csr c addr val = elim (Csr.write c.csrs addr val c.mode) [
  | none ↦ none
  | some (csrs, r) ↦ some (record c { csrs = csrs }, r)
]
