-- ===== src/Cpu/Csr.antt =====
-- riscv-vm/src/cpu/csr.rs: the control and status registers, with the supervisor's views of the
-- machine registers. A `HashMap<u16, u64>` is a list of its pairs.
pub mod Views
pub mod Snapshot
pub mod Confined
use bavy.Prelude.{
  ℕ, ◌+◌, ◌*◌, ◌^◌, bit_and, bit_or, Bool, not, Option, none, some, Result, ok, err, List, [], ◌∷◌,
  ltb, ◌==◌, if◌then◌else◌, get_or, set, replicate,
}
use bavy.Prelude.Bits.{◌>>>◌, complement}
use bavy.Cpu.Types.{Mode, Trap, illegal_instruction, privilege_level}

abbrev pub num_csrs : ℕ
num_csrs = 4096

abbrev pub csr_mstatus : ℕ
csr_mstatus = 0x300

abbrev pub csr_mie : ℕ
csr_mie = 0x304

abbrev pub csr_mip : ℕ
csr_mip = 0x344

abbrev pub csr_sstatus : ℕ
csr_sstatus = 0x100

abbrev pub csr_sie : ℕ
csr_sie = 0x104

abbrev pub csr_sip : ℕ
csr_sip = 0x144

-- (1 << 1) | (1 << 5) | (1 << 8) | (3 << 13) | (1 << 18) | (1 << 19)
abbrev pub sstatus_mask : ℕ
sstatus_mask = 2 ^ 1 + 2 ^ 5 + 2 ^ 8 + 3 * 2 ^ 13 + 2 ^ 18 + 2 ^ 19

-- (1 << 1) | (1 << 5) | (1 << 9)
abbrev pub sie_mask : ℕ
sie_mask = 2 ^ 1 + 2 ^ 5 + 2 ^ 9

-- The bits of sip that can be written.
abbrev pub sip_write_mask : ℕ
sip_write_mask = 2 ^ 1

pub record CsrFile : Type 0 where
  pub storage : List ℕ  -- [u64; 4096]

unfoldable pub new : CsrFile
new = record { storage = replicate num_csrs 0 }

-- The pairs of the registers that are not 0, from register `idx` on.
unfoldable pub export_from : ℕ → List ℕ → List (ℕ × ℕ)
export_from idx [] = []
export_from idx (val ∷ rest) =
    let others = export_from (idx + 1) rest in if val == 0 then others else (idx, val) ∷ others

unfoldable pub export : CsrFile → List (ℕ × ℕ)
export f = export_from 0 f.storage

unfoldable pub import_into : List (ℕ × ℕ) → List ℕ → List ℕ
import_into [] storage = storage
import_into ((addr, val) ∷ rest) storage =
    import_into rest (if ltb addr num_csrs then set storage addr val else storage)

unfoldable pub import : CsrFile → List (ℕ × ℕ) → CsrFile
import f map = record { storage = import_into map (replicate num_csrs 0) }

unfoldable pub required_priv : ℕ → ℕ
required_priv addr = bit_and (addr >>> 8) 0x3

unfoldable pub is_read_only : ℕ → Bool
is_read_only addr = bit_and (addr >>> 10) 0x3 == 0x3

abbrev pub csr : CsrFile → ℕ → ℕ
csr f addr = get_or f.storage addr 0

-- The value that a permitted read gives.
unfoldable pub view : CsrFile → ℕ → ℕ
view f addr =
    if addr == csr_sstatus
    then bit_and (csr f csr_mstatus) sstatus_mask
    else if addr == csr_sie
    then bit_and (csr f csr_mie) sie_mask
    else if addr == csr_sip
    then bit_and (csr f csr_mip) sie_mask
    else csr f addr

-- `none`: the address is beyond the storage, and the index panics.
unfoldable pub read : CsrFile → ℕ → Mode → Option (Result ℕ Trap)
read f addr mode =
    if ltb (privilege_level mode) (required_priv addr)
    then some (err (illegal_instruction addr))
    else if ltb addr num_csrs
    then some (ok (view f addr))
    else none

-- `(old & !mask) | (val & mask)` on u64.
unfoldable pub merge : ℕ → ℕ → ℕ → ℕ
merge old val mask = bit_or (bit_and old (complement 64 mask)) (bit_and val mask)

abbrev pub set_csr : CsrFile → ℕ → ℕ → CsrFile
set_csr f addr val = record f { storage = set f.storage addr val }

-- What a permitted write changes.
unfoldable pub update : CsrFile → ℕ → ℕ → CsrFile
update f addr val =
    if addr == csr_sstatus
    then set_csr f csr_mstatus (merge (csr f csr_mstatus) val sstatus_mask)
    else if addr == csr_sie
    then set_csr f csr_mie (merge (csr f csr_mie) val sie_mask)
    else if addr == csr_sip
    then set_csr f csr_mip (merge (csr f csr_mip) val sip_write_mask)
    else set_csr f addr val

unfoldable pub write : CsrFile → ℕ → ℕ → Mode → Option (CsrFile × Result (Unit {0}) Trap)
write f addr val mode =
    if is_read_only addr
    then some (f, ok tt)
    else if ltb (privilege_level mode) (required_priv addr)
    then some (f, err (illegal_instruction addr))
    else if ltb addr num_csrs
    then some (update f addr val, ok tt)
    else none
