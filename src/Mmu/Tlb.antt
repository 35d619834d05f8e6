-- ===== src/Mmu/Tlb.antt =====
-- riscv-vm/src/mmu.rs: TLB entries with packed permission bits, and the direct-mapped TLB.
pub mod Lookup
pub mod Flush
use bavy.Prelude.{
  ℕ, ◌%◌, ◌^◌, bit_and, bit_or, Bool, true, false, not, ◌&&◌, ◌||◌, Option, none, some, List, map,
  ◌==◌, if◌then◌else◌, get_or, set, replicate,
}
use bavy.Prelude.Bits.{◌>>>◌}

pub data AccessType : Type 0 where
  instruction load store : AccessType

abbrev pub tlb_size : ℕ
tlb_size = 64

abbrev pub tlb_mask : ℕ
tlb_mask = 63

abbrev pub perm_r : ℕ
perm_r = 2 ^ 0

abbrev pub perm_w : ℕ
perm_w = 2 ^ 1

abbrev pub perm_x : ℕ
perm_x = 2 ^ 2

abbrev pub perm_u : ℕ
perm_u = 2 ^ 3

abbrev pub perm_a : ℕ
perm_a = 2 ^ 4

abbrev pub perm_d : ℕ
perm_d = 2 ^ 5

abbrev pub perm_g : ℕ
perm_g = 2 ^ 6

pub record TlbEntry : Type 0 where
  pub vpn : ℕ  -- u64
  pub ppn : ℕ  -- u64
  pub asid : ℕ  -- u16
  pub perm : ℕ  -- u8
  pub level : ℕ  -- u8
  pub valid : Bool

abbrev pub empty : TlbEntry
empty = record { vpn = 0; ppn = 0; asid = 0; perm = 0; level = 0; valid = false }

-- `self.perm & mask != 0`, the body of each permission test.
abbrev has_perm : ℕ → TlbEntry → Bool
has_perm mask e = not (bit_and e.perm mask == 0)

unfoldable pub r : TlbEntry → Bool
r = has_perm perm_r

unfoldable pub w : TlbEntry → Bool
w = has_perm perm_w

unfoldable pub x : TlbEntry → Bool
x = has_perm perm_x

unfoldable pub u : TlbEntry → Bool
u = has_perm perm_u

unfoldable pub a : TlbEntry → Bool
a = has_perm perm_a

unfoldable pub d : TlbEntry → Bool
d = has_perm perm_d

unfoldable pub global : TlbEntry → Bool
global = has_perm perm_g

unfoldable pub set_a : TlbEntry → TlbEntry
set_a e = record e { perm = bit_or e.perm perm_a }

unfoldable pub set_d : TlbEntry → TlbEntry
set_d e = record e { perm = bit_or e.perm perm_d }

pub record Tlb : Type 0 where
  pub entries : List TlbEntry  -- [TlbEntry; TLB_SIZE]

unfoldable pub new : Tlb
new = record { entries = replicate tlb_size empty }

-- `(vpn as usize) & TLB_MASK`
unfoldable pub index : ℕ → ℕ
index vpn = bit_and vpn tlb_mask

unfoldable pub entry_at : Tlb → ℕ → TlbEntry
entry_at t idx = get_or t.entries idx empty

abbrev invalidate : TlbEntry → TlbEntry
invalidate e = record e { valid = false }

unfoldable pub flush : Tlb → Tlb
flush t = record t { entries = map invalidate t.entries }

-- `as u16`
abbrev pub u16 : ℕ → ℕ
u16 n = n % 2 ^ 16

unfoldable pub flush_asid_entry : ℕ → TlbEntry → TlbEntry
unfolding global
flush_asid_entry asid e = if not (global e) && e.asid == u16 asid then invalidate e else e

unfoldable pub flush_asid : Tlb → ℕ → Tlb
unfolding flush_asid_entry
flush_asid t asid = record t { entries = map (flush_asid_entry asid) t.entries }

unfoldable pub flush_va : Tlb → ℕ → Tlb
unfolding index entry_at
flush_va t va =
    let vpn = va >>> 12 in
    let idx = index vpn in
    let entry = entry_at t idx in
    if entry.vpn == vpn then record t { entries = set t.entries idx (invalidate entry) } else t

unfoldable pub flush_page : Tlb → ℕ → ℕ → Tlb
unfolding index entry_at global
flush_page t vpn asid =
    let idx = index vpn in
    let entry = entry_at t idx in
    let match_asid = global entry || entry.asid == u16 asid in
    if entry.valid && entry.vpn == vpn
    then if match_asid then record t { entries = set t.entries idx (invalidate entry) } else t
    else t

-- The hit test of the three look-ups.
unfoldable pub hits : TlbEntry → ℕ → ℕ → Bool
unfolding global
hits e vpn asid = e.valid && (e.vpn == vpn && (global e || e.asid == u16 asid))

unfoldable pub lookup : Tlb → ℕ → ℕ → Option TlbEntry
unfolding index entry_at hits
lookup t vpn asid =
    let entry = entry_at t (index vpn) in if hits entry vpn asid then some entry else none

unfoldable pub lookup_fast : Tlb → ℕ → ℕ → Option (ℕ × ℕ)
unfolding index entry_at hits
lookup_fast t vpn asid =
    let entry = entry_at t (index vpn) in
    if hits entry vpn asid then some (entry.ppn, entry.perm) else none

unfoldable pub lookup_with_level : Tlb → ℕ → ℕ → Option (ℕ × ℕ × ℕ)
unfolding index entry_at hits
lookup_with_level t vpn asid =
    let entry = entry_at t (index vpn) in
    if hits entry vpn asid then some (entry.ppn, entry.perm, entry.level) else none

unfoldable pub insert : Tlb → TlbEntry → Tlb
unfolding index
insert t entry = record t { entries = set t.entries (index entry.vpn) entry }

unfoldable pub insert_translation : Tlb → ℕ → ℕ → ℕ → ℕ → ℕ → Tlb
unfolding index
insert_translation t vpn ppn perm level asid = record t {
  entries =
      set t.entries (index vpn)
        (record { vpn = vpn; ppn = ppn; asid = asid; perm = perm; level = level; valid = true });
}
