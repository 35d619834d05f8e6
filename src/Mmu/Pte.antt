-- ===== src/Mmu/Pte.antt =====
-- riscv-vm/src/mmu.rs: the parts of `translate` that touch neither the bus nor the TLB: permission
-- checks, the fields of a page table entry, faults and address arithmetic.
pub mod Permission
pub mod Dirty
pub mod Address
use bavy.Prelude.{
  ℕ, ◌+◌, ◌-◌, ◌*◌, ◌%◌, ◌^◌, bit_and, bit_or, Bool, true, false, not, ◌&&◌, ◌||◌, Option, ltb,
  none, some, ◌==◌, if◌then◌else◌,
}
use bavy.Prelude.Bits.{◌>>>◌, ◌<<<◌, complement}
use bavy.Cpu.Types.{
  Mode, user, supervisor, machine, Trap, instruction_access_fault, load_access_fault,
  store_access_fault, instruction_page_fault, load_page_fault, store_page_fault,
}
use bavy.Mmu.Tlb
use bavy.Mmu.Tlb.{
  AccessType, instruction, load, store, TlbEntry, Tlb, perm_r, perm_w, perm_x, perm_u, perm_a,
  perm_d, perm_g, u16,
}

abbrev pub page_size : ℕ
page_size = 4096

abbrev pub pte_size : ℕ
pte_size = 8

unfoldable pub page_fault : AccessType → ℕ → Trap
page_fault instruction addr = instruction_page_fault addr
page_fault load addr = load_page_fault addr
page_fault store addr = store_page_fault addr

unfoldable pub access_fault : AccessType → ℕ → Trap
access_fault instruction addr = instruction_access_fault addr
access_fault load addr = load_access_fault addr
access_fault store addr = store_access_fault addr

abbrev is_instruction : AccessType → Bool
is_instruction instruction = true
is_instruction load = false
is_instruction store = false

abbrev pub is_store : AccessType → Bool
is_store instruction = false
is_store load = false
is_store store = true

-- The first match of `check_permission_tlb`: may this mode use the page at all?
mode_allows : Mode → ℕ → TlbEntry → AccessType → Bool
mode_allows supervisor mstatus entry access =
    let sum = bit_and (mstatus >>> 18) 1 in
    if Tlb.u entry then not (is_instruction access) && not (sum == 0) else true
mode_allows user mstatus entry access = Tlb.u entry
mode_allows machine mstatus entry access = true

-- Its second match.
access_allows : AccessType → ℕ → TlbEntry → Bool
access_allows instruction mstatus entry = Tlb.x entry
access_allows store mstatus entry = Tlb.w entry
access_allows load mstatus entry =
    let mxr = bit_and (mstatus >>> 19) 1 in if Tlb.r entry then true else mxr == 1 && Tlb.x entry

unfoldable pub check_permission_tlb : Mode → ℕ → TlbEntry → AccessType → Bool
unfolding mode_allows access_allows
check_permission_tlb mode mstatus entry access =
    if mode_allows mode mstatus entry access then access_allows access mstatus entry else false

-- The mode field of satp: `none` is Bare or an unsupported mode, else the levels and the VA bits.
unfoldable pub paging_mode : ℕ → Option (ℕ × ℕ)
paging_mode satp_mode =
    if satp_mode == 8 then some (3, 39) else if satp_mode == 9 then some (4, 48) else none

-- The upper bits of the address are copies of its sign bit.
unfoldable pub is_canonical : ℕ → ℕ → Bool
is_canonical va_bits addr =
    let upper_mask = complement 64 (2 ^ va_bits - 1) in
    let sign = bit_and (addr >>> (va_bits - 1)) 1 in
    let expected_upper = if sign == 1 then upper_mask else 0 in
    bit_and addr upper_mask == expected_upper

-- Bit k of a page table entry, `(pte >> k) & 1`.
abbrev pub pte_bit : ℕ → ℕ → ℕ
pte_bit pte k = bit_and (pte >>> k) 1

unfoldable pub pte_ppn : ℕ → ℕ
pte_ppn pte = bit_and (pte >>> 10) 0xFFF_FFFF_FFFF

unfoldable pub is_invalid : ℕ → Bool
is_invalid pte = pte_bit pte 0 == 0 || (pte_bit pte 1 == 0 && pte_bit pte 2 == 1)

unfoldable pub is_pointer : ℕ → Bool
is_pointer pte = pte_bit pte 1 == 0 && pte_bit pte 3 == 0

-- `if bit != 0 { perm |= mask; }`
abbrev add_perm : ℕ → ℕ → ℕ → ℕ
add_perm b mask perm = if b == 0 then perm else bit_or perm mask

unfoldable pub leaf_perm : ℕ → ℕ
leaf_perm pte =
    let perm = add_perm (pte_bit pte 1) perm_r 0 in
    let perm = add_perm (pte_bit pte 2) perm_w perm in
    let perm = add_perm (pte_bit pte 3) perm_x perm in
    let perm = add_perm (pte_bit pte 4) perm_u perm in
    let perm = add_perm (pte_bit pte 5) perm_g perm in
    let perm = add_perm (pte_bit pte 6) perm_a perm in add_perm (pte_bit pte 7) perm_d perm

-- Superpage alignment: the low part of the PPN of a leaf at level i > 0 is zero.
unfoldable pub is_misaligned : ℕ → ℕ → Bool
unfolding pte_ppn
is_misaligned i pte =
    let ppn_mask = 2 ^ (9 * i) - 1 in
    if ltb 0 i then not (bit_and (pte_ppn pte) ppn_mask == 0) else false

-- The A/D updates: the cached entry, the new PTE, and whether it has to be written.
unfoldable pub update_ad : AccessType → TlbEntry → ℕ → TlbEntry × ℕ × Bool
update_ad access entry pte =
    let set_accessed = not (Tlb.a entry) in
    let entry_a = if set_accessed then Tlb.set_a entry else entry in
    let pte_a = if set_accessed then bit_or pte (2 ^ 6) else pte in
    let set_dirty = is_store access && not (Tlb.d entry_a) in
    (
      if set_dirty then Tlb.set_d entry_a else entry_a,
      if set_dirty then bit_or pte_a (2 ^ 7) else pte_a,
      set_accessed || set_dirty,
    )

-- The low parts of the PPN come from the address on superpages.
unfoldable pub final_ppn : ℕ → ℕ → ℕ → ℕ
unfolding pte_ppn
final_ppn i pte addr =
    let vpn_mask = 2 ^ (9 * i) - 1 in
    bit_or (bit_and (pte_ppn pte) (complement 64 vpn_mask)) (bit_and (addr >>> 12) vpn_mask)

-- `(ppn << 12) | (addr & 0xFFF)` on u64.
unfoldable pub physical : ℕ → ℕ → ℕ
physical ppn addr = bit_or ((ppn <<< 12) % 2 ^ 64) (bit_and addr 0xFFF)

-- `vpn[level]`.
unfoldable pub vpn_part : ℕ → ℕ → ℕ
vpn_part addr level = bit_and (addr >>> (12 + 9 * level)) 0x1FF

-- The TLB entry that a walk builds from a leaf at level i.
unfoldable pub leaf_entry : ℕ → ℕ → ℕ → ℕ → TlbEntry
unfolding pte_ppn leaf_perm
leaf_entry vpn_full asid i pte = record {
  vpn = vpn_full;
  ppn = pte_ppn pte;
  asid = u16 asid;
  perm = leaf_perm pte;
  level = i;
  valid = true;
}
