-- ===== src/Mmu/Translate.antt =====
-- riscv-vm/src/mmu.rs: `translate`. The bus is the section's parameter; its state and the TLB are
-- passed on explicitly.
pub mod Leaf
pub mod Marked
pub mod Walk
pub mod Correct
pub mod Repeat
pub mod Paged
use bavy.Prelude.{
  ℕ, zero, suc, ◌+◌, ◌-◌, ◌*◌, ◌^◌, bit_and, Bool, true, false, not, none, some, ◌==◌,
  if◌then◌else◌, Result, ok, err,
}
use bavy.Prelude.Bits.{◌>>>◌}
use bavy.Cpu.Types.{Mode, user, supervisor, machine, Trap}
use bavy.Bus.{Bus}
use bavy.Mmu.Tlb
use bavy.Mmu.Tlb.{AccessType, TlbEntry, Tlb}
use bavy.Mmu.Pte.{
  page_size, pte_size, page_fault, access_fault, check_permission_tlb, paging_mode, is_canonical,
  pte_ppn, is_invalid, is_pointer, is_misaligned, update_ad, final_ppn, physical, vpn_part,
  leaf_entry,
}

-- What does not change during one translation.
pub record Request : Type 0 where
  pub mode : Mode
  pub mstatus : ℕ
  pub addr : ℕ
  pub access : AccessType
  pub vpn_full : ℕ
  pub asid : ℕ

-- The full VPN in the width of the paging mode, and satp's ASID.
abbrev pub request : Mode → ℕ → ℕ → ℕ → AccessType → ℕ → Request
request mode satp mstatus addr access levels =
    let vpn_full = bit_and (addr >>> 12) (2 ^ (9 * levels) - 1) in
    let current_asid = bit_and (satp >>> 44) 0xFFFF in
    record {
      mode = mode;
      mstatus = mstatus;
      addr = addr;
      access = access;
      vpn_full = vpn_full;
      asid = current_asid;
    }

-- The mode field of satp.
abbrev pub satp_mode : ℕ → ℕ
satp_mode satp = bit_and (satp >>> 60) 0xF

abbrev is_machine : Mode → Bool
is_machine user = false
is_machine supervisor = false
is_machine machine = true

module _ (bus : Bus) where
  -- The bus and the TLB afterwards, and the physical address or the trap.
  abbrev pub Outcome : Type 0
  Outcome = bus.State × Tlb × Result ℕ Trap

  -- The end of the walk: the entry is cached with its final PPN.
  unfoldable pub finish : Request → ℕ → ℕ → TlbEntry → bus.State → Tlb → Outcome
  finish q i pte entry m tlb =
      let ppn = final_ppn i pte q.addr in
      (m, Tlb.insert tlb (record entry { ppn = ppn }), ok (physical ppn q.addr))

  -- The body of the loop from `// Leaf PTE` on.
  unfoldable pub leaf : Request → ℕ → ℕ → ℕ → bus.State → Tlb → Outcome
  leaf q i pte_addr pte m tlb =
      let entry = leaf_entry q.vpn_full q.asid i pte in
      let (updated, new_pte, update) = update_ad q.access entry pte in
      let (m', stored) = bus.store m pte_addr 8 new_pte in
      if not (check_permission_tlb q.mode q.mstatus entry q.access)
      then (m, tlb, err (page_fault q.access q.addr))
      else if is_misaligned i pte
      then (m, tlb, err (page_fault q.access q.addr))
      else if update
      then elim stored [
        | ok _ ↦ finish q i pte updated m' tlb
        | err _ ↦ (m', tlb, err (access_fault q.access q.addr))
      ]
      else finish q i pte updated m tlb

  -- The loop over the levels: with `suc i`, level i is next and `a` is its table.
  unfoldable pub walk : Request → ℕ → ℕ → bus.State → Tlb → Outcome
  walk q zero a m tlb = (m, tlb, err (page_fault q.access q.addr))
  walk q (suc i) a m tlb =
      let pte_addr = a + vpn_part q.addr i * pte_size in
      let (m', loaded) = bus.load m pte_addr 8 in
      elim loaded [
        | err _ ↦ (m', tlb, err (access_fault q.access q.addr))
        | ok pte ↦
            let next = walk q i (pte_ppn pte * page_size) m' tlb in
            if is_invalid pte
            then (m', tlb, err (page_fault q.access q.addr))
            else if is_pointer pte
            then if i == 0 then (m', tlb, err (page_fault q.access q.addr)) else next
            else leaf q i pte_addr pte m' tlb
      ]

  -- The TLB hit path, else the walk from the root table.
  unfoldable pub look_up_or_walk : Request → ℕ → ℕ → bus.State → Tlb → Outcome
  look_up_or_walk q levels satp m tlb =
      let root_ppn = bit_and satp (2 ^ 44 - 1) in
      elim (Tlb.lookup tlb q.vpn_full q.asid) [
        | some entry ↦
            if check_permission_tlb q.mode q.mstatus entry q.access
            then (m, tlb, ok (physical entry.ppn q.addr))
            else (m, tlb, err (page_fault q.access q.addr))
        | none ↦ walk q levels (root_ppn * page_size) m tlb
      ]

  -- What `translate` does when a paging mode is on.
  unfoldable pub translate_paged : Mode → ℕ → ℕ → ℕ → AccessType → ℕ → ℕ → bus.State → Tlb → Outcome
  translate_paged mode satp mstatus addr access levels va_bits m tlb =
      let q = request mode satp mstatus addr access levels in
      if is_canonical va_bits addr
      then look_up_or_walk q levels satp m tlb
      else (m, tlb, err (page_fault access addr))

  unfoldable pub translate : Mode → ℕ → ℕ → ℕ → AccessType → bus.State → Tlb → Outcome
  translate mode satp mstatus addr access m tlb =
      if is_machine mode then (m, tlb, ok addr) else elim (paging_mode (satp_mode satp)) [
        | none ↦ (m, tlb, ok addr)
        | some (levels, va_bits) ↦
            translate_paged mode satp mstatus addr access levels va_bits m tlb
      ]
