-- ===== src/Mmu/Translate/Paged.antt =====
-- riscv-vm/src/mmu.rs: `translate` as a whole.
use bavy.Prelude.{
  ℕ, ◌+◌, ◌/◌, ◌<◌, ◌⊎◌, refl, if◌then◌else◌, ◌-◌, ◌*◌, ◌%◌, ◌^◌, ◌≤◌, ◌≡◌, sym, ap, ◌∙◌, arith,
  true, ok, Option-cases, inl, inr, bit_and, some, none, ◌↔◌, ◌≢◌,
}
use bavy.Prelude.Bits.{bit, bit_and_mask, ◌>>>◌}
use mathlib.Core.Path.{subst}
use bavy.Bus.{Bus}
use bavy.Cpu.Types.{Mode, machine}
use bavy.Mmu.Tlb.{Tlb, TlbEntry, AccessType, lookup, load, store}
use bavy.Mmu.Tlb.Lookup.{IsTlb}
use bavy.Mmu.Pte.{physical, paging_mode, is_canonical, page_size, check_permission_tlb}
use bavy.Mmu.Pte.Address.{physical_offset, is_canonical_iff}
use bavy.Mmu.Pte.Permission.{permits, is_set}
use bavy.Mmu.Translate.{
  Request, request, satp_mode, walk, look_up_or_walk, translate, translate_paged,
}
use bavy.Mmu.Translate.Leaf.{cached}
use bavy.Mmu.Translate.Marked.{set_bit, IsWritten, IsWritten-load, marked_pte-load}
use bavy.Mmu.Translate.Correct.{Walked, Walked-cached, walk-sound, walk_complete}
use bavy.Mmu.Translate.Repeat.{lookup-cached, check_permission-cached, look_up_or_walk-cached}

-- The fields of satp: the mode, Sv39 (8) or Sv48 (9) with its levels and address bits, the ASID, and
-- the root table.
abbrev pub IsPaged : ℕ → ℕ → ℕ → Type 0
IsPaged satp levels va_bits =
    ((satp / 2 ^ 60 % 16 ≡ 8) × (levels ≡ 3) × (va_bits ≡ 39))
    ⊎ ((satp / 2 ^ 60 % 16 ≡ 9) × (levels ≡ 4) × (va_bits ≡ 48))

abbrev pub root : ℕ → ℕ
root satp = satp % 2 ^ 44 * 2 ^ 12

root_lem : (satp : ℕ) → bit_and satp (2 ^ 44 - 1) * page_size ≡ root satp
root_lem satp = ap (λ n. n * page_size) (bit_and_mask 44 satp)

-- The address's upper bits are copies of its highest: it is in the lower half or in the upper one.
abbrev pub IsCanonical : ℕ → ℕ → Type 0
IsCanonical va_bits addr = (addr < 2 ^ (va_bits - 1)) ⊎ (2 ^ 64 - 2 ^ (va_bits - 1) ≤ addr)

-- A request in a paging mode, its VPN and ASID read off the address and satp.
abbrev pub asked : Mode → ℕ → ℕ → ℕ → AccessType → ℕ → Request
asked mode satp mstatus addr access levels = record {
  mode = mode;
  mstatus = mstatus;
  addr = addr;
  access = access;
  vpn_full = addr / 2 ^ 12 % 2 ^ (9 * levels);
  asid = satp / 2 ^ 44 % 2 ^ 16;
}

request-asked :
    (mode : Mode) (satp mstatus addr : ℕ) (access : AccessType) (levels : ℕ)
    → request mode satp mstatus addr access levels ≡ asked mode satp mstatus addr access levels
request-asked mode satp mstatus addr access levels =
    rw (bit_and_mask (9 * levels) (addr >>> 12), bit_and_mask 16 (satp >>> 44)) refl

IsPaged-paging_mode :
    (satp levels va_bits : ℕ)
    → IsPaged satp levels va_bits
    → (paging_mode (satp_mode satp) ≡ some (levels, va_bits))
      × (levels ≤ 4)
      × ((va_bits ≡ 39) ⊎ (va_bits ≡ 48))
unfolding paging_mode
IsPaged-paging_mode satp levels va_bits (inl h) =
    (ground (arith, bit_and_mask 4 (satp >>> 60), h), omega (arith, h.1), inl h.2)
IsPaged-paging_mode satp levels va_bits (inr h) =
    (ground (arith, bit_and_mask 4 (satp >>> 60), h), omega (arith, h.1), inr h.2)

look_up_or_walk_offset :
    (bus : Bus) (q : Request) (levels satp : ℕ) (m m' : bus.State) (tlb tlb' : Tlb) (pa : ℕ)
    → IsTlb tlb
    → look_up_or_walk bus q levels satp m tlb ≡ (m', tlb', ok pa)
    → pa % page_size ≡ q.addr % page_size
look_up_or_walk_offset bus q levels satp m m' tlb tlb' pa full h =
    let (e, _, address, _) = look_up_or_walk-cached bus q levels satp m m' tlb tlb' pa full h in
    ap (λ n. n % page_size) (sym address) ∙ physical_offset e.ppn q.addr

look_up_or_walk-hit :
    (bus : Bus) (q : Request) (levels satp : ℕ) (m : bus.State) (tlb : Tlb) (e : TlbEntry)
    → lookup tlb q.vpn_full q.asid ≡ some e
    → check_permission_tlb q.mode q.mstatus e q.access ≡ true
    → look_up_or_walk bus q levels satp m tlb ≡ (m, tlb, ok (physical e.ppn q.addr))
unfolding look_up_or_walk
look_up_or_walk-hit bus q levels satp m tlb e hit allowed = ground arith

-- With at most 4 levels and a TLB of 64 slots, take a load that misses the TLB and walks to a page
-- writable in its mode whose D bit is clear. The load writes nothing if the A bit is set, and else
-- the PTE with its A bit set and no other change, so D stays clear; and it caches the page as
-- writable. A store to the same address then hits the cache and succeeds with the bus untouched,
-- so the D bit is still clear in memory.
pub store-after-load_not_dirty :
    (bus : Bus) (q : Request) (levels satp : ℕ) (m m' : bus.State) (tlb tlb' : Tlb) (pa : ℕ)
    → levels ≤ 4
    → IsTlb tlb
    → q.access ≡ load
    → lookup tlb q.vpn_full q.asid ≡ none
    → (w : Walked bus q levels (root satp) m tlb m' tlb' pa)
    → permits q.mode q.mstatus w.pte store ≡ true
    → bit w.pte 7 ≡ 0
    → (look_up_or_walk bus q levels satp m tlb ≡ (m', tlb', ok pa))
      × (if is_set w.pte 6
          then w.mid ≡ m'
          else bus.store w.mid w.pte_addr 8 (w.pte + 2 ^ 6) ≡ (m', ok tt))
      × (bit (set_bit 6 w.pte) 7 ≡ 0)
      × (look_up_or_walk bus (record q { access = store }) levels satp m' tlb' ≡ (m', tlb', ok pa))
store-after-load_not_dirty bus q levels satp m m' tlb tlb' pa few full loads miss w writable clean =
    let walked = walk_complete bus q levels (root satp) m tlb m' tlb' pa few w in
    let loaded : look_up_or_walk bus q levels satp m tlb ≡ (m', tlb', ok pa) =
      unfold look_up_or_walk in ground (arith, root_lem satp) in
    let (found, hit, address, _) =
      look_up_or_walk-cached bus q levels satp m m' tlb tlb' pa full loaded in
    let inserted = Walked-cached bus q levels (root satp) m tlb m' tlb' pa few w in
    let same : found ≡ cached bus q w.level w.pte_addr w.pte w.mid tlb =
      ground (arith, inserted, lookup-cached bus q w.level w.pte_addr w.pte w.mid tlb full) in
    let allowed : check_permission_tlb q.mode q.mstatus found store ≡ true =
      rw same (check_permission-cached bus q w.level w.pte_addr w.pte w.mid tlb store ∙ writable) in
    let by_load : IsWritten bus load w.pte_addr w.pte w.mid m' =
      subst (λ a. IsWritten bus a w.pte_addr w.pte w.mid m') loads w.written in
    (
      loaded,
      IsWritten-load bus w.pte_addr w.pte w.mid m' by_load,
      marked_pte-load w.pte clean,
      look_up_or_walk-hit bus (record q { access = store }) levels satp m' tlb' found hit allowed
          ∙ λ i. (m', tlb', ok (address i)),
    )

module _ (bus : Bus) (mode : Mode) (satp mstatus addr : ℕ) (access : AccessType) (m m' : bus.State)
    (tlb tlb' : Tlb) (pa : ℕ) where
  translate-walk :
      (levels va_bits : ℕ)
      → mode ≢ machine
      → paging_mode (satp_mode satp) ≡ some (levels, va_bits)
      → is_canonical va_bits addr ≡ true
      → request mode satp mstatus addr access levels ≡ asked mode satp mstatus addr access levels
      → bit_and satp (2 ^ 44 - 1) * page_size ≡ root satp
      → lookup tlb (addr / 2 ^ 12 % 2 ^ (9 * levels)) (satp / 2 ^ 44 % 2 ^ 16) ≡ none
      → translate bus mode satp mstatus addr access m tlb
        ≡ walk bus (asked mode satp mstatus addr access levels) levels (root satp) m tlb
  unfolding translate translate_paged look_up_or_walk
  translate-walk levels va_bits virtual paged canonical same base miss = ground arith

  -- With paging on, for a canonical 64-bit address that the TLB does not answer, `translate` returns
  -- a physical address exactly if that is a correct translation by the page table: in Sv39 or Sv48,
  -- by nine bits of the address at each level, to a leaf that the privileges permit, which is
  -- written back with A set, and D on a store, if it lacked them, and cached so.
  pub translate_iff :
      (levels va_bits : ℕ)
      → mode ≢ machine
      → addr < 2 ^ 64
      → IsPaged satp levels va_bits
      → IsCanonical va_bits addr
      → lookup tlb (addr / 2 ^ 12 % 2 ^ (9 * levels)) (satp / 2 ^ 44 % 2 ^ 16) ≡ none
      → (translate bus mode satp mstatus addr access m tlb ≡ (m', tlb', ok pa))
        ↔ Walked bus
            (asked mode satp mstatus addr access levels)
            levels
            (root satp)
            m
            tlb
            m'
            tlb'
            pa
  translate_iff levels va_bits virtual wide paged canonical miss =
      let q : Request = asked mode satp mstatus addr access levels in
      let (on, few, sizes) = IsPaged-paging_mode satp levels va_bits paged in
      let walks : translate bus mode satp mstatus addr access m tlb
          ≡ walk bus q levels (root satp) m tlb =
        translate-walk levels va_bits virtual on
          ((is_canonical_iff va_bits addr sizes wide).1 canonical)
          (request-asked mode satp mstatus addr access levels) (root_lem satp) miss in
      (
        λ h. walk-sound bus q levels (root satp) m tlb m' tlb' pa few (sym walks ∙ h),
        λ w. walks ∙ walk_complete bus q levels (root satp) m tlb m' tlb' pa few w,
      )

  -- With a TLB of 64 slots, every translation that succeeds keeps the offset in the 4 KiB page.
  pub translate_offset :
      IsTlb tlb
      → translate bus mode satp mstatus addr access m tlb ≡ (m', tlb', ok pa)
      → pa % page_size ≡ addr % page_size
  unfolding translate translate_paged
  translate_offset full h = elim (Option-cases (paging_mode (satp_mode satp))) [
    | inl bare ↦ ground arith
    | inr ((levels, va_bits), paged) ↦
        let q : Request = request mode satp mstatus addr access levels in
        ground (arith, look_up_or_walk_offset bus q levels satp m m' tlb tlb' pa full)
  ]
