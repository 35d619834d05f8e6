-- ===== src/Mmu/Translate/Repeat.antt =====
-- riscv-vm/src/mmu.rs: what the TLB answers after a translation.
use bavy.Prelude.{
  ℕ, ◌-◌, ◌*◌, ◌^◌, ◌≡◌, sym, ◌∙◌, arith, true, ok, err, Option-cases, inl, inr, bit_and, some,
}
use bavy.Bus.{Bus}
use bavy.Cpu.Types.{Mode, Trap}
use bavy.Mmu.Tlb.{Tlb, TlbEntry, AccessType, lookup, hits, insert}
use bavy.Mmu.Tlb.Lookup.{IsTlb, lookup-insert}
use bavy.Mmu.Pte.{final_ppn, physical, check_permission_tlb, leaf_entry, paging_mode, page_size}
use bavy.Mmu.Pte.Permission.{permits, check_permission-leaf_entry}
use bavy.Mmu.Pte.Dirty.{check_permission-update_ad, update_ad-key}
use bavy.Mmu.Translate.{
  request, satp_mode, Request, walk, look_up_or_walk, translate, translate_paged,
}
use bavy.Mmu.Translate.Leaf.{cached, leaf-ok}
use bavy.Mmu.Translate.Walk.{walk-ok, walk-err}

module _ (bus : Bus) (q : Request) where
  hits-cached :
      (level pte_addr pte : ℕ) (mid : bus.State) (tlb : Tlb)
      → hits (cached bus q level pte_addr pte mid tlb) q.vpn_full q.asid ≡ true
  unfolding hits leaf_entry
  hits-cached level pte_addr pte mid tlb =
      ground (arith, update_ad-key q.access (leaf_entry q.vpn_full q.asid level pte) pte)

  -- The entry that a walk caches answers the look-up that missed.
  pub lookup-cached :
      (level pte_addr pte : ℕ) (mid : bus.State) (tlb : Tlb)
      → IsTlb tlb
      → let e = cached bus q level pte_addr pte mid tlb in
        lookup (insert tlb e) q.vpn_full q.asid ≡ some e
  lookup-cached level pte_addr pte mid tlb full = ground (
    arith,
    lookup-insert tlb (cached bus q level pte_addr pte mid tlb) q.vpn_full q.asid full,
    hits-cached level pte_addr pte mid tlb,
  )

  -- It lets a later access pass exactly if the leaf does.
  pub check_permission-cached :
      (level pte_addr pte : ℕ) (mid : bus.State) (tlb : Tlb) (later : AccessType)
      → check_permission_tlb q.mode q.mstatus (cached bus q level pte_addr pte mid tlb) later
        ≡ permits q.mode q.mstatus pte later
  check_permission-cached level pte_addr pte mid tlb later =
      check_permission-update_ad q.mode q.mstatus q.access later
        (leaf_entry q.vpn_full q.asid level pte) pte (final_ppn level pte q.addr)
      ∙ check_permission-leaf_entry q.mode q.mstatus q.vpn_full q.asid level pte later

  -- After a translation the TLB has an entry that answers it.
  pub look_up_or_walk-cached :
      (levels satp : ℕ) (m m' : bus.State) (tlb tlb' : Tlb) (pa : ℕ)
      → IsTlb tlb
      → look_up_or_walk bus q levels satp m tlb ≡ (m', tlb', ok pa)
      → (e : TlbEntry) × (lookup tlb' q.vpn_full q.asid ≡ some e)
        × (physical e.ppn q.addr ≡ pa)
        × (check_permission_tlb q.mode q.mstatus e q.access ≡ true)
  unfolding look_up_or_walk
  look_up_or_walk-cached levels satp m m' tlb tlb' pa full h =
      elim (Option-cases (lookup tlb q.vpn_full q.asid)) [
        | inl miss ↦
            let root : ℕ = bit_and satp (2 ^ 44 - 1) * page_size in
            let walked : walk bus q levels root m tlb ≡ (m', tlb', ok pa) = ground arith in
            let (level, pte_addr, pte, mid, path, at_end) =
              walk-ok bus q tlb levels root m m' tlb' pa walked in
            let (allowed, _, _, inserted, address) =
              leaf-ok bus q level pte_addr pte mid tlb m' tlb' pa at_end in
            let e = cached bus q level pte_addr pte mid tlb in
            let permitted =
              check_permission-cached level pte_addr pte mid tlb q.access
              ∙ sym (
                  check_permission-leaf_entry q.mode q.mstatus q.vpn_full q.asid level pte q.access)
              ∙ allowed in
            (
              e,
              ground (arith, lookup-cached level pte_addr pte mid tlb full),
              sym address,
              permitted,
            )
        | inr (e, hit) ↦ (e, ground arith, ground arith, ground arith)
      ]

  look_up_or_walk_repeat :
      (levels satp : ℕ) (m m' : bus.State) (tlb tlb' : Tlb) (pa : ℕ)
      → IsTlb tlb
      → look_up_or_walk bus q levels satp m tlb ≡ (m', tlb', ok pa)
      → look_up_or_walk bus q levels satp m' tlb' ≡ (m', tlb', ok pa)
  unfolding look_up_or_walk
  look_up_or_walk_repeat levels satp m m' tlb tlb' pa full h =
      let (e, hit, address, allowed) = look_up_or_walk-cached levels satp m m' tlb tlb' pa full h in
      ground arith

  look_up_or_walk-err :
      (levels satp : ℕ) (m m' : bus.State) (tlb tlb' : Tlb) (t : Trap)
      → look_up_or_walk bus q levels satp m tlb ≡ (m', tlb', err t)
      → tlb' ≡ tlb
  unfolding look_up_or_walk
  look_up_or_walk-err levels satp m m' tlb tlb' t h =
      ground (arith, walk-err bus q tlb levels (bit_and satp (2 ^ 44 - 1) * page_size) m m' tlb' t)

module _ (bus : Bus) (mode : Mode) (satp mstatus addr : ℕ) (access : AccessType) where
  -- With a TLB of 64 slots, a translation that has succeeded succeeds again at once, with the same
  -- physical address, without touching the bus or the TLB.
  pub translate_repeat :
      (m m' : bus.State) (tlb tlb' : Tlb) (pa : ℕ)
      → IsTlb tlb
      → translate bus mode satp mstatus addr access m tlb ≡ (m', tlb', ok pa)
      → translate bus mode satp mstatus addr access m' tlb' ≡ (m', tlb', ok pa)
  unfolding translate translate_paged
  translate_repeat m m' tlb tlb' pa full h = elim (Option-cases (paging_mode (satp_mode satp))) [
    | inl bare ↦ ground arith
    | inr ((levels, va_bits), paged) ↦
        let q : Request = request mode satp mstatus addr access levels in
        ground (arith, look_up_or_walk_repeat bus q levels satp m m' tlb tlb' pa full)
  ]

  -- A translation that faults leaves the TLB as it was.
  pub translate_fault :
      (m m' : bus.State) (tlb tlb' : Tlb) (t : Trap)
      → translate bus mode satp mstatus addr access m tlb ≡ (m', tlb', err t)
      → tlb' ≡ tlb
  unfolding translate translate_paged
  translate_fault m m' tlb tlb' t h = elim (Option-cases (paging_mode (satp_mode satp))) [
    | inl bare ↦ ground arith
    | inr ((levels, va_bits), paged) ↦
        let q : Request = request mode satp mstatus addr access levels in
        ground (arith, look_up_or_walk-err bus q levels satp m m' tlb tlb' t)
  ]
