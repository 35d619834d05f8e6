-- ===== src/Mmu/Translate/Leaf.antt =====
-- riscv-vm/src/mmu.rs: the end of a walk, at a leaf page table entry.
use bavy.Prelude.{ℕ, ◌≡◌, arith, Bool, true, false, ok, err, if◌then◌else◌}
use bavy.Bus.{Bus}
use bavy.Cpu.Types.{Trap}
use bavy.Mmu.Tlb
use bavy.Mmu.Tlb.{Tlb, TlbEntry, AccessType}
use bavy.Mmu.Pte.{check_permission_tlb, is_misaligned, update_ad, final_ppn, physical, leaf_entry}
use bavy.Mmu.Translate.{Request, leaf, finish}

module _ (bus : Bus) (q : Request) (i pte_addr pte : ℕ) (m : bus.State) (tlb : Tlb) where
  abbrev pub entry : TlbEntry
  entry = leaf_entry q.vpn_full q.asid i pte

  -- The marked entry, the PTE with A/D set, and whether it is written.
  abbrev pub marked : TlbEntry × ℕ × Bool
  marked = update_ad q.access entry pte

  abbrev pub cached : TlbEntry
  cached = record marked.0 { ppn = final_ppn i pte q.addr }

  abbrev pub IsMarked : bus.State → Type 0
  IsMarked m' = if marked.2 then bus.store m pte_addr 8 marked.1 ≡ (m', ok tt) else m ≡ m'

  pub leaf-ok :
      (m' : bus.State) (tlb' : Tlb) (pa : ℕ)
      → leaf bus q i pte_addr pte m tlb ≡ (m', tlb', ok pa)
      → (check_permission_tlb q.mode q.mstatus entry q.access ≡ true)
        × (is_misaligned i pte ≡ false)
        × IsMarked m'
        × (tlb' ≡ Tlb.insert tlb cached)
        × (pa ≡ physical (final_ppn i pte q.addr) q.addr)
  unfolding leaf finish
  leaf-ok m' tlb' pa h = ground arith

  pub leaf_complete :
      (m' : bus.State)
      → check_permission_tlb q.mode q.mstatus entry q.access ≡ true
      → is_misaligned i pte ≡ false
      → IsMarked m'
      → leaf bus q i pte_addr pte m tlb
        ≡ (m', Tlb.insert tlb cached, ok (physical (final_ppn i pte q.addr) q.addr))
  unfolding leaf finish
  leaf_complete m' permitted aligned written = ground arith

  pub leaf-err :
      (m' : bus.State) (tlb' : Tlb) (t : Trap)
      → leaf bus q i pte_addr pte m tlb ≡ (m', tlb', err t)
      → tlb' ≡ tlb
  unfolding leaf finish
  leaf-err m' tlb' t h = ground arith
