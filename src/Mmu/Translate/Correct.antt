-- ===== src/Mmu/Translate/Correct.antt =====
-- riscv-vm/src/mmu.rs: a walk against its specification.
use bavy.Prelude.{
  ℕ, zero, suc, ◌+◌, ◌*◌, ◌/◌, ◌%◌, ◌^◌, ◌≤◌, ◌<◌, ◌≡◌, refl, sym, ◌∙◌, arith, true, false, ok, inl,
  inr, ◌⊎◌, ap,
}
use bavy.Prelude.Bits.{bit_and_mask}
use native.Mathlib.Nat.{mod-add-div'}
use mathlib.Core.Path.{subst}
use bavy.Bus.{Bus}
use bavy.Mmu.Tlb
use bavy.Mmu.Tlb.{Tlb, TlbEntry, AccessType}
use bavy.Mmu.Pte.{is_misaligned, pte_ppn, page_size, physical, final_ppn}
use bavy.Mmu.Pte.Permission.{permits, check_permission-leaf_entry}
use bavy.Mmu.Pte.Address.{physical-final_ppn}
use bavy.Mmu.Translate.{Request, walk}
use bavy.Mmu.Translate.Leaf.{cached, leaf-ok, leaf_complete}
use bavy.Mmu.Translate.Marked.{
  IsEntry, IsEntry-unique, cached-IsEntry, IsWritten, IsMarked-IsWritten,
}
use bavy.Mmu.Translate.Walk.{table_of, pte_ppn_lem, Leads, at_leaf, through, walk-Leads, walk-ok}

Nat-cases : (n : ℕ) → (n ≡ 0) ⊎ (0 < n)
Nat-cases zero = inl refl
Nat-cases (suc n) = inr (omega arith)

is_misaligned_lem : (i pte : ℕ) → (is_misaligned i pte ≡ false) → pte_ppn pte % 2 ^ (9 * i) ≡ 0
unfolding is_misaligned
is_misaligned_lem i pte h = elim (Nat-cases i) [
  | inl e ↦ rw e (omega arith)
  | inr e ↦ ground (arith, bit_and_mask (9 * i) (pte_ppn pte))
]

aligned : (i pte : ℕ) → pte_ppn pte % 2 ^ (9 * i) ≡ 0 → is_misaligned i pte ≡ false
unfolding is_misaligned
aligned i pte h = ground (arith, bit_and_mask (9 * i) (pte_ppn pte))

Leads-level-lt :
    (bus : Bus) (addr : ℕ) {level pte_addr pte : ℕ} {mid : bus.State} {n table : ℕ} {m : bus.State}
    → Leads bus addr level pte_addr pte mid n table m
    → level < n
Leads-level-lt bus addr (at_leaf e loaded here usable last) = omega arith
Leads-level-lt bus addr (through p above loaded usable more rest) =
    omega (arith, Leads-level-lt bus addr rest)

-- On an aligned leaf the page's base is all of the PTE's PPN.
aligned_address :
    (i pte addr : ℕ)
    → i < 4
    → pte_ppn pte % 2 ^ (9 * i) ≡ 0
    → physical (final_ppn i pte addr) addr ≡ table_of pte + addr % (2 ^ (9 * i) * page_size)
aligned_address i pte addr h e =
    let base : pte_ppn pte / 2 ^ (9 * i) * 2 ^ (9 * i) ≡ pte_ppn pte =
      omega (arith, mod-add-div' (pte_ppn pte) (2 ^ (9 * i))) in
    rw (physical-final_ppn i pte addr h, base, pte_ppn_lem pte) refl

module _ (bus : Bus) (q : Request) (n table : ℕ) (m : bus.State) (tlb : Tlb) where
  -- A successful translation by the page table: a path to a leaf that the privileges permit and
  -- that is aligned for its level; the address in the page that the leaf names; the PTE written
  -- back with A set, and D on a store, if it lacked them; and the TLB entry for it inserted.
  pub record Walked (m' : bus.State) (tlb' : Tlb) (pa : ℕ) : Type 0 where
    pub level : ℕ
    pub pte_addr : ℕ
    pub pte : ℕ
    pub mid : bus.State
    pub entry : TlbEntry
    pub path : Leads bus q.addr level pte_addr pte mid n table m
    pub permitted : permits q.mode q.mstatus pte q.access ≡ true
    pub is_aligned : pte / 2 ^ 10 % 2 ^ 44 % 2 ^ (9 * level) ≡ 0
    pub written : IsWritten bus q.access pte_addr pte mid m'
    pub is_entry : IsEntry q level pte entry
    pub is_cached : tlb' ≡ Tlb.insert tlb entry
    pub address : pa ≡ pte / 2 ^ 10 % 2 ^ 44 * 2 ^ 12 + q.addr % (2 ^ (9 * level) * 2 ^ 12)

  -- Every successful walk of at most four levels is a correct translation.
  pub walk-sound :
      (m' : bus.State) (tlb' : Tlb) (pa : ℕ)
      → n ≤ 4
      → walk bus q n table m tlb ≡ (m', tlb', ok pa)
      → Walked m' tlb' pa
  walk-sound m' tlb' pa few h =
      let (level, pte_addr, pte, mid, path, at_end) = walk-ok bus q tlb n table m m' tlb' pa h in
      let (allowed, straight, marked, inserted, at) =
        leaf-ok bus q level pte_addr pte mid tlb m' tlb' pa at_end in
      let few_left : level < 4 = omega (arith, Leads-level-lt bus q.addr path) in
      let aligned_leaf : pte_ppn pte % 2 ^ (9 * level) ≡ 0 = is_misaligned_lem level pte straight in
      let is_aligned : pte / 2 ^ 10 % 2 ^ 44 % 2 ^ (9 * level) ≡ 0 =
        rw (sym (pte_ppn_lem pte)) aligned_leaf in
      record {
        level = level;
        pte_addr = pte_addr;
        pte = pte;
        mid = mid;
        path = path;
        permitted =
            sym (check_permission-leaf_entry q.mode q.mstatus q.vpn_full q.asid level pte q.access)
            ∙ allowed;
        is_aligned = is_aligned;
        written =
            subst (λ (T : Type 0). T) (IsMarked-IsWritten bus q level pte_addr pte mid tlb m')
              marked;
        entry = cached bus q level pte_addr pte mid tlb;
        is_entry = cached-IsEntry bus q level pte_addr pte mid tlb few_left is_aligned;
        is_cached = inserted;
        address = at ∙ aligned_address level pte q.addr few_left aligned_leaf;
      }

  -- The entry that is inserted is the one that the walk builds.
  pub Walked-cached :
      (m' : bus.State) (tlb' : Tlb) (pa : ℕ)
      → n ≤ 4
      → (w : Walked m' tlb' pa)
      → tlb' ≡ Tlb.insert tlb (cached bus q w.level w.pte_addr w.pte w.mid tlb)
  Walked-cached m' tlb' pa few w =
      let few_left : w.level < 4 = omega (arith, Leads-level-lt bus q.addr w.path) in
      w.is_cached
      ∙ ap (Tlb.insert tlb) (
          IsEntry-unique q w.level w.pte w.entry (cached bus q w.level w.pte_addr w.pte w.mid tlb)
            w.is_entry
            (cached-IsEntry bus q w.level w.pte_addr w.pte w.mid tlb few_left w.is_aligned))

  -- Every correct translation is what the walk returns.
  pub walk_complete :
      (m' : bus.State) (tlb' : Tlb) (pa : ℕ)
      → n ≤ 4
      → Walked m' tlb' pa
      → walk bus q n table m tlb ≡ (m', tlb', ok pa)
  walk_complete m' tlb' pa few w =
      let start = walk-Leads bus q tlb w.path in
      let allowed =
        check_permission-leaf_entry q.mode q.mstatus q.vpn_full q.asid w.level w.pte q.access
        ∙ w.permitted in
      let few_left : w.level < 4 = omega (arith, Leads-level-lt bus q.addr w.path) in
      let aligned_leaf : pte_ppn w.pte % 2 ^ (9 * w.level) ≡ 0 =
        rw (pte_ppn_lem w.pte) w.is_aligned in
      let marked =
        subst (λ (T : Type 0). T)
          (sym (IsMarked-IsWritten bus q w.level w.pte_addr w.pte w.mid tlb m')) w.written in
      let ends =
        leaf_complete bus q w.level w.pte_addr w.pte w.mid tlb m' allowed
          (aligned w.level w.pte aligned_leaf) marked in
      let at = aligned_address w.level w.pte q.addr few_left aligned_leaf in
      let inserted = Walked-cached m' tlb' pa few w in
      start ∙ ends ∙ λ i. (m', sym inserted i, ok ((at ∙ sym w.address) i))
