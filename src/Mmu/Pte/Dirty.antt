-- ===== src/Mmu/Pte/Dirty.antt =====
-- riscv-vm/src/mmu.rs: the accessed and dirty bits that a walk sets.
use bavy.Prelude.{ℕ, ◌≡◌, refl, arith, false, not, ◌&&◌, ◌||◌, bit_or, ◌==◌, if◌then◌else◌}
use bavy.Prelude.Bits.{bit}
use bavy.Cpu.Types.{Mode}
use bavy.Mmu.Tlb
use bavy.Mmu.Tlb.{AccessType, TlbEntry}
use bavy.Mmu.Pte.{leaf_entry, check_permission_tlb, update_ad, is_store}
use bavy.Mmu.Pte.Permission.{
  is_set, bit-bit_or-pow, has_perm_lem, leaf_perm_bits, check_permission_lem,
}

update_ad-perm :
    (access : AccessType) (e : TlbEntry) (pte k : ℕ)
    → (4 == k) ≡ false
    → (5 == k) ≡ false
    → bit (update_ad access e pte).0.perm k ≡ bit e.perm k
unfolding update_ad Tlb.set_a Tlb.set_d
update_ad-perm access e pte k not_a not_d = ground (
  arith,
  bit-bit_or-pow e.perm 4 k,
  bit-bit_or-pow e.perm 5 k,
  bit-bit_or-pow (bit_or e.perm 16) 5 k,
)

-- Marking an entry changes nothing that the permission check reads, nor the key of the entry.
pub check_permission-update_ad :
    (mode : Mode) (mstatus : ℕ) (access later : AccessType) (e : TlbEntry) (pte ppn : ℕ)
    → check_permission_tlb mode mstatus (record (update_ad access e pte).0 { ppn = ppn }) later
      ≡ check_permission_tlb mode mstatus e later
check_permission-update_ad mode mstatus access later e pte ppn = ground (
  arith,
  check_permission_lem mode mstatus e later,
  check_permission_lem mode mstatus (record (update_ad access e pte).0 { ppn = ppn }) later,
  update_ad-perm access e pte 0 refl refl,
  update_ad-perm access e pte 1 refl refl,
  update_ad-perm access e pte 2 refl refl,
  update_ad-perm access e pte 3 refl refl,
)

pub update_ad-key :
    (access : AccessType) (e : TlbEntry) (pte : ℕ)
    → let e' = (update_ad access e pte).0 in
      (e'.vpn ≡ e.vpn) × (e'.asid ≡ e.asid) × (e'.valid ≡ e.valid)
unfolding update_ad Tlb.set_a Tlb.set_d
update_ad-key access e pte = ground arith

pub update_ad-level :
    (access : AccessType) (e : TlbEntry) (pte : ℕ) → (update_ad access e pte).0.level ≡ e.level
unfolding update_ad Tlb.set_a Tlb.set_d
update_ad-level access e pte = ground arith

-- The packed permissions after the marking.
pub bit-update_ad :
    (access : AccessType) (e : TlbEntry) (pte k : ℕ)
    → bit (update_ad access e pte).0.perm k
      ≡ (if k == 4 then 1 else if is_store access && k == 5 then 1 else bit e.perm k)
unfolding update_ad Tlb.a Tlb.d Tlb.set_a Tlb.set_d
bit-update_ad access e pte k = ground (
  arith,
  has_perm_lem 4 e,
  has_perm_lem 5 e,
  has_perm_lem 5 (Tlb.set_a e),
  bit-bit_or-pow e.perm 4 5,
  bit-bit_or-pow e.perm 4 k,
  bit-bit_or-pow e.perm 5 k,
  bit-bit_or-pow (bit_or e.perm 16) 5 k,
)

update_ad_bits :
    (access : AccessType) (e : TlbEntry) (pte k : ℕ)
    → is_set e.perm 4 ≡ is_set pte 6
    → is_set e.perm 5 ≡ is_set pte 7
    → ((update_ad access e pte).2 ≡ (not (is_set pte 6) || (is_store access && not (is_set pte 7))))
      × (bit (update_ad access e pte).1 k
          ≡ (if k == 6 then 1 else if is_store access && k == 7 then 1 else bit pte k))
unfolding update_ad Tlb.a Tlb.d Tlb.set_a
update_ad_bits access e pte k same_a same_d = ground (
  arith,
  has_perm_lem 4 e,
  has_perm_lem 5 e,
  has_perm_lem 5 (Tlb.set_a e),
  bit-bit_or-pow e.perm 4 5,
  bit-bit_or-pow pte 6 k,
  bit-bit_or-pow pte 7 k,
  bit-bit_or-pow (bit_or pte 64) 7 k,
)

-- The walk writes the PTE exactly if A is clear, or D is clear on a store; what it writes is the
-- PTE with A set, with D set too on a store, and with every other bit as it was.
pub update_ad_lem :
    (access : AccessType) (vpn asid i pte k : ℕ)
    → let marked = update_ad access (leaf_entry vpn asid i pte) pte in
      (marked.2 ≡ (not (is_set pte 6) || (is_store access && not (is_set pte 7))))
      × (bit marked.1 k
          ≡ (if k == 6 then 1 else if is_store access && k == 7 then 1 else bit pte k))
unfolding leaf_entry
update_ad_lem access vpn asid i pte k =
    let (_, _, _, _, same_a, same_d, _) = leaf_perm_bits pte in
    update_ad_bits access (leaf_entry vpn asid i pte) pte k same_a same_d
