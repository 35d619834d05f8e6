-- ===== src/Mmu/Translate/Marked.antt =====
-- riscv-vm/src/mmu.rs: the page table entry with its A and D bits set, and the entry of the TLB that
-- stands for it.
use bavy.Prelude.{
  ℕ, zero, suc, ◌+◌, ◌*◌, ◌/◌, ◌%◌, ◌^◌, ◌<◌, ◌≡◌, refl, sym, ap, ◌∙◌, arith, Bool, true, false,
  Bool-cases, inl, inr, ok, not, ◌&&◌, ◌||◌, bit_or, ◌==◌, if◌then◌else◌,
}
use bavy.Prelude.Bits.{bit, bit-lt, bit_ext, bit_or-gap, bit-eq-shr, bit-beyond}
use native.Mathlib.Nat.{mod-add-div'}
use mathlib.Core.Path.{subst}
use bavy.Bus.{Bus}
use bavy.Mmu.Tlb
use bavy.Mmu.Tlb.{TlbEntry, AccessType, instruction, load, store}
use bavy.Mmu.Pte.{pte_ppn, leaf_entry, leaf_perm, update_ad, is_store}
use bavy.Mmu.Pte.Permission.{is_set, bit-bit_or-pow, bit-leaf_perm, leaf_perm-lt}
use bavy.Mmu.Pte.Dirty.{update_ad_lem, bit-update_ad, update_ad-key, update_ad-level}
use bavy.Mmu.Pte.Address.{final_ppn_lem}
use bavy.Mmu.Translate.{Request}
use bavy.Mmu.Translate.Leaf.{cached, IsMarked}
use bavy.Mmu.Translate.Walk.{pte_ppn_lem}

-- The accesses that set D.
abbrev pub writes : AccessType → Bool
writes instruction = false
writes load = false
writes store = true

abbrev pub set_bit : ℕ → ℕ → ℕ
set_bit k n = if is_set n k then n else n + 2 ^ k

-- The PTE with A set, and D on a store; and whether it is not so yet.
unfoldable pub marked_pte : AccessType → ℕ → ℕ
marked_pte access pte = if writes access then set_bit 7 (set_bit 6 pte) else set_bit 6 pte

unfoldable pub needs_mark : AccessType → ℕ → Bool
needs_mark access pte = not (is_set pte 6) || (writes access && not (is_set pte 7))

bit_or-pow : (n k : ℕ) → bit_or n (2 ^ k) ≡ set_bit k n
bit_or-pow n k = elim (Bool-cases (is_set n k)) [
  | inl e ↦ rw e (bit_ext (bit_or n (2 ^ k)) n (λ i. ground (arith, bit-bit_or-pow n k i, e)))
  | inr e ↦ rw e (
      let free : n / 2 ^ k % 2 ^ 1 ≡ 0 = ground (arith, e, bit-lt n k, bit-eq-shr n k) in
      let one : 1 * 2 ^ k ≡ 2 ^ k = omega arith in
      ap (bit_or n) (sym one) ∙ bit_or-gap k 1 n 1 free (omega arith) ∙ ap (λ p. n + p) one)
]

is_store-writes : (access : AccessType) → is_store access ≡ writes access
is_store-writes instruction = refl
is_store-writes load = refl
is_store-writes store = refl

-- The code sets the bits so.
bit-marked_pte :
    (access : AccessType) (pte k : ℕ)
    → bit (marked_pte access pte) k
      ≡ (if k == 6 then 1 else if writes access && k == 7 then 1 else bit pte k)
unfolding marked_pte
bit-marked_pte access pte k =
    rw (sym (bit_or-pow (set_bit 6 pte) 7), sym (bit_or-pow pte 6))
      (ground
        (arith, bit-bit_or-pow pte 6 k, bit-bit_or-pow pte 7 k, bit-bit_or-pow (bit_or pte 64) 7 k))

pub update_ad-marked_pte :
    (access : AccessType) (vpn asid i pte : ℕ)
    → (update_ad access (leaf_entry vpn asid i pte) pte).1 ≡ marked_pte access pte
update_ad-marked_pte access vpn asid i pte = bit_ext _ (marked_pte access pte) (λ k. ground (
  arith,
  (update_ad_lem access vpn asid i pte k).1,
  bit-marked_pte access pte k,
  is_store-writes access,
))

pub update_ad-needs_mark :
    (access : AccessType) (vpn asid i pte : ℕ)
    → (update_ad access (leaf_entry vpn asid i pte) pte).2 ≡ needs_mark access pte
unfolding needs_mark
update_ad-needs_mark access vpn asid i pte =
    rw (sym (is_store-writes access)) ((update_ad_lem access vpn asid i pte 0).0)

-- The packed permissions of a PTE: R, W, X, U, A, D and G.
unfoldable pub perm_bit : ℕ → ℕ → ℕ
perm_bit pte k =
    if k == 0
    then bit pte 1
    else if k == 1
    then bit pte 2
    else if k == 2
    then bit pte 3
    else if k == 3
    then bit pte 4
    else if k == 4
    then bit pte 6
    else if k == 5
    then bit pte 7
    else if k == 6
    then bit pte 5
    else 0

perm_bit-leaf_perm : (pte k : ℕ) → bit (leaf_perm pte) k ≡ perm_bit pte k
unfolding perm_bit
perm_bit-leaf_perm pte zero = ground (arith, bit-leaf_perm pte 0, bit-lt pte 1)
perm_bit-leaf_perm pte (suc (zero)) = ground (arith, bit-leaf_perm pte 1, bit-lt pte 2)
perm_bit-leaf_perm pte (suc (suc (zero))) = ground (arith, bit-leaf_perm pte 2, bit-lt pte 3)
perm_bit-leaf_perm pte (suc (suc (suc (zero)))) = ground (arith, bit-leaf_perm pte 3, bit-lt pte 4)
perm_bit-leaf_perm pte (suc (suc (suc (suc (zero))))) =
    ground (arith, bit-leaf_perm pte 4, bit-lt pte 6)
perm_bit-leaf_perm pte (suc (suc (suc (suc (suc (zero)))))) =
    ground (arith, bit-leaf_perm pte 5, bit-lt pte 7)
perm_bit-leaf_perm pte (suc (suc (suc (suc (suc (suc (zero))))))) =
    ground (arith, bit-leaf_perm pte 6, bit-lt pte 5)
perm_bit-leaf_perm pte (suc (suc (suc (suc (suc (suc (suc (k)))))))) =
    let beyond : bit (leaf_perm pte) (k + 7) ≡ 0 =
      bit-beyond 7 (leaf_perm pte) (k + 7) (leaf_perm-lt pte) (omega arith) in
    ground (arith, beyond)

perm_bit-marked_pte :
    (access : AccessType) (pte k : ℕ)
    → (if k == 4 then 1 else if is_store access && k == 5 then 1 else perm_bit pte k)
      ≡ perm_bit (marked_pte access pte) k
unfolding perm_bit
perm_bit-marked_pte access pte zero =
    ground (arith, bit-marked_pte access pte 1, is_store-writes access)
perm_bit-marked_pte access pte (suc (zero)) =
    ground (arith, bit-marked_pte access pte 2, is_store-writes access)
perm_bit-marked_pte access pte (suc (suc (zero))) =
    ground (arith, bit-marked_pte access pte 3, is_store-writes access)
perm_bit-marked_pte access pte (suc (suc (suc (zero)))) =
    ground (arith, bit-marked_pte access pte 4, is_store-writes access)
perm_bit-marked_pte access pte (suc (suc (suc (suc (zero))))) =
    ground (arith, bit-marked_pte access pte 6, is_store-writes access)
perm_bit-marked_pte access pte (suc (suc (suc (suc (suc (zero)))))) =
    ground (arith, bit-marked_pte access pte 7, is_store-writes access)
perm_bit-marked_pte access pte (suc (suc (suc (suc (suc (suc (zero))))))) =
    ground (arith, bit-marked_pte access pte 5, is_store-writes access)
perm_bit-marked_pte access pte (suc (suc (suc (suc (suc (suc (suc (k)))))))) = ground arith

-- The entry for a leaf at a level: its 4 KiB page of the address, and the permissions of the PTE as
-- the access has marked it.
pub record IsEntry (q : Request) (depth pte : ℕ) (e : TlbEntry) : Type 0 where
  pub vpn : e.vpn ≡ q.vpn_full
  pub ppn : e.ppn ≡ pte / 2 ^ 10 % 2 ^ 44 + q.addr / 2 ^ 12 % 2 ^ (9 * depth)
  pub asid : e.asid ≡ q.asid % 2 ^ 16
  pub perm : (k : ℕ) → bit e.perm k ≡ perm_bit (marked_pte q.access pte) k
  pub level : e.level ≡ depth
  pub valid : e.valid ≡ true

pub IsEntry-unique :
    (q : Request) (level pte : ℕ) (e e' : TlbEntry)
    → IsEntry q level pte e
    → IsEntry q level pte e'
    → e ≡ e'
IsEntry-unique q level pte e e' h h' =
    let perms : e.perm ≡ e'.perm = bit_ext e.perm e'.perm (λ k. h.perm k ∙ sym (h'.perm k)) in
    λ i. record {
      vpn = (h.vpn ∙ sym h'.vpn) i;
      ppn = (h.ppn ∙ sym h'.ppn) i;
      asid = (h.asid ∙ sym h'.asid) i;
      perm = perms i;
      level = (h.level ∙ sym h'.level) i;
      valid = (h.valid ∙ sym h'.valid) i;
    }

pub cached-IsEntry :
    (bus : Bus) (q : Request) (level pte_addr pte : ℕ) (mid : bus.State) (tlb : Tlb.Tlb)
    → level < 4
    → pte / 2 ^ 10 % 2 ^ 44 % 2 ^ (9 * level) ≡ 0
    → IsEntry q level pte (cached bus q level pte_addr pte mid tlb)
unfolding leaf_entry
cached-IsEntry bus q level pte_addr pte mid tlb few aligned =
    let entry : TlbEntry = leaf_entry q.vpn_full q.asid level pte in
    let (vpn, asid, valid) = update_ad-key q.access entry pte in
    let aligned_ppn : pte_ppn pte % 2 ^ (9 * level) ≡ 0 = rw (pte_ppn_lem pte) aligned in
    let base : pte_ppn pte / 2 ^ (9 * level) * 2 ^ (9 * level) ≡ pte_ppn pte =
      omega (arith, mod-add-div' (pte_ppn pte) (2 ^ (9 * level)), aligned_ppn) in
    record {
      vpn = vpn;
      ppn =
          final_ppn_lem level pte q.addr few
          ∙ ap (λ n. n + q.addr / 2 ^ 12 % 2 ^ (9 * level)) (base ∙ pte_ppn_lem pte);
      asid = asid;
      perm = λ k.
          bit-update_ad q.access entry pte k
          ∙ ap (λ b. if k == 4 then 1 else if is_store q.access && k == 5 then 1 else b)
              (perm_bit-leaf_perm pte k)
          ∙ perm_bit-marked_pte q.access pte k;
      level = update_ad-level q.access entry pte;
      valid = valid;
    }

-- What the walk does to memory at the leaf.
abbrev pub IsWritten : (bus : Bus) → AccessType → ℕ → ℕ → bus.State → bus.State → Type 0
IsWritten bus access pte_addr pte m m' =
    if needs_mark access pte
    then bus.store m pte_addr 8 (marked_pte access pte) ≡ (m', ok tt)
    else m ≡ m'

pub IsMarked-IsWritten :
    (bus : Bus) (q : Request) (i pte_addr pte : ℕ) (m : bus.State) (tlb : Tlb.Tlb) (m' : bus.State)
    → IsMarked bus q i pte_addr pte m tlb m' ≡ IsWritten bus q.access pte_addr pte m m'
IsMarked-IsWritten bus q i pte_addr pte m tlb m' =
    rw
      (
        update_ad-needs_mark q.access q.vpn_full q.asid i pte,
        update_ad-marked_pte q.access q.vpn_full q.asid i pte,
      )
      refl

-- A load sets at most A.
pub IsWritten-load :
    (bus : Bus) (pte_addr pte : ℕ) (m m' : bus.State)
    → IsWritten bus load pte_addr pte m m'
    → if is_set pte 6 then m ≡ m' else bus.store m pte_addr 8 (pte + 2 ^ 6) ≡ (m', ok tt)
unfolding needs_mark marked_pte
IsWritten-load bus pte_addr pte m m' h =
    let Written = λ (b : Bool).
      (if not b || (false && not (is_set pte 7))
        then bus.store m pte_addr 8 (if b then pte else pte + 2 ^ 6) ≡ (m', ok tt)
        else m ≡ m') in
    elim (Bool-cases (is_set pte 6)) [
      | inl e ↦ rw e (subst Written e h)
      | inr e ↦ rw e (subst Written e h)
    ]

pub marked_pte-load : (pte : ℕ) → bit pte 7 ≡ 0 → bit (set_bit 6 pte) 7 ≡ 0
unfolding marked_pte
marked_pte-load pte clean = bit-marked_pte load pte 7 ∙ clean
