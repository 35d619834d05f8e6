-- ===== src/Mmu/Pte/Permission.antt =====
-- riscv-vm/src/mmu.rs: the packed permissions and the permission check, read off the bits of the
-- page table entry.
use bavy.Prelude.{
  ℕ, ◌<◌, ◌≡◌, refl, arith, Bool, true, not, ◌&&◌, ◌||◌, bit_and, bit_or, ◌==◌, if◌then◌else◌, ◌^◌,
}
use bavy.Prelude.Bits.{
  bit, bit-lt, bit-bit_or, bit-pow, bit_and-pow_test, bit_shr_test, bit-zero, bit_or-lt, two_pow-lt,
}
use bavy.Cpu.Types.{Mode, user, supervisor, machine}
use bavy.Mmu.Tlb
use bavy.Mmu.Tlb.{
  AccessType, instruction, load, store, TlbEntry, perm_r, perm_w, perm_x, perm_u, perm_g, perm_a,
}
use bavy.Mmu.Pte.{leaf_perm, leaf_entry, check_permission_tlb, pte_bit, add_perm}

-- Whether bit k of a number is set.
abbrev pub is_set : ℕ → ℕ → Bool
is_set n k = bit n k == 1

pub has_perm_lem : (k : ℕ) (e : TlbEntry) → not (bit_and e.perm (2 ^ k) == 0) ≡ is_set e.perm k
has_perm_lem k e = ground (arith, bit_and-pow_test e.perm k, bit-lt e.perm k)

pub bit-bit_or-pow : (p j k : ℕ) → bit (bit_or p (2 ^ j)) k ≡ (if j == k then 1 else bit p k)
bit-bit_or-pow p j k = ground (arith, bit-bit_or p (2 ^ j) k, bit-pow j k, bit-lt p k)

bit-add_perm :
    (b j p k : ℕ) → bit (add_perm b (2 ^ j) p) k ≡ (if not (b == 0) && j == k then 1 else bit p k)
bit-add_perm b j p k = ground (arith, bit-bit_or-pow p j k)

-- The packed bits before any is read at an index: the last one added counts.
pub bit-leaf_perm :
    (pte k : ℕ)
    → bit (leaf_perm pte) k ≡ (
        if not (bit pte 7 == 0) && 5 == k
        then 1
        else if not (bit pte 6 == 0) && 4 == k
        then 1
        else if not (bit pte 5 == 0) && 6 == k
        then 1
        else if not (bit pte 4 == 0) && 3 == k
        then 1
        else if not (bit pte 3 == 0) && 2 == k
        then 1
        else if not (bit pte 2 == 0) && 1 == k
        then 1
        else if not (bit pte 1 == 0) && 0 == k
        then 1
        else 0)
unfolding leaf_perm
bit-leaf_perm pte k =
    let p1 = add_perm (pte_bit pte 1) perm_r 0 in
    let p2 = add_perm (pte_bit pte 2) perm_w p1 in
    let p3 = add_perm (pte_bit pte 3) perm_x p2 in
    let p4 = add_perm (pte_bit pte 4) perm_u p3 in
    let p5 = add_perm (pte_bit pte 5) perm_g p4 in
    let p6 = add_perm (pte_bit pte 6) perm_a p5 in
    rw
      (
        bit-add_perm (pte_bit pte 7) 5 p6 k,
        bit-add_perm (pte_bit pte 6) 4 p5 k,
        bit-add_perm (pte_bit pte 5) 6 p4 k,
        bit-add_perm (pte_bit pte 4) 3 p3 k,
        bit-add_perm (pte_bit pte 3) 2 p2 k,
        bit-add_perm (pte_bit pte 2) 1 p1 k,
        bit-add_perm (pte_bit pte 1) 0 0 k,
        bit-zero k,
        bit_shr_test pte 7,
        bit_shr_test pte 6,
        bit_shr_test pte 5,
        bit_shr_test pte 4,
        bit_shr_test pte 3,
        bit_shr_test pte 2,
        bit_shr_test pte 1,
      )
      refl

add_perm-lt : (b j p : ℕ) → j < 7 → p < 2 ^ 7 → add_perm b (2 ^ j) p < 2 ^ 7
add_perm-lt b j p few fits =
    let small : 2 ^ j < 2 ^ 7 = two_pow-lt few in ground (arith, bit_or-lt 7 p (2 ^ j) fits small)

pub leaf_perm-lt : (pte : ℕ) → leaf_perm pte < 2 ^ 7
unfolding leaf_perm
leaf_perm-lt pte =
    let p1 = add_perm (pte_bit pte 1) (2 ^ 0) 0 in
    let fits1 = add_perm-lt (pte_bit pte 1) 0 0 (omega arith) (omega arith) in
    let p2 = add_perm (pte_bit pte 2) (2 ^ 1) p1 in
    let fits2 = add_perm-lt (pte_bit pte 2) 1 p1 (omega arith) fits1 in
    let p3 = add_perm (pte_bit pte 3) (2 ^ 2) p2 in
    let fits3 = add_perm-lt (pte_bit pte 3) 2 p2 (omega arith) fits2 in
    let p4 = add_perm (pte_bit pte 4) (2 ^ 3) p3 in
    let fits4 = add_perm-lt (pte_bit pte 4) 3 p3 (omega arith) fits3 in
    let p5 = add_perm (pte_bit pte 5) (2 ^ 6) p4 in
    let fits5 = add_perm-lt (pte_bit pte 5) 6 p4 (omega arith) fits4 in
    let p6 = add_perm (pte_bit pte 6) (2 ^ 4) p5 in
    let fits6 = add_perm-lt (pte_bit pte 6) 4 p5 (omega arith) fits5 in
    let p7 = add_perm (pte_bit pte 7) (2 ^ 5) p6 in
    let fits7 = add_perm-lt (pte_bit pte 7) 5 p6 (omega arith) fits6 in fits7

pub leaf_perm_bits :
    (pte : ℕ)
    → (is_set (leaf_perm pte) 0 ≡ is_set pte 1)
      × (is_set (leaf_perm pte) 1 ≡ is_set pte 2)
      × (is_set (leaf_perm pte) 2 ≡ is_set pte 3)
      × (is_set (leaf_perm pte) 3 ≡ is_set pte 4)
      × (is_set (leaf_perm pte) 4 ≡ is_set pte 6)
      × (is_set (leaf_perm pte) 5 ≡ is_set pte 7)
      × (is_set (leaf_perm pte) 6 ≡ is_set pte 5)
leaf_perm_bits pte = (
  ground (arith, bit-leaf_perm pte 0, bit-lt pte 1),
  ground (arith, bit-leaf_perm pte 1, bit-lt pte 2),
  ground (arith, bit-leaf_perm pte 2, bit-lt pte 3),
  ground (arith, bit-leaf_perm pte 3, bit-lt pte 4),
  ground (arith, bit-leaf_perm pte 4, bit-lt pte 6),
  ground (arith, bit-leaf_perm pte 5, bit-lt pte 7),
  ground (arith, bit-leaf_perm pte 6, bit-lt pte 5),
)

-- The rule of the privileged architecture, on the bits of a leaf page table entry: U pages are
-- for user mode, and with SUM for supervisor data accesses; MXR makes executable pages readable.
pub mode_permits : Mode → Bool → Bool → AccessType → Bool
mode_permits user user_page sum access = user_page
mode_permits machine user_page sum access = true
mode_permits supervisor user_page sum instruction = not user_page
mode_permits supervisor user_page sum load = not user_page || sum
mode_permits supervisor user_page sum store = not user_page || sum

pub access_permits : AccessType → Bool → Bool → Bool → Bool → Bool
access_permits instruction mxr readable writable executable = executable
access_permits load mxr readable writable executable = readable || (mxr && executable)
access_permits store mxr readable writable executable = writable

unfoldable pub permits : Mode → ℕ → ℕ → AccessType → Bool
unfolding mode_permits access_permits
permits mode mstatus pte access =
    mode_permits mode (is_set pte 4) (is_set mstatus 18) access
    && access_permits access (is_set mstatus 19) (is_set pte 1) (is_set pte 2) (is_set pte 3)

-- The check reads four bits of the packed permissions.
pub check_permission_lem :
    (mode : Mode) (mstatus : ℕ) (e : TlbEntry) (access : AccessType)
    → check_permission_tlb mode mstatus e access ≡ (
        mode_permits mode (is_set e.perm 3) (is_set mstatus 18) access
        && access_permits access
            (is_set mstatus 19)
            (is_set e.perm 0)
            (is_set e.perm 1)
            (is_set e.perm 2))
unfolding check_permission_tlb mode_permits access_permits Tlb.u Tlb.r Tlb.w Tlb.x
check_permission_lem mode mstatus e access = ground (
  arith,
  has_perm_lem 0 e,
  has_perm_lem 1 e,
  has_perm_lem 2 e,
  has_perm_lem 3 e,
  bit_shr_test mstatus 18,
  bit-lt mstatus 18,
  bit_shr_test mstatus 19,
)

-- A freshly built entry is checked by the architecture's rule on the bits of its PTE.
pub check_permission-leaf_entry :
    (mode : Mode) (mstatus vpn asid i pte : ℕ) (access : AccessType)
    → check_permission_tlb mode mstatus (leaf_entry vpn asid i pte) access
      ≡ permits mode mstatus pte access
unfolding permits leaf_entry
check_permission-leaf_entry mode mstatus vpn asid i pte access =
    let (r, w, x, u, _, _, _) = leaf_perm_bits pte in
    rw (check_permission_lem mode mstatus (leaf_entry vpn asid i pte) access, r, w, x, u) refl
