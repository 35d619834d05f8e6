-- ===== src/Mmu/Pte/Address.antt =====
-- riscv-vm/src/mmu.rs: the arithmetic of the physical address.
use bavy.Prelude.{
  ℕ, zero, suc, ◌+◌, ◌-◌, ◌*◌, ◌/◌, ◌%◌, ◌^◌, ◌≤◌, ◌<◌, ◌≡◌, refl, arith, true, ◌↔◌, ◌⊎◌, inl, inr,
}
use bavy.Prelude.Bits.{bit_and_mask, bit_or_fields, clear_low, ◌>>>◌}
use native.Mathlib.Nat.{mod-add-div', mod-lt, one-le-pow}
use bavy.Mmu.Pte.{pte_ppn, final_ppn, physical, page_size, is_canonical}

pub pte_ppn-lt : (pte : ℕ) → pte_ppn pte < 2 ^ 44
unfolding pte_ppn
pte_ppn-lt pte = omega (arith, bit_and_mask 44 (pte >>> 10))

pub physical_lem : (ppn addr : ℕ) → ppn < 2 ^ 52 → physical ppn addr ≡ ppn * 4096 + addr % 4096
unfolding physical
physical_lem ppn addr h = rw (bit_and_mask 12 addr) (
    let whole : ppn * 2 ^ 12 % 2 ^ 64 ≡ ppn * 2 ^ 12 = omega arith in
    rw (whole, bit_or_fields 12 ppn (addr % 2 ^ 12) (omega arith)) refl)

pub final_ppn_lem :
    (i pte addr : ℕ)
    → i < 4
    → final_ppn i pte addr ≡ pte_ppn pte / 2 ^ (9 * i) * 2 ^ (9 * i) + addr / 2 ^ 12 % 2 ^ (9 * i)
unfolding final_ppn
final_ppn_lem i pte addr h =
    let base : pte_ppn pte - pte_ppn pte % 2 ^ (9 * i) ≡ pte_ppn pte / 2 ^ (9 * i) * 2 ^ (9 * i) =
      omega (arith, mod-add-div' (pte_ppn pte) (2 ^ (9 * i))) in
    let wide : pte_ppn pte < 2 ^ 64 = omega (arith, pte_ppn-lt pte) in
    rw
      (
        clear_low 64 (9 * i) (pte_ppn pte) (omega arith) wide,
        bit_and_mask (9 * i) (addr >>> 12),
        base,
        bit_or_fields (9 * i) (pte_ppn pte / 2 ^ (9 * i)) (addr / 2 ^ 12 % 2 ^ (9 * i))
            (mod-lt (addr / 2 ^ 12) (one-le-pow (9 * i) 2 (omega arith))),
      )
      refl

page_split :
    (i base addr : ℕ)
    → i < 4
    → base < 2 ^ 44
    → let page = 2 ^ (9 * i) in
      let ppn = base / page * page + addr / 2 ^ 12 % page in
      (ppn < 2 ^ 52)
      × (ppn * page_size + addr % page_size
          ≡ base / page * page * page_size + addr % (page * page_size))
page_split zero base addr h fits = omega arith
page_split (suc zero) base addr h fits = omega arith
page_split (suc (suc zero)) base addr h fits = omega arith
page_split (suc (suc (suc zero))) base addr h fits = omega arith
page_split (suc (suc (suc (suc i)))) base addr h fits = absurd (omega arith)

-- The physical address of a page of level i (4 KiB, 2 MiB, 1 GiB, 512 GiB): the base that the PTE
-- names, rounded down to the page's size, and the address's offset in the page.
pub physical-final_ppn :
    (i pte addr : ℕ)
    → i < 4
    → physical (final_ppn i pte addr) addr
      ≡ pte_ppn pte / 2 ^ (9 * i) * 2 ^ (9 * i) * page_size + addr % (2 ^ (9 * i) * page_size)
physical-final_ppn i pte addr h =
    let (fits, whole) = page_split i (pte_ppn pte) addr h (pte_ppn-lt pte) in
    rw (final_ppn_lem i pte addr h) (
      rw
        (physical_lem (pte_ppn pte / 2 ^ (9 * i) * 2 ^ (9 * i) + addr / 2 ^ 12 % 2 ^ (9 * i)) addr
          fits)
        whole)

-- The offset in the 4 KiB page is kept, whatever the PPN.
pub physical_offset : (ppn addr : ℕ) → physical ppn addr % page_size ≡ addr % page_size
unfolding physical
physical_offset ppn addr =
    let low : ppn * 2 ^ 12 % 2 ^ 64 ≡ ppn % 2 ^ 52 * 2 ^ 12 = omega arith in
    rw (bit_and_mask 12 addr, low, bit_or_fields 12 (ppn % 2 ^ 52) (addr % 2 ^ 12) (omega arith))
      (omega arith)

-- Sv39 and Sv48 accept the addresses whose upper bits copy bit 38, or bit 47: the lower and the
-- upper half of the 64-bit space that 2 ^ va_bits addresses fill.
pub is_canonical_iff :
    (va_bits addr : ℕ)
    → (va_bits ≡ 39) ⊎ (va_bits ≡ 48)
    → addr < 2 ^ 64
    → (is_canonical va_bits addr ≡ true)
      ↔ ((addr < 2 ^ (va_bits - 1)) ⊎ (2 ^ 64 - 2 ^ (va_bits - 1) ≤ addr))
unfolding is_canonical
is_canonical_iff va_bits addr (inl e) h =
    rw e (ground (arith, clear_low 64 39 addr (omega arith) h, bit_and_mask 1 (addr >>> 38)))
is_canonical_iff va_bits addr (inr e) h =
    rw e (ground (arith, clear_low 64 48 addr (omega arith) h, bit_and_mask 1 (addr >>> 47)))
