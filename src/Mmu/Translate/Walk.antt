-- ===== src/Mmu/Translate/Walk.antt =====
-- riscv-vm/src/mmu.rs: the loop over the levels of the page table, against the paths through the
-- table that the privileged architecture describes.
use bavy.Prelude.{
  ℕ, zero, suc, ◌+◌, ◌*◌, ◌/◌, ◌%◌, ◌^◌, ◌<◌, ◌≡◌, refl, arith, Bool, true, false, not, ◌&&◌, ◌||◌,
  ok, err, Result-cases, Bool-cases, inl, inr,
}
use bavy.Prelude.Bits.{bit-lt, bit_shr_test, bit_and_mask, ◌>>>◌}
use bavy.Bus.{Bus}
use bavy.Cpu.Types.{Trap}
use bavy.Mmu.Tlb.{Tlb}
use bavy.Mmu.Pte.{is_invalid, is_pointer, pte_ppn, vpn_part}
use bavy.Mmu.Pte.Permission.{is_set}
use bavy.Mmu.Translate.{Request, leaf, walk}
use bavy.Mmu.Translate.Leaf.{leaf-err}

-- A usable PTE is valid and not the reserved W without R; with R or X it is a leaf.
unfoldable pub is_usable : ℕ → Bool
is_usable pte = is_set pte 0 && (is_set pte 1 || not (is_set pte 2))

unfoldable pub is_leaf : ℕ → Bool
is_leaf pte = is_set pte 1 || is_set pte 3

is_invalid_lem : (pte : ℕ) → is_invalid pte ≡ not (is_usable pte)
unfolding is_invalid is_usable
is_invalid_lem pte = ground (
  arith,
  bit_shr_test pte 0,
  bit_shr_test pte 1,
  bit_shr_test pte 2,
  bit-lt pte 0,
  bit-lt pte 1,
  bit-lt pte 2,
)

is_pointer_lem : (pte : ℕ) → is_pointer pte ≡ not (is_leaf pte)
unfolding is_pointer is_leaf
is_pointer_lem pte =
    ground (arith, bit_shr_test pte 1, bit_shr_test pte 3, bit-lt pte 1, bit-lt pte 3)

-- The nine bits of the address for a level, and the table that a PTE points to.
abbrev index_at : ℕ → ℕ → ℕ
index_at addr i = addr / 2 ^ (12 + 9 * i) % 2 ^ 9

abbrev pub table_of : ℕ → ℕ
table_of pte = pte / 2 ^ 10 % 2 ^ 44 * 2 ^ 12

vpn_part_lem : (addr i : ℕ) → vpn_part addr i ≡ index_at addr i
unfolding vpn_part
vpn_part_lem addr i = bit_and_mask 9 (addr >>> (12 + 9 * i))

pub pte_ppn_lem : (pte : ℕ) → pte_ppn pte ≡ pte / 2 ^ 10 % 2 ^ 44
unfolding pte_ppn
pte_ppn_lem pte = bit_and_mask 44 (pte >>> 10)

module _ (bus : Bus) (addr : ℕ) where
  abbrev slot : ℕ → ℕ → ℕ
  slot table i = table + index_at addr i * 8

  -- From the table at `table`, of level n - 1, the address leads through valid pointers to the
  -- leaf `pte`, which is of level `level` and stands at `pte_addr`. The loads are made in turn.
  pub data Leads (level pte_addr pte : ℕ) (end : bus.State) : ℕ → ℕ → bus.State → Type 0 where
    at_leaf :
        {n table : ℕ} {m : bus.State}
        → n ≡ level
        → bus.load m (slot table n) 8 ≡ (end, ok pte)
        → pte_addr ≡ slot table n
        → is_usable pte ≡ true
        → is_leaf pte ≡ true
        → Leads level pte_addr pte end (suc n) table m
    through :
        {n table : ℕ} {m m' : bus.State} (p : ℕ)
        → 0 < n
        → bus.load m (slot table n) 8 ≡ (m', ok p)
        → is_usable p ≡ true
        → is_leaf p ≡ false
        → Leads level pte_addr pte end n (table_of p) m'
        → Leads level pte_addr pte end (suc n) table m

module _ (bus : Bus) (q : Request) (tlb : Tlb) where
  -- The loop follows a path to its leaf, and there does what `leaf` does.
  pub walk-Leads :
      {level pte_addr pte : ℕ} {mid : bus.State} {n table : ℕ} {m : bus.State}
      → Leads bus q.addr level pte_addr pte mid n table m
      → walk bus q n table m tlb ≡ leaf bus q level pte_addr pte mid tlb
  unfolding walk
  walk-Leads {level = level} {pte = pte} (at_leaf e loaded here usable last) =
      ground (arith, is_invalid_lem pte, is_pointer_lem pte, vpn_part_lem q.addr level)
  walk-Leads {n = suc n} (through p above loaded usable pointer rest) = ground (
    arith,
    is_invalid_lem p,
    is_pointer_lem p,
    walk-Leads rest,
    vpn_part_lem q.addr n,
    pte_ppn_lem p,
  )

  -- Conversely a walk that succeeds has found a path, and `leaf` has succeeded at its end.
  pub walk-ok :
      (n table : ℕ) (m m' : bus.State) (tlb' : Tlb) (pa : ℕ)
      → walk bus q n table m tlb ≡ (m', tlb', ok pa)
      → (level : ℕ) × (pte_addr : ℕ) × (pte : ℕ) × (mid : bus.State) × Leads bus q.addr level
          pte_addr pte mid n table m
        × (leaf bus q level pte_addr pte mid tlb ≡ (m', tlb', ok pa))
  unfolding walk
  walk-ok zero table m m' tlb' pa h = absurd (ground arith)
  walk-ok (suc n) table m m' tlb' pa h =
      let slot_of = vpn_part_lem q.addr n in
      let here = slot bus q.addr table n in
      let mid = (bus.load m here 8).0 in
      elim (Result-cases (bus.load m here 8).1) [
        | inr (t, e) ↦ absurd (ground (arith, slot_of))
        | inl (pte, e) ↦
            let loaded : bus.load m here 8 ≡ (mid, ok pte) = λ i. (mid, e i) in
            let usable : is_usable pte ≡ true = ground (arith, is_invalid_lem pte, slot_of) in
            elim (Bool-cases (is_leaf pte)) [
              | inl last ↦ (
                n,
                here,
                pte,
                mid,
                at_leaf refl loaded refl usable last,
                ground (arith, is_invalid_lem pte, is_pointer_lem pte, slot_of),
              )
              | inr more ↦
                  let above : 0 < n = ground (arith, is_pointer_lem pte, slot_of) in
                  let next : walk bus q n (table_of pte) mid tlb ≡ (m', tlb', ok pa) =
                    ground
                      (arith, is_invalid_lem pte, is_pointer_lem pte, slot_of, pte_ppn_lem pte) in
                  let (level, pte_addr, found, end, path, at_end) =
                    walk-ok n (table_of pte) mid m' tlb' pa next in
                  (level, pte_addr, found, end, through pte above loaded usable more path, at_end)
            ]
      ]

  pub walk-err :
      (n table : ℕ) (m m' : bus.State) (tlb' : Tlb) (t : Trap)
      → walk bus q n table m tlb ≡ (m', tlb', err t)
      → tlb' ≡ tlb
  unfolding walk
  walk-err zero table m m' tlb' t h = ground arith
  walk-err (suc n) table m m' tlb' t h =
      let slot_of = vpn_part_lem q.addr n in
      let here = slot bus q.addr table n in
      let mid = (bus.load m here 8).0 in
      elim (Result-cases (bus.load m here 8).1) [
        | inr (t', e) ↦ ground (arith, slot_of)
        | inl (pte, e) ↦ ground (
          arith,
          leaf-err bus q n here pte mid tlb m' tlb' t,
          walk-err n (table_of pte) mid m' tlb' t,
          slot_of,
          pte_ppn_lem pte,
        )
      ]
