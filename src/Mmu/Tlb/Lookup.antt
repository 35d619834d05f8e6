-- ===== src/Mmu/Tlb/Lookup.antt =====
-- riscv-vm/src/mmu.rs: what a look-up finds after an insertion.
use bavy.Prelude.{
  ℕ, ◌%◌, ◌<◌, ◌≡◌, refl, ◌∙◌, arith, none, some, true, ◌==◌, if◌then◌else◌, length, length-set,
  set, length-replicate, get_or-set,
}
use bavy.Prelude.Bits.{bit_and_mask}
use bavy.Mmu.Tlb.{TlbEntry, Tlb, tlb_size, new, index, entry_at, hits, lookup, insert}

-- The array keeps its 64 entries.
pub record IsTlb (t : Tlb) : Type 0 where
  pub full : length t.entries ≡ tlb_size

pub index-eq-mod : (vpn : ℕ) → index vpn ≡ vpn % 64
unfolding index
index-eq-mod vpn = bit_and_mask 6 vpn

pub index-lt : (vpn : ℕ) → index vpn < 64
index-lt vpn = omega (arith, index-eq-mod vpn)

pub new-IsTlb : IsTlb new
unfolding new
new-IsTlb = record { full = length-replicate tlb_size _ }

pub insert-IsTlb : (t : Tlb) (e : TlbEntry) → IsTlb t → IsTlb (insert t e)
unfolding insert
insert-IsTlb t e h = record { full = length-set t.entries (index e.vpn) e ∙ h.full }

-- An entry answers only for its own VPN.
pub hits-vpn : (e : TlbEntry) (vpn asid : ℕ) → hits e vpn asid ≡ true → e.vpn ≡ vpn
unfolding hits
hits-vpn e vpn asid h = ground arith

-- A write of the slot of a VPN changes that slot alone.
pub entry_at-set :
    (t : Tlb) (vpn : ℕ) (e : TlbEntry) (i : ℕ)
    → IsTlb t
    → entry_at (record { entries = set t.entries (index vpn) e }) i
      ≡ (if index vpn == i then e else entry_at t i)
unfolding entry_at
entry_at-set t vpn e i h =
    get_or-set t.entries (index vpn) i e _ (omega (arith, h.full, index-lt vpn))

pub lookup_lem :
    (t : Tlb) (vpn asid : ℕ)
    → lookup t vpn asid
      ≡ (if hits (entry_at t (index vpn)) vpn asid then some (entry_at t (index vpn)) else none)
unfolding lookup
lookup_lem t vpn asid = refl

-- In a TLB of 64 slots, after an insertion a look-up finds the new entry if that answers it; else
-- it misses if the new entry has displaced the slot, and finds what it found before if the slot is
-- another one.
pub lookup-insert :
    (t : Tlb) (e : TlbEntry) (vpn asid : ℕ)
    → IsTlb t
    → lookup (insert t e) vpn asid ≡ (
        if hits e vpn asid
        then some e
        else if index e.vpn == index vpn
        then none
        else lookup t vpn asid)
unfolding insert
lookup-insert t e vpn asid h = ground (
  arith,
  lookup_lem (insert t e) vpn asid,
  lookup_lem t vpn asid,
  entry_at-set t e.vpn e (index vpn) h,
  hits-vpn e vpn asid,
)
