-- ===== src/Mmu/Tlb/Flush.antt =====
-- riscv-vm/src/mmu.rs: which translations each kind of flush removes.
use bavy.Prelude.{
  ℕ, ◌≡◌, refl, sym, ap, ◌∙◌, arith, Option, none, some, Bool, map, get_or, ◌==◌, not, ◌&&◌, ◌||◌,
  if◌then◌else◌, get_or-map,
}
use bavy.Prelude.Bits.{◌>>>◌}
use bavy.Mmu.Tlb.{
  TlbEntry, Tlb, index, entry_at, hits, global, lookup, flush, flush_asid, flush_va, flush_page,
  flush_asid_entry, u16, empty, invalidate,
}
use bavy.Mmu.Tlb.Lookup.{IsTlb, entry_at-set, lookup_lem}

entry_at-map :
    (f : TlbEntry → TlbEntry) (t : Tlb) (i : ℕ)
    → f empty ≡ empty
    → entry_at (record { entries = map f t.entries }) i ≡ f (entry_at t i)
unfolding entry_at
entry_at-map f t i e = ap (get_or (map f t.entries) i) (sym e) ∙ get_or-map f t.entries i empty

-- After a full flush every look-up misses.
pub lookup-flush : (t : Tlb) (vpn asid : ℕ) → lookup (flush t) vpn asid ≡ none
unfolding flush hits
lookup-flush t vpn asid =
    rw (lookup_lem (flush t) vpn asid, entry_at-map invalidate t (index vpn) refl) refl

-- What is left of a look-up's answer when the entries that meet the test are gone.
abbrev pub drop_if : (TlbEntry → Bool) → Option TlbEntry → Option TlbEntry
drop_if test none = none
drop_if test (some e) = if test e then none else some e

hits-flush_asid_entry :
    (e : TlbEntry) (vpn a asid : ℕ)
    → (if hits (flush_asid_entry a e) vpn asid then some (flush_asid_entry a e) else none)
      ≡ drop_if (λ e. not (global e) && e.asid == u16 a) (if hits e vpn asid then some e else none)
unfolding hits flush_asid_entry
hits-flush_asid_entry e vpn a asid = ground arith

flush_asid_entry-empty : (a : ℕ) → flush_asid_entry a empty ≡ empty
unfolding flush_asid_entry
flush_asid_entry-empty a = ground arith

entry_at-flush_asid :
    (t : Tlb) (a i : ℕ) → entry_at (flush_asid t a) i ≡ flush_asid_entry a (entry_at t i)
unfolding flush_asid
entry_at-flush_asid t a i = entry_at-map (flush_asid_entry a) t i (flush_asid_entry-empty a)

-- A flush by ASID removes the entries of that ASID but the global ones, and leaves every other
-- answer as it was.
pub lookup-flush_asid :
    (t : Tlb) (a vpn asid : ℕ)
    → lookup (flush_asid t a) vpn asid
      ≡ drop_if (λ e. not (global e) && e.asid == u16 a) (lookup t vpn asid)
lookup-flush_asid t a vpn asid =
    rw
      (
        lookup_lem (flush_asid t a) vpn asid,
        entry_at-flush_asid t a (index vpn),
        lookup_lem t vpn asid,
      )
      (hits-flush_asid_entry (entry_at t (index vpn)) vpn a asid)

entry_at-flush_va :
    (t : Tlb) (va i : ℕ)
    → IsTlb t
    → entry_at (flush_va t va) i ≡ (
        if index (va >>> 12) == i && (entry_at t i).vpn == (va >>> 12)
        then invalidate (entry_at t i)
        else entry_at t i)
unfolding flush_va
entry_at-flush_va t va i h =
    ground (arith, entry_at-set t (va >>> 12) (invalidate (entry_at t (index (va >>> 12)))) i h)

-- In a TLB of 64 slots, a flush by address makes exactly the look-ups of all of `va >> 12` miss,
-- and leaves every other answer as it was.
pub lookup-flush_va :
    (t : Tlb) (va vpn asid : ℕ)
    → IsTlb t
    → lookup (flush_va t va) vpn asid ≡ (if vpn == (va >>> 12) then none else lookup t vpn asid)
unfolding hits
lookup-flush_va t va vpn asid h = ground (
  arith,
  lookup_lem (flush_va t va) vpn asid,
  lookup_lem t vpn asid,
  entry_at-flush_va t va (index vpn) h,
)

entry_at-flush_page :
    (t : Tlb) (v a i : ℕ)
    → IsTlb t
    → entry_at (flush_page t v a) i ≡ (
        if index v == i && (hits (entry_at t i) v a)
        then invalidate (entry_at t i)
        else entry_at t i)
unfolding flush_page hits
entry_at-flush_page t v a i h =
    ground (arith, entry_at-set t v (invalidate (entry_at t (index v))) i h)

-- In a TLB of 64 slots, a flush of a page in an ASID removes that page's entry if it is global or
-- of the ASID, and leaves every other answer as it was.
lookup-flush_page :
    (t : Tlb) (v a vpn asid : ℕ)
    → IsTlb t
    → lookup (flush_page t v a) vpn asid ≡ (
        if vpn == v
        then drop_if (λ e. global e || e.asid == u16 a) (lookup t vpn asid)
        else lookup t vpn asid)
unfolding hits
lookup-flush_page t v a vpn asid h = ground (
  arith,
  lookup_lem (flush_page t v a) vpn asid,
  lookup_lem t vpn asid,
  entry_at-flush_page t v a (index vpn) h,
)
