-- ===== src/Mmu/Tests.antt =====
-- Runs of the MMU on a small memory, and the theorems at concrete inputs.
use bavy.Prelude.{
  ℕ, ◌+◌, ◌^◌, ◌≡◌, inl, refl, arith, true, Result, ok, err, none, List, [], ◌∷◌, ◌==◌,
  if◌then◌else◌, ◌↔◌, get_or, replicate, set,
}
use bavy.Prelude.Bits.{bit, ◌>>>◌}
use mathlib.Core.Path.{subst}
use bavy.Bus.{Bus}
use bavy.Cpu.Types.{Mode, user, supervisor, Trap, load_access_fault, load_page_fault}
use bavy.Mmu.Tlb
use bavy.Mmu.Tlb.{
  Tlb, TlbEntry, AccessType, load, store, instruction, lookup, insert, new, flush_va, flush_page,
  flush_asid, global, u16, hits, index,
}
use bavy.Mmu.Tlb.Lookup.{IsTlb, new-IsTlb, insert-IsTlb}
use bavy.Mmu.Tlb.Flush.{lookup-flush_va}
use bavy.Mmu.Pte.{
  physical, paging_mode, is_canonical, is_misaligned, pte_ppn, vpn_part, update_ad, final_ppn,
  is_invalid, is_pointer, leaf_entry, check_permission_tlb, page_fault, access_fault,
}
use bavy.Mmu.Translate.{Request, translate, translate_paged, look_up_or_walk, walk, leaf, finish}
use bavy.Mmu.Translate.Leaf.{cached}
use bavy.Mmu.Translate.Marked.{IsEntry, IsWritten, cached-IsEntry, needs_mark, marked_pte, set_bit}
use bavy.Mmu.Translate.Walk.{Leads, at_leaf, is_usable, is_leaf}
use bavy.Mmu.Pte.Permission.{permits, is_set, check_permission-leaf_entry}
use bavy.Mmu.Translate.Correct.{Walked}
use bavy.Mmu.Translate.Repeat.{translate_repeat, translate_fault}
use bavy.Mmu.Translate.Paged.{asked, root, translate_iff, store-after-load_not_dirty}

-- A memory of 64-bit words, which faults on every address that it has no word at.
abbrev find_word : ℕ → List (ℕ × ℕ) → Result ℕ Trap
find_word a [] = err (load_access_fault a)
find_word a ((b, v) ∷ rest) = if a == b then ok v else find_word a rest

abbrev put_word : ℕ → ℕ → List (ℕ × ℕ) → List (ℕ × ℕ)
put_word a v [] = []
put_word a v ((b, w) ∷ rest) = if a == b then (b, v) ∷ rest else (b, w) ∷ put_word a v rest

abbrev words : Bus
words = record {
  State = List (ℕ × ℕ);
  load = λ m a size. (m, find_word a m);
  store = λ m a size v. (put_word a v m, ok tt);
}

-- Sv39, ASID 5, root table at 0x1000. Its slot 1 maps a 1 GiB page of user memory, R and W but
-- neither A nor D, at 0x8000_0000.
abbrev satp5 : ℕ
satp5 = 0x8000_5000_0000_0001

abbrev giga : ℕ
giga = 0x2000_0017

abbrev tables : List (ℕ × ℕ)
tables = (0x1000, 0) ∷ (0x1008, giga) ∷ []

abbrev va1 : ℕ
va1 = 0x4000_1234

abbrev tables_after : List (ℕ × ℕ)
tables_after = (0x1000, 0) ∷ (0x1008, 0x2000_0057) ∷ []

abbrev entry1 : TlbEntry
entry1 = record { vpn = 0x40001; ppn = 0x80001; asid = 5; perm = 0x1b; level = 2; valid = true }

-- What the tests below compute with.
run : List (ℕ × ℕ) → Tlb → Mode → AccessType → ℕ → List (ℕ × ℕ) × Tlb × Result ℕ Trap
unfolding translate translate_paged look_up_or_walk walk leaf finish new replicate set get_or
    physical paging_mode is_canonical is_misaligned update_ad final_ppn is_invalid is_pointer
    pte_ppn vpn_part leaf_entry check_permission_tlb lookup insert page_fault access_fault Tlb.set_a
    Tlb.set_d Tlb.a Tlb.d Tlb.r Tlb.w Tlb.x Tlb.u
run m tlb mode access addr = translate words mode satp5 0 addr access m tlb

loads : run tables new user load va1 ≡ (tables_after, insert new entry1, ok 0x8000_1234)
unfolding run
loads = refl

-- The store after it hits the TLB, and D stays clear.
stores :
    run tables_after (insert new entry1) user store va1
    ≡ (tables_after, insert new entry1, ok 0x8000_1234)
unfolding run
stores = refl

not_for_supervisor : run tables new supervisor load va1 ≡ (tables, new, err (load_page_fault va1))
unfolding run
not_for_supervisor = refl

loads_lem :
    translate words user satp5 0 va1 load tables new
    ≡ (tables_after, insert new entry1, ok 0x8000_1234)
unfolding run
loads_lem = loads

translate_repeat_example :
    translate words user satp5 0 va1 load tables_after (insert new entry1)
    ≡ (tables_after, insert new entry1, ok 0x8000_1234)
translate_repeat_example =
    translate_repeat words user satp5 0 va1 load tables tables_after new (insert new entry1)
      0x8000_1234 new-IsTlb loads_lem

not_for_supervisor_lem :
    translate words supervisor satp5 0 va1 load tables new
    ≡ (tables, new, err (load_page_fault va1))
unfolding run
not_for_supervisor_lem = refl

translate_fault_example : new ≡ new
translate_fault_example =
    translate_fault words supervisor satp5 0 va1 load tables tables new new (load_page_fault va1)
      not_for_supervisor_lem

abbrev q1 : Request
q1 = asked user satp5 0 va1 load 3

path1 : Leads words va1 2 0x1008 giga tables 3 0x1000 tables
unfolding is_usable is_leaf bit
path1 = at_leaf refl refl refl refl refl

permits1 : (permits user 0 giga load ≡ true) × (permits user 0 giga store ≡ true)
unfolding permits bit
permits1 = (refl, refl)

written1 : IsWritten words load 0x1008 giga tables tables_after
unfolding needs_mark marked_pte bit
written1 = refl

entry1-IsEntry : IsEntry q1 2 giga entry1
entry1-IsEntry =
    subst (IsEntry q1 2 giga) run1
      (cached-IsEntry words q1 2 0x1008 giga tables new (omega arith) refl)
  where
    run1 : cached words q1 2 0x1008 giga tables new ≡ entry1
    run1 = unfold run in refl

abbrev walked1 :
    Walked words q1 3 (root satp5) tables new tables_after (insert new entry1) 0x8000_1234
walked1 = record {
  level = 2;
  pte_addr = 0x1008;
  pte = giga;
  mid = tables;
  entry = entry1;
  path = path1;
  permitted = permits1.0;
  is_aligned = refl;
  written = written1;
  is_entry = entry1-IsEntry;
  is_cached = refl;
  address = refl;
}

misses : lookup new q1.vpn_full q1.asid ≡ none
unfolding lookup new replicate get_or
misses = refl

translate_iff_example :
    (translate words user satp5 0 va1 load tables new
      ≡ (tables_after, insert new entry1, ok 0x8000_1234))
    ↔ Walked words q1 3 (root satp5) tables new tables_after (insert new entry1) 0x8000_1234
translate_iff_example =
    translate_iff words user satp5 0 va1 load tables tables_after new (insert new entry1)
      0x8000_1234 3 39 (λ e. cc) (omega arith) (inl (refl, refl, refl)) (inl (omega arith)) misses

clean1 : bit giga 7 ≡ 0
unfolding bit
clean1 = refl

store-after-load_example :
    (look_up_or_walk words q1 3 satp5 tables new
      ≡ (tables_after, insert new entry1, ok 0x8000_1234))
    × (if is_set giga 6
        then tables ≡ tables_after
        else words.store tables 0x1008 8 (giga + 2 ^ 6) ≡ (tables_after, ok tt))
    × (bit (set_bit 6 giga) 7 ≡ 0)
    × (look_up_or_walk words (record q1 { access = store }) 3 satp5 tables_after (insert new entry1)
        ≡ (tables_after, insert new entry1, ok 0x8000_1234))
store-after-load_example =
    store-after-load_not_dirty words q1 3 satp5 tables tables_after new (insert new entry1)
      0x8000_1234 (omega arith) new-IsTlb refl misses walked1 permits1.1 clean1

insert1-IsTlb : IsTlb (insert new entry1)
insert1-IsTlb = insert-IsTlb new entry1 new-IsTlb

lookup-flush_va_example :
    lookup (flush_va (insert new entry1) va1) 0x40001 5
    ≡ (if 0x40001 == (va1 >>> 12) then none else lookup (insert new entry1) 0x40001 5)
lookup-flush_va_example = lookup-flush_va (insert new entry1) va1 0x40001 5 insert1-IsTlb

check_permission_example :
    check_permission_tlb user 0 (leaf_entry 0x40001 5 2 giga) store ≡ permits user 0 giga store
check_permission_example = check_permission-leaf_entry user 0 0x40001 5 2 giga store
