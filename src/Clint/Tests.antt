-- ===== src/Clint/Tests.antt =====
-- The theorems on the core local interruptor at concrete inputs.
use bavy.Prelude.{
  ℕ, suc, ◌+◌, ◌*◌, ◌^◌, ◌≤◌, ◌≡◌, refl, arith, true, false, ◌==◌, leb, if◌then◌else◌, List, [],
  ◌∷◌, none, some, length, length-replicate, get_or-replicate,
}
use bavy.Clint.State.{
  Clint, max_harts, max_u64, with_harts, mtime, is_timer_pending, is_msip_pending,
  check_interrupts_for_hart, get_mtimecmp,
}
use bavy.Clint.Update.{Attempt, update_loop, update_loop_atomic, after_rounds}
use bavy.Clint.Mmio.{store, mtimecmp_offset}
use bavy.Clint.Time.{IsQuiet}
use bavy.Clint.Registers.{IsClint, check_interrupts-store_timer, get_mtimecmp-store_halves}

-- Four harts, started at 1000 ms.
abbrev four : Clint
four = with_harts 1000 4

four-IsClint : IsClint four
unfolding with_harts
four-IsClint = record {
  msips = length-replicate max_harts 0;
  timers = length-replicate max_harts max_u64;
  flags = length-replicate max_harts false;
  words = λ hart. omega (arith, get_or-replicate max_harts hart max_u64);
}

-- A weak exchange that fails without a cause.
abbrev spurious_once : List Attempt
spurious_once = record { stored = none; spurious = true } ∷ []

spurious_once-IsQuiet : IsQuiet spurious_once
unfolding IsQuiet
spurious_once-IsQuiet = (refl, tt)

none-IsQuiet : IsQuiet []
unfolding IsQuiet
none-IsQuiet = tt

check_interrupts-store_timer_example :
    check_interrupts_for_hart 1002 (store four [] (mtimecmp_offset + 2 * 8) 8 20000) 2 ≡ (
      is_msip_pending four 2,
      if ◌==◌ 2 2 then leb 20000 (mtime 1002 four) else is_timer_pending 1002 four 2,
    )
check_interrupts-store_timer_example =
    check_interrupts-store_timer 1002 four [] 2 2 20000 four-IsClint (omega arith)

get_mtimecmp-store_halves_example :
    get_mtimecmp
      (store (store four spurious_once (mtimecmp_offset + 8) 4 7) [] (mtimecmp_offset + 8 + 4) 4 3)
      1
    ≡ 3 * 2 ^ 32 + 7
get_mtimecmp-store_halves_example =
    get_mtimecmp-store_halves four spurious_once [] 1 1 7 3 four-IsClint (omega arith)
      spurious_once-IsQuiet none-IsQuiet

-- Another hart's store of 9 is kept below the new high half.
abbrev disturbed_once : List Attempt
disturbed_once = record { stored = some 9; spurious = false } ∷ []

update_loop_atomic_example :
    (n : ℕ) × (n ≤ length disturbed_once)
    × (after_rounds 4 disturbed_once (suc n) ≡ after_rounds 4 disturbed_once n)
    × (update_loop (λ w. w + 2 ^ 32) 4 disturbed_once
        ≡ after_rounds 4 disturbed_once (suc n) + 2 ^ 32)
update_loop_atomic_example = update_loop_atomic (λ w. w + 2 ^ 32) 4 disturbed_once
