-- ===== src/Clint/Update.antt =====
-- riscv-vm/src/devices/clint.rs: the compare-exchange loop of `set_mtimecmp_low` and
-- `set_mtimecmp_high`, under the stores of other harts.
use bavy.Prelude.{
  ℕ, zero, suc, ◌≤◌, ◌≡◌, refl, arith, Bool, not, ◌&&◌, ◌==◌, if◌then◌else◌, Bool-cases, inl, inr,
  List, [], ◌∷◌, Option, none, some, length,
}

-- A round of the loop that another hart may disturb: what it stores between the load and the
-- exchange, and whether the weak exchange fails without a cause.
pub record Attempt : Type 0 where
  pub stored : Option ℕ
  pub spurious : Bool

-- The word after another hart's store.
abbrev pub disturbed : ℕ → Attempt → ℕ
disturbed word a = elim a.stored [ none ↦ word | some v ↦ v ]

-- The loop over the disturbed rounds; the round after them is not disturbed.
unfoldable pub update_loop : (ℕ → ℕ) → ℕ → List Attempt → ℕ
update_loop f current [] = f current
update_loop f current (a ∷ rest) =
    let retried = update_loop f (disturbed current a) rest in
    if disturbed current a == current && not a.spurious then f current else retried

-- The word after the stores of the first n rounds.
unfoldable pub after_rounds : ℕ → List Attempt → ℕ → ℕ
after_rounds word attempts zero = word
after_rounds word [] (suc n) = word
after_rounds word (a ∷ rest) (suc n) = after_rounds (disturbed word a) rest n

-- The loop takes effect at one moment: at the exchange of some round n, the one after the disturbed
-- rounds at the latest. No other hart has stored a new word between the load and the exchange of
-- that round, and what the loop leaves is the update of the word that stands there at the exchange,
-- which all stores of the rounds 0 to n have left; so none of those stores is lost.
pub update_loop_atomic :
    (f : ℕ → ℕ) (word : ℕ) (attempts : List Attempt)
    → (n : ℕ) × (n ≤ length attempts)
      × (after_rounds word attempts (suc n) ≡ after_rounds word attempts n)
      × (update_loop f word attempts ≡ f (after_rounds word attempts (suc n)))
unfolding update_loop after_rounds
update_loop_atomic f word [] = (0, omega arith, refl, refl)
update_loop_atomic f word (a ∷ rest) =
    let later = update_loop_atomic f (disturbed word a) rest in
    elim (Bool-cases (disturbed word a == word && not a.spurious)) [
      | inl exchanged ↦
          let same : disturbed word a ≡ word = ground (arith, exchanged) in
          (0, omega arith, same, rw (exchanged, same) refl)
      | inr failed ↦ (suc later.0, omega (arith, later.1), later.2, ground (arith, failed, later.3))
    ]
