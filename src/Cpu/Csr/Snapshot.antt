-- ===== src/Cpu/Csr/Snapshot.antt =====
-- riscv-vm/src/cpu/csr.rs: the registers written to a snapshot and read back.
use bavy.Prelude.{
  ℕ, zero, suc, ◌+◌, ◌-◌, ◌≤◌, ◌<◌, ◌≡◌, ◌≢◌, refl, sym, ap, ◌∙◌, arith, List, [], ◌∷◌, ltb,
  if◌then◌else◌, get_or, set, length, get_or-set, length-set, length-replicate, replicate,
  get_or-replicate, get_or_ext, inl, inr, ◌↔◌, ◌⊎◌,
}
use mathlib.Core.Path.{subst}
use bavy.Cpu.Csr.{CsrFile, csr, export, export_from, import, import_into, num_csrs}

-- The map binds register `a` to `v`.
unfoldable pub Binds : List (ℕ × ℕ) → ℕ → ℕ → Type 0
Binds [] a v = ⊥
Binds ((b, u) ∷ rest) a v = ((b ≡ a) × (u ≡ v)) ⊎ Binds rest a v

-- The bindings of a map are registers of the file with their values.
abbrev AreOf : CsrFile → List (ℕ × ℕ) → Type 0
AreOf f pairs = (a v : ℕ) → Binds pairs a v → (a < num_csrs) × (csr f a ≡ v)

length-import_into :
    (pairs : List (ℕ × ℕ)) (storage : List ℕ) → length (import_into pairs storage) ≡ length storage
unfolding import_into
length-import_into [] storage = refl
length-import_into ((addr, val) ∷ rest) storage = ground (
  arith,
  length-set storage addr val,
  length-import_into rest (if ltb addr num_csrs then set storage addr val else storage),
)

-- A register that has its value keeps it.
import_into-kept :
    (f : CsrFile) (pairs : List (ℕ × ℕ)) (storage : List ℕ) (a : ℕ)
    → AreOf f pairs
    → length storage ≡ num_csrs
    → get_or storage a 0 ≡ csr f a
    → get_or (import_into pairs storage) a 0 ≡ csr f a
unfolding import_into Binds
import_into-kept f [] storage a are full e = e
import_into-kept f ((addr, val) ∷ rest) storage a are full e =
    let here = are addr val (inl (refl, refl)) in
    let next = if ltb addr num_csrs then set storage addr val else storage in
    let same : get_or next a 0 ≡ csr f a =
      ground (arith, here.0, here.1, get_or-set storage addr a val 0 (omega (arith, here.0))) in
    import_into-kept f rest next a (λ b v m. are b v (inr m))
      (ground (arith, length-set storage addr val)) same

-- A register that the map binds gets its value.
import_into-bound :
    (f : CsrFile) (pairs : List (ℕ × ℕ)) (storage : List ℕ) (a v : ℕ)
    → AreOf f pairs
    → length storage ≡ num_csrs
    → Binds pairs a v
    → get_or (import_into pairs storage) a 0 ≡ csr f a
unfolding import_into Binds
import_into-bound f [] storage a v are full bound = absurd bound
import_into-bound f ((addr, val) ∷ rest) storage a v are full bound =
    let here = are addr val (inl (refl, refl)) in
    let next = if ltb addr num_csrs then set storage addr val else storage in
    let later = λ (b : ℕ) (u : ℕ) (m : Binds rest b u). are b u (inr m) in
    let full' : length next ≡ num_csrs = ground (arith, length-set storage addr val) in
    elim bound [
      | inl found ↦ import_into-kept f rest next a later full' (
          ground (
            arith,
            here.0,
            here.1,
            found.0,
            get_or-set storage addr a val 0 (omega (arith, here.0)),
            ap (csr f) found.0,
          ))
      | inr m ↦ import_into-bound f rest next a v later full' m
    ]

export_from-suc :
    (idx val : ℕ) (rest : List ℕ)
    → export_from idx (suc val ∷ rest) ≡ (idx, suc val) ∷ export_from (idx + 1) rest
unfolding export_from
export_from-suc idx val rest = ground arith

-- An export binds registers of the file only, to their values.
export_from-Binds :
    (idx : ℕ) (l : List ℕ) (b v : ℕ)
    → Binds (export_from idx l) b v
    → (idx ≤ b) × (b < idx + length l) × (get_or l (b - idx) 0 ≡ v)
unfolding export_from Binds get_or
export_from-Binds idx [] b v bound = absurd bound
export_from-Binds idx (zero ∷ rest) b v bound =
    let later = export_from-Binds (idx + 1) rest b v bound in
    let shift : b - idx ≡ suc (b - (idx + 1)) = omega (arith, later.0) in
    (omega (arith, later.0), omega (arith, later.1), rw shift later.2)
export_from-Binds idx (suc val ∷ rest) b v bound =
    let first_or_later : Binds ((idx, suc val) ∷ export_from (idx + 1) rest) b v =
      subst (λ l. Binds l b v) (export_from-suc idx val rest) bound in
    elim first_or_later [
      | inl found ↦
          let none_left : b - idx ≡ 0 = omega (arith, found.0) in
          (omega (arith, found.0), omega (arith, found.0), rw none_left found.1)
      | inr m ↦
          let later = export_from-Binds (idx + 1) rest b v m in
          let shift : b - idx ≡ suc (b - (idx + 1)) = omega (arith, later.0) in
          (omega (arith, later.0), omega (arith, later.1), rw shift later.2)
    ]

-- An export binds every register that is not 0.
export_from_complete :
    (idx : ℕ) (l : List ℕ) (a : ℕ)
    → get_or l a 0 ≢ 0
    → Binds (export_from idx l) (idx + a) (get_or l a 0)
unfolding export_from Binds get_or
export_from_complete idx [] a some_value = absurd (some_value refl)
export_from_complete idx (zero ∷ rest) zero some_value = absurd (some_value refl)
export_from_complete idx (suc val ∷ rest) zero some_value =
    rw (export_from-suc idx val rest) (inl (omega arith, refl))
export_from_complete idx (zero ∷ rest) (suc a) some_value =
    let shift : idx + suc a ≡ (idx + 1) + a = omega arith in
    rw shift (export_from_complete (idx + 1) rest a some_value)
export_from_complete idx (suc val ∷ rest) (suc a) some_value =
    let shift : idx + suc a ≡ (idx + 1) + a = omega arith in
    rw (export_from-suc idx val rest)
      (inr (rw shift (export_from_complete (idx + 1) rest a some_value)))

dec_zero : (n : ℕ) → (n ≡ 0) ⊎ (n ≢ 0)
dec_zero zero = inl refl
dec_zero (suc n) = inr (λ e. omega arith)

-- Importing the exported map of a file of 4096 registers gives the file back, in whatever order
-- and however often the map's iterator yields its bindings, and whatever the importing file held.
pub import-export :
    (f g : CsrFile) (pairs : List (ℕ × ℕ))
    → length f.storage ≡ num_csrs
    → ((a v : ℕ) → Binds pairs a v ↔ Binds (export f) a v)
    → import g pairs ≡ f
unfolding import export
import-export f g pairs full same = ap (λ l. record { storage = l }) storages
  where
    zeros : List ℕ
    zeros = replicate num_csrs 0

    are : AreOf f pairs
    are a v bound =
        let from = export_from-Binds 0 f.storage a v ((same a v).0 bound) in
        let here : a - 0 ≡ a = omega arith in
        (omega (arith, from.1, full), ap (λ i. get_or f.storage i 0) (sym here) ∙ from.2)

    at : (a : ℕ) → get_or (import_into pairs zeros) a 0 ≡ csr f a
    at a =
        let start : 0 + a ≡ a = omega arith in
        elim (dec_zero (csr f a)) [
          | inl is_zero ↦
              import_into-kept f pairs zeros a are (length-replicate num_csrs 0)
                (get_or-replicate num_csrs a 0 ∙ sym is_zero)
          | inr some_value ↦
              import_into-bound f pairs zeros a (csr f a) are (length-replicate num_csrs 0) (
                (same a (csr f a)).1 (
                  subst (λ b. Binds (export_from 0 f.storage) b (csr f a)) start
                    (export_from_complete 0 f.storage a some_value)))
        ]

    storages : import_into pairs zeros ≡ f.storage
    storages =
        get_or_ext 0 (import_into pairs zeros) f.storage
          (omega (arith, length-import_into pairs zeros, length-replicate {A = ℕ} num_csrs 0, full))
          at
