-- ===== src/Cpu/Csr/Confined.antt =====
-- riscv-vm/src/cpu/csr.rs: what a mode can do to the registers above it.
use bavy.Prelude.{
  ℕ, ◌<◌, ◌≤◌, ◌≡◌, ◌≢◌, sym, ap, ◌∙◌, arith, inl, inr, ◌⊎◌, Result, some, none, Option,
}
use bavy.Prelude.Bits.{bit}
use bavy.Cpu.Types.{Mode, Trap, privilege_level}
use bavy.Cpu.Csr.{
  CsrFile, csr, update, write, merge, num_csrs, required_priv, csr_mstatus, csr_mie, csr_mip,
  sstatus_mask, sie_mask, sip_write_mask,
}
use bavy.Cpu.Csr.Views.{IsCsrFile, csr-set_csr, bit-merge}

-- The bits of the machine registers that a supervisor register reaches.
unfoldable pub IsShared : ℕ → ℕ → Type 0
IsShared b k =
    ((b ≡ csr_mstatus) × (bit sstatus_mask k ≡ 1))
    ⊎ ((b ≡ csr_mie) × (bit sie_mask k ≡ 1))
    ⊎ ((b ≡ csr_mip) × (bit sip_write_mask k ≡ 1))

update-confined :
    (f : CsrFile) (addr val b k : ℕ)
    → IsCsrFile f
    → addr < num_csrs
    → b ≢ addr
    → (bit (csr (update f addr val) b) k ≡ bit (csr f b) k) ⊎ IsShared b k
unfolding update IsShared
update-confined f addr val b k h inside apart = ground (
  arith,
  csr-set_csr f addr val b h inside,
  csr-set_csr f csr_mstatus (merge (csr f csr_mstatus) val sstatus_mask) b h (omega arith),
  csr-set_csr f csr_mie (merge (csr f csr_mie) val sie_mask) b h (omega arith),
  csr-set_csr f csr_mip (merge (csr f csr_mip) val sip_write_mask) b h (omega arith),
  bit-merge (csr f csr_mstatus) val sstatus_mask k (h.words csr_mstatus) (omega arith),
  bit-merge (csr f csr_mie) val sie_mask k (h.words csr_mie) (omega arith),
  bit-merge (csr f csr_mip) val sip_write_mask k (h.words csr_mip) (omega arith),
)

-- The file that a write leaves, and `f` when it does not return.
abbrev left : CsrFile → Option (CsrFile × Result (Unit {0}) Trap) → CsrFile
left f none = f
left f (some (g, r)) = g

left-write :
    (f : CsrFile) (addr val : ℕ) (mode : Mode)
    → (left f (write f addr val mode) ≡ f)
      ⊎ ((left f (write f addr val mode) ≡ update f addr val)
          × (addr < num_csrs)
          × (required_priv addr ≤ privilege_level mode))
unfolding write
left-write f addr val mode = ground arith

-- In a well-formed file, a write that returns, in a mode below a register's level, leaves each bit
-- of that register as it was, but for the bits of mstatus, mie and mip that sstatus, sie and sip
-- reach.
pub write-confined :
    (f g : CsrFile) (r : Result (Unit {0}) Trap) (addr val b k : ℕ) (mode : Mode)
    → IsCsrFile f
    → write f addr val mode ≡ some (g, r)
    → privilege_level mode < required_priv b
    → (bit (csr g b) k ≡ bit (csr f b) k) ⊎ IsShared b k
write-confined f g r addr val b k mode h done below = elim (left-write f addr val mode) [
  | inl same ↦ inl (ap (λ c. bit (csr c b) k) (sym (ap (left f) done) ∙ same))
  | inr written ↦
      let apart : b ≢ addr = λ e. omega (arith, ap required_priv e, written.2) in
      rw (sym (ap (left f) done) ∙ written.0) (update-confined f addr val b k h written.1 apart)
]
