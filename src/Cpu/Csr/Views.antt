-- ===== src/Cpu/Csr/Views.antt =====
-- riscv-vm/src/cpu/csr.rs: sstatus, sie and sip are windows on mstatus, mie and mip.
use bavy.Prelude.{
  ℕ, ◌^◌, ◌<◌, ◌≡◌, ◌≢◌, refl, arith, ◌==◌, if◌then◌else◌, bit_and, length, get_or-set, ok, some,
  length-set, length-replicate, get_or-replicate, ◌∙◌,
}
use bavy.Prelude.Bits.{bit, bit-lt, bit-bit_or, bit-bit_and, bit-complement, bit-beyond, complement}
use bavy.Cpu.Types.{Mode, user, supervisor, machine, privilege_level}
use bavy.Cpu.Csr.{
  CsrFile, new, csr, view, merge, update, write, set_csr, num_csrs, csr_sstatus, csr_sie, csr_sip,
  csr_mstatus, csr_mie, csr_mip, sstatus_mask, sie_mask, sip_write_mask, is_read_only,
  required_priv,
}

pub record IsCsrFile (f : CsrFile) : Type 0 where
  pub full : length f.storage ≡ num_csrs
  pub words : (addr : ℕ) → csr f addr < 2 ^ 64

-- A merge takes the bits of the mask from the new value and the others from the old one.
pub bit-merge :
    (old val mask k : ℕ)
    → old < 2 ^ 64
    → mask < 2 ^ 64
    → bit (merge old val mask) k ≡ (if bit mask k == 1 then bit val k else bit old k)
unfolding merge
bit-merge old val mask k fits small = ground (
  arith,
  bit-bit_or (bit_and old (complement 64 mask)) (bit_and val mask) k,
  bit-bit_and old (complement 64 mask) k,
  bit-bit_and val mask k,
  bit-complement 64 mask k small,
  bit-lt mask k,
  bit-lt old k,
  bit-lt val k,
  bit-beyond 64 old k fits,
)

-- A supervisor register that is a window on a machine register: its address, the machine
-- register's, the bits that a read shows and the bits that a write reaches.
pub data Window : ℕ → ℕ → ℕ → ℕ → Type 0 where
  sstatus : Window csr_sstatus csr_mstatus sstatus_mask sstatus_mask
  sie : Window csr_sie csr_mie sie_mask sie_mask
  sip : Window csr_sip csr_mip sie_mask sip_write_mask

pub csr-set_csr :
    (f : CsrFile) (addr val a : ℕ)
    → IsCsrFile f
    → addr < num_csrs
    → csr (set_csr f addr val) a ≡ (if addr == a then val else csr f a)
csr-set_csr f addr val a h inside = get_or-set f.storage addr a val 0 (omega (arith, h.full))

update-Window :
    {addr target shown reached : ℕ} (f : CsrFile) (val : ℕ)
    → Window addr target shown reached
    → (update f addr val ≡ set_csr f target (merge (csr f target) val reached))
      × (target < num_csrs)
      × (reached < 2 ^ 64)
unfolding update
update-Window f val sstatus = (refl, omega arith, omega arith)
update-Window f val sie = (refl, omega arith, omega arith)
update-Window f val sip = (refl, omega arith, omega arith)

view-Window :
    {addr target shown reached : ℕ} (f : CsrFile)
    → Window addr target shown reached
    → view f addr ≡ bit_and (csr f target) shown
unfolding view
view-Window f sstatus = refl
view-Window f sie = refl
view-Window f sip = refl

write-Window_ok :
    {addr target shown reached : ℕ} (f : CsrFile) (val : ℕ) (mode : Mode)
    → Window addr target shown reached
    → mode ≢ user
    → write f addr val mode ≡ some (update f addr val, ok tt)
unfolding write is_read_only required_priv privilege_level
write-Window_ok f val user w privileged = absurd (privileged refl)
write-Window_ok f val supervisor sstatus privileged = refl
write-Window_ok f val supervisor sie privileged = refl
write-Window_ok f val supervisor sip privileged = refl
write-Window_ok f val machine sstatus privileged = refl
write-Window_ok f val machine sie privileged = refl
write-Window_ok f val machine sip privileged = refl

-- In a well-formed file, a write through a window from a mode above user succeeds and sets in the
-- machine register exactly the bits that the window reaches, to the value's; it changes no other
-- register; and the window then shows, of its shown bits, those it reaches as written and the
-- others as they were, and 0 elsewhere.
pub write-Window :
    {addr target shown reached : ℕ} (f : CsrFile) (val k a : ℕ) (mode : Mode)
    → Window addr target shown reached
    → IsCsrFile f
    → mode ≢ user
    → (write f addr val mode ≡ some (update f addr val, ok tt))
      × (bit (csr (update f addr val) target) k
          ≡ (if bit reached k == 1 then bit val k else bit (csr f target) k))
      × (csr (update f addr val) a
          ≡ (if target == a then merge (csr f target) val reached else csr f a))
      × (bit (view (update f addr val) addr) k ≡ (
          if bit shown k == 1
          then if bit reached k == 1 then bit val k else bit (csr f target) k
          else 0))
write-Window {addr} {target} {shown} {reached} f val k a mode w h privileged =
    let updated = (update-Window f val w).0 in
    let inside = (update-Window f val w).1 in
    let fits = (update-Window f val w).2 in
    let shows = view-Window (update f addr val) w in
    let new = merge (csr f target) val reached in
    let reg : (b : ℕ) → csr (update f addr val) b ≡ (if target == b then new else csr f b) =
      λ b. rw updated (csr-set_csr f target new b h inside) in
    let here : csr (update f addr val) target ≡ new = ground (arith, reg target) in
    let bits = bit-merge (csr f target) val reached k (h.words target) fits in
    (
      write-Window_ok f val mode w privileged,
      rw here bits,
      reg a,
      rw (shows, here)
          (ground (arith, bits, bit-bit_and new shown k, bit-lt shown k, bit-lt new k)),
    )

pub new-IsCsrFile : IsCsrFile new
unfolding new
new-IsCsrFile = record {
  full = length-replicate num_csrs 0;
  words = λ addr. omega (arith, get_or-replicate {A = ℕ} num_csrs addr 0);
}

pub set_csr-IsCsrFile :
    (f : CsrFile) (addr v : ℕ)
    → IsCsrFile f
    → addr < num_csrs
    → v < 2 ^ 64
    → IsCsrFile (set_csr f addr v)
set_csr-IsCsrFile f addr v h inside word = record {
  full = length-set f.storage addr v ∙ h.full;
  words = λ a. ground (arith, csr-set_csr f addr v a h inside, h.words a);
}
