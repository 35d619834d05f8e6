-- ===== src/Cpu/Tests.antt =====
-- The theorems on the control and status registers at concrete inputs.
use bavy.Prelude.{
  ℕ, ◌<◌, ◌≡◌, ◌≢◌, refl, arith, ◌==◌, if◌then◌else◌, ok, some, replicate, length-replicate, length,
  length-set, ◌⊎◌,
}
use bavy.Prelude.Bits.{bit}
use bavy.Cpu.Types.{supervisor, user, privilege_level}
use bavy.Cpu.Csr.{
  CsrFile, csr, new, export, import, merge, view, update, write, set_csr, num_csrs, csr_sstatus,
  csr_mstatus, is_read_only, required_priv, sstatus_mask,
}
use bavy.Cpu.Csr.Views.{new-IsCsrFile, sstatus, write-Window}
use bavy.Cpu.Csr.Snapshot.{import-export}
use bavy.Cpu.Csr.Confined.{IsShared, write-confined}

not_user : supervisor ≢ user
not_user = λ e. cc

-- SIE and an unimplemented bit, written through sstatus.
write-Window_example :
    (write new csr_sstatus 10 supervisor ≡ some (update new csr_sstatus 10, ok tt))
    × (bit (csr (update new csr_sstatus 10) csr_mstatus) 1
        ≡ (if bit sstatus_mask 1 == 1 then bit 10 1 else bit (csr new csr_mstatus) 1))
    × (csr (update new csr_sstatus 10) 0x304 ≡ (
        if csr_mstatus == 0x304
        then merge (csr new csr_mstatus) 10 sstatus_mask
        else csr new 0x304))
    × (bit (view (update new csr_sstatus 10) csr_sstatus) 1 ≡ (
        if bit sstatus_mask 1 == 1
        then if bit sstatus_mask 1 == 1 then bit 10 1 else bit (csr new csr_mstatus) 1
        else 0))
write-Window_example = write-Window new 10 1 0x304 supervisor sstatus new-IsCsrFile not_user

abbrev satp : ℕ
satp = 0x180

write-satp : write new satp 9 supervisor ≡ some (update new satp 9, ok tt)
unfolding write is_read_only required_priv privilege_level
write-satp = refl

mstatus_above : privilege_level supervisor < required_priv csr_mstatus
unfolding required_priv privilege_level
mstatus_above = omega arith

write-confined_example :
    (bit (csr (update new satp 9) csr_mstatus) 3 ≡ bit (csr new csr_mstatus) 3)
    ⊎ IsShared csr_mstatus 3
write-confined_example =
    write-confined new (update new satp 9) (ok tt) satp 9 csr_mstatus 3 supervisor new-IsCsrFile
      write-satp mstatus_above

abbrev used : CsrFile
used = set_csr new satp 9

used-full : length used.storage ≡ num_csrs
unfolding new
used-full =
    omega
      (arith, length-set {A = ℕ} (replicate num_csrs 0) satp 9, length-replicate {A = ℕ} num_csrs 0)

import-export_example : import new (export used) ≡ used
import-export_example = import-export used new (export used) used-full (λ a v. (λ b. b, λ b. b))
