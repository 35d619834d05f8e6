-- ===== src/Sbi/Ipi.antt =====
-- riscv-vm/src/sbi/ipi.rs: interrupts between harts. a0 and a1 are arguments, a1 as the 64-bit
-- pattern of its i64; the address arithmetic on u64 wraps, as it does in a release build.
pub mod Delivery
use bavy.Prelude.{ℕ, zero, suc, ◌+◌, ◌*◌, ◌%◌, ◌^◌, bit_and, ◌==◌, leb, if◌then◌else◌}
use bavy.Bus.{Bus}
use bavy.Sbi.Hsm.{SbiRet, neg, success, invalid_param, not_supported}

-- CLINT_BASE + MSIP_OFFSET + hart_id * 4
unfoldable pub ipi_addr : ℕ → ℕ
ipi_addr hart_id = (0x02000000 + hart_id * 4) % 2 ^ 64

module _ (bus : Bus) where
  -- The loop over all harts, from `hart` on. The result of a write is ignored.
  unfoldable pub send_all : ℕ → ℕ → bus.State → bus.State
  send_all zero hart m = m
  send_all (suc left) hart m = send_all left (hart + 1) (bus.store m (ipi_addr hart) 4 1).0

  -- The loop over the bits of the mask, from `bit` on.
  unfoldable pub send_mask : ℕ → ℕ → ℕ → ℕ → bus.State → bus.State
  send_mask zero bit hart_mask base m = m
  send_mask (suc left) bit hart_mask base m =
      let sent = (bus.store m (ipi_addr ((base + bit) % 2 ^ 64)) 4 1).0 in
      send_mask left (bit + 1) hart_mask base (if bit_and hart_mask (2 ^ bit) == 0 then m else sent)

  unfoldable pub send_ipi : bus.State → ℕ → ℕ → bus.State × SbiRet
  send_ipi m hart_mask hart_mask_base =
      if hart_mask_base == neg 1
      then (send_all 64 0 m, success 0)
      else if leb (2 ^ 63) hart_mask_base
      then (m, invalid_param)
      else (send_mask 64 0 hart_mask hart_mask_base m, success 0)

  unfoldable pub handle : bus.State → ℕ → ℕ → ℕ → bus.State × SbiRet
  handle m a0 a1 fid = let sent = send_ipi m a0 a1 in if fid == 0 then sent else (m, not_supported)
