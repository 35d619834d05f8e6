-- ===== src/Sbi/Ipi/Delivery.antt =====
-- riscv-vm/src/sbi/ipi.rs: which harts an interrupt reaches through the CLINT.
use bavy.Prelude.{
  ℕ, zero, suc, ◌+◌, ◌-◌, ◌*◌, ◌/◌, ◌%◌, ◌^◌, ◌≤◌, ◌<◌, ◌≡◌, ap, arith, true, ◌&&◌, bit_and, ◌==◌,
  ltb, leb, if◌then◌else◌, [], length, length-set, get_or-set, ok, Bool-cases, inl, inr,
}
use bavy.Prelude.Bits.{bit, bit-lt, bit_and-pow_test}
use bavy.Bus.{Bus}
use bavy.Clint.State.{Clint, max_harts, is_msip_pending, set_msip, wake_hart}
use bavy.Clint.Mmio.{load, store}
use bavy.Sbi.Hsm.{success, neg}
use bavy.Sbi.Ipi.{ipi_addr, send_all, send_mask, send_ipi}

-- The bus on the region of the CLINT, at the time `now`.
abbrev pub clint_bus : ℕ → Bus
clint_bus now = record {
  State = Clint;
  load = λ c addr size. (c, ok (load now c (addr - 0x02000000) size));
  store = λ c addr size value. (store c [] (addr - 0x02000000) size value, ok tt);
}

pending-store :
    (c : Clint) (hart k addr : ℕ)
    → length c.msip ≡ max_harts
    → hart < max_harts
    → addr ≡ hart * 4
    → (is_msip_pending (store c [] addr 4 1) k ≡ (if hart == k then true else is_msip_pending c k))
      × (length (store c [] addr 4 1).msip ≡ max_harts)
unfolding is_msip_pending store set_msip wake_hart
pending-store c hart k addr full inside e =
    let slot : addr / 4 ≡ hart = omega (arith, e) in
    (
      ground (arith, e, slot, full, get_or-set c.msip hart k 1 0 (omega (arith, full))),
      ground (arith, e, slot, full, length-set c.msip hart 1),
    )

module _ (now : ℕ) where
  -- The masked harts are there.
  abbrev pub AreHarts : ℕ → ℕ → Type 0
  AreHarts hart_mask base = (b : ℕ) → bit hart_mask b ≡ 1 → base + b < max_harts

  pending-send_mask :
      (left b hart_mask base k : ℕ) (c : Clint)
      → length c.msip ≡ max_harts
      → AreHarts hart_mask base
      → is_msip_pending (send_mask (clint_bus now) left b hart_mask base c) k ≡ (
          if leb (base + b) k && (ltb k (base + b + left) && bit hart_mask (k - base) == 1)
          then true
          else is_msip_pending c k)
  unfolding send_mask ipi_addr
  pending-send_mask zero b hart_mask base k c full there = ground arith
  pending-send_mask (suc left) b hart_mask base k c full there =
      let same : base + b ≡ k → bit hart_mask (k - base) ≡ bit hart_mask b =
        λ e. ap (bit hart_mask) (omega (arith, e)) in
      elim (Bool-cases (bit_and hart_mask (2 ^ b) == 0)) [
        | inl clear ↦ rw clear (
            ground (
              arith,
              pending-send_mask left (b + 1) hart_mask base k c full there,
              bit_and-pow_test hart_mask b,
              clear,
              same,
            ))
        | inr set ↦
            let inside : base + b < max_harts =
              there b (ground (arith, set, bit_and-pow_test hart_mask b, bit-lt hart_mask b)) in
            let addr = ipi_addr ((base + b) % 2 ^ 64) - 0x02000000 in
            let at : addr ≡ (base + b) * 4 = omega (arith, inside) in
            let stored = pending-store c (base + b) k addr full inside at in
            rw set (
              ground (
                arith,
                pending-send_mask left (b + 1) hart_mask base k (store c [] addr 4 1) stored.1
                    there,
                stored.0,
                bit_and-pow_test hart_mask b,
                bit-lt hart_mask b,
                set,
                same,
              ))
      ]

  -- An IPI from a base below 2^63 (as a1 is not negative), whose masked harts all lie below 128, makes the
  -- software interrupt of exactly the masked harts pending, in a CLINT with its 128 words, leaves the
  -- others' as they were, and succeeds.
  pub pending-send_ipi :
      (hart_mask base k : ℕ) (c : Clint)
      → length c.msip ≡ max_harts
      → base < 2 ^ 63
      → AreHarts hart_mask base
      → ((send_ipi (clint_bus now) c hart_mask base).1 ≡ success 0)
        × (is_msip_pending (send_ipi (clint_bus now) c hart_mask base).0 k ≡ (
            if leb base k && (ltb k (base + 64) && bit hart_mask (k - base) == 1)
            then true
            else is_msip_pending c k))
  unfolding send_ipi
  pending-send_ipi hart_mask base k c full small there =
      (ground arith, ground (arith, pending-send_mask 64 0 hart_mask base k c full there))

  pending-send_all :
      (left hart k : ℕ) (c : Clint)
      → length c.msip ≡ max_harts
      → hart + left ≤ max_harts
      → is_msip_pending (send_all (clint_bus now) left hart c) k
        ≡ (if leb hart k && ltb k (hart + left) then true else is_msip_pending c k)
  unfolding send_all ipi_addr
  pending-send_all zero hart k c full fits = ground arith
  pending-send_all (suc left) hart k c full fits =
      let addr = ipi_addr hart - 0x02000000 in
      let there : addr ≡ hart * 4 = omega arith in
      let stored = pending-store c hart k addr full (omega arith) there in
      ground (
        arith,
        pending-send_all left (hart + 1) k (store c [] addr 4 1) stored.1 (omega arith),
        stored.0,
      )

  -- An IPI to all harts, a1 = -1, makes the software interrupts of the first 64 harts pending, in a
  -- CLINT with its 128 words, and leaves those of the harts from 64 on as they were.
  pub pending-send_ipi_all :
      (hart_mask k : ℕ) (c : Clint)
      → length c.msip ≡ max_harts
      → is_msip_pending (send_ipi (clint_bus now) c hart_mask (neg 1)).0 k
        ≡ (if ltb k 64 then true else is_msip_pending c k)
  unfolding send_ipi
  pending-send_ipi_all hart_mask k c full =
      ground (arith, pending-send_all 64 0 k c full (omega arith))
