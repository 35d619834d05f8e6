-- ===== src/Cpu/Execute/Hart.antt =====
-- riscv-vm/src/cpu/core.rs, execution.rs: the changes of a hart keep it well formed.
use bavy.Prelude.{
  ℕ, ◌≡◌, sym, ◌∙◌, ap, arith, refl, none, some, ok, length, length-set, get_or, set, zero, suc,
  List, [], ◌∷◌,
}
use bavy.Cpu.Types.{Trap}
use bavy.Cpu.Csr
use bavy.Cpu.Csr.{CsrFile, csr, set_csr, csr_mstatus, num_csrs}
use bavy.Cpu.State.{
  Cpu, decode_cache_size, write_reg, write_csr, decode_cache_insert, invalidate_decode_cache,
  clear_reservation_if_conflict,
}
use bavy.Cpu.Trap.{handle_trap, mret, sret}
use bavy.Engine.Decoder.{Op, decode}
use bavy.Cpu.Trap.Entry.{IsFull, handle_trap-IsFull, handle_trap-raises}
use bavy.Cpu.Execute.System.{csr_written}
use bavy.Cpu.Execute.Cached.{
  IsCached, handle_trap-IsCached, decode_cache_insert-IsCached, invalidate_decode_cache-IsCached,
}

-- x0 holds 0, and the cached instructions are what their words decode to. There are 32 registers,
-- 4096 CSRs and 256 entries of the decode cache.
pub record IsHart (c : Cpu) : Type 0 where
  pub regs : length c.regs ≡ 32
  pub csrs : length c.csrs.storage ≡ num_csrs
  pub cache : length c.decode_cache ≡ decode_cache_size
  pub decodings :
      (i pc raw : ℕ) (decoded : Op)
      → get_or c.decode_cache i none ≡ some (pc, raw, decoded)
      → decode raw ≡ ok decoded
  pub zero : get_or c.regs 0 0 ≡ 0

-- The part on the decode cache.
IsHart-IsCached : (c : Cpu) → IsHart c → IsCached c
IsHart-IsCached c h = record { full = h.cache; true_to_word = h.decodings }

pub handle_trap-IsHart :
    (c : Cpu) (trap : Trap) (pc : ℕ) → IsHart c → IsHart (handle_trap c trap pc)
handle_trap-IsHart c trap pc h =
    let same = (handle_trap-raises c trap pc).1 in
    let cached = handle_trap-IsCached c trap pc (IsHart-IsCached c h) in
    record {
      regs = ap length same ∙ h.regs;
      csrs = handle_trap-IsFull c trap pc h.csrs;
      cache = cached.full;
      decodings = cached.true_to_word;
      zero = ap (λ regs. get_or regs 0 0) same ∙ h.zero;
    }

first-set : (xs : List ℕ) (r v : ℕ) → get_or (set xs (suc r) v) 0 0 ≡ get_or xs 0 0
unfolding get_or set
first-set [] r v = refl
first-set (x ∷ xs) r v = refl

write_reg-suc :
    (c : Cpu) (r v : ℕ) → write_reg c (suc r) v ≡ record c { regs = set c.regs (suc r) v }
unfolding write_reg
write_reg-suc c r v = ground arith

pub write_reg-IsHart : (c : Cpu) (r v : ℕ) → IsHart c → IsHart (write_reg c r v)
write_reg-IsHart c zero v h = unfold write_reg in h
write_reg-IsHart c (suc r) v h = rw (write_reg-suc c r v) (record {
  regs = length-set c.regs (suc r) v ∙ h.regs;
  csrs = h.csrs;
  cache = h.cache;
  decodings = h.decodings;
  zero = first-set c.regs r v ∙ h.zero;
})

pub mret-IsHart : (c : Cpu) → IsHart c → IsHart (mret c)
unfolding mret
mret-IsHart c h = record {
  regs = h.regs;
  csrs = length-set c.csrs.storage _ _ ∙ h.csrs;
  cache = h.cache;
  decodings = h.decodings;
  zero = h.zero;
}

pub sret-IsHart : (c : Cpu) → IsHart c → IsHart (sret c)
unfolding sret
sret-IsHart c h = record {
  regs = h.regs;
  csrs = length-set c.csrs.storage _ _ ∙ h.csrs;
  cache = h.cache;
  decodings = h.decodings;
  zero = h.zero;
}

pub decode_cache_insert-IsHart :
    (c : Cpu) (pc raw : ℕ) (decoded : Op)
    → decode raw ≡ ok decoded
    → IsHart c
    → IsHart (decode_cache_insert c pc raw decoded)
unfolding decode_cache_insert
decode_cache_insert-IsHart c pc raw decoded known h =
    let cached = decode_cache_insert-IsCached c pc raw decoded (IsHart-IsCached c h) known in
    record {
      regs = h.regs;
      csrs = h.csrs;
      cache = cached.full;
      decodings = cached.true_to_word;
      zero = h.zero;
    }

pub invalidate_decode_cache-IsHart : (c : Cpu) → IsHart c → IsHart (invalidate_decode_cache c)
unfolding invalidate_decode_cache
invalidate_decode_cache-IsHart c h =
    let cached = invalidate_decode_cache-IsCached c in
    record {
      regs = h.regs;
      csrs = h.csrs;
      cache = cached.full;
      decodings = cached.true_to_word;
      zero = h.zero;
    }

-- Of these changes of a hart, none is to its registers or its decode cache.
same-IsHart :
    (c d : Cpu)
    → d.regs ≡ c.regs
    → d.decode_cache ≡ c.decode_cache
    → length d.csrs.storage ≡ num_csrs
    → IsHart c
    → IsHart d
same-IsHart c d regs cache csrs h = record {
  regs = ap length regs ∙ h.regs;
  csrs = csrs;
  cache = ap length cache ∙ h.cache;
  decodings = λ i p r o e. h.decodings i p r o (ap (λ l. get_or l i none) (sym cache) ∙ e);
  zero = ap (λ l. get_or l 0 0) regs ∙ h.zero;
}

pub clear_reservation_if_conflict-IsHart :
    (c : Cpu) (addr : ℕ) → IsHart c → IsHart (clear_reservation_if_conflict c addr)
unfolding clear_reservation_if_conflict
clear_reservation_if_conflict-IsHart c addr h =
    same-IsHart c _ (ground arith) (ground arith) (ground (arith, h.csrs)) h

update-IsFull : (f : CsrFile) (addr v : ℕ) → IsFull f → IsFull (Csr.update f addr v)
unfolding Csr.update
update-IsFull f addr v full = ground (
  arith,
  full,
  length-set f.storage csr_mstatus (Csr.merge (csr f csr_mstatus) v Csr.sstatus_mask),
  length-set f.storage Csr.csr_mie (Csr.merge (csr f Csr.csr_mie) v Csr.sie_mask),
  length-set f.storage Csr.csr_mip (Csr.merge (csr f Csr.csr_mip) v Csr.sip_write_mask),
  length-set f.storage addr v,
)

pub csr_written-IsHart : (c : Cpu) (addr v : ℕ) → IsHart c → IsHart ((csr_written c addr v).0)
unfolding csr_written write_csr Csr.write
csr_written-IsHart c addr v h =
    same-IsHart c _ (ground arith) (ground arith)
      (ground (arith, h.csrs, update-IsFull c.csrs addr v h.csrs)) h
