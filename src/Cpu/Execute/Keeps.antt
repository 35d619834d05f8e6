-- ===== src/Cpu/Execute/Keeps.antt =====
-- riscv-vm/src/cpu/execution.rs: every instruction keeps a hart well formed.
use bavy.Prelude.{
  ℕ, ◌+◌, ◌*◌, ◌%◌, ◌^◌, arith, Bool, true, false, Option, none, some, if◌then◌else◌, Result, ok,
  err,
}
use bavy.Bus.{Bus}
use bavy.Bus.Atomic.{AmoOp, atomic}
use bavy.Mmu.Tlb
use bavy.Mmu.Tlb.{AccessType}
use bavy.Mmu.Translate.{translate}
use bavy.Cpu.Types
use bavy.Cpu.Types.{Trap, Mode, illegal_instruction}
use bavy.Cpu.Csr.{csr, csr_mstatus}
use bavy.Cpu.State.{
  Cpu, csr_satp, read_reg, write_reg, clear_reservation_if_conflict, reservation_granule,
}
use bavy.Engine.Decoder.{extend32}
use bavy.Cpu.Execute.Hart.{
  IsHart, handle_trap-IsHart, write_reg-IsHart, clear_reservation_if_conflict-IsHart,
}
use bavy.Cpu.Execute.Alu.{low32}
use bavy.Cpu.Execute.Monad.{
  Exec, pure, bind, after, raise, modify, reg, or_trap, translate_addr, read, write,
}
use bavy.Cpu.Execute.Memory.{
  execute_load, execute_store, load_sized, store_sized, load_size, store_size, load_value,
}
use bavy.Cpu.Execute.Atomic.{
  execute_amo, load_reserved, store_conditional, amo, amo_of, conditional_write, amo_named,
  atomic_of,
}

-- A part of an instruction that keeps a hart well formed.
module _ (bus : Bus) where
  unfoldable pub Keeps : {A : Type 0} → Exec bus A → Type 0
  Keeps x = (c : Cpu) (m : bus.State) → IsHart c → IsHart ((x c m).0)

  module _ {A : Type 0} {B : Type 0} where
    pub bind-Keeps :
        (x : Exec bus A) (f : A → Exec bus B)
        → Keeps x
        → ((a : A) → Keeps (f a))
        → Keeps (bind bus x f)
    unfolding bind Keeps
    bind-Keeps x f hx hf c m h = go (x c m) (hx c m h)
      where
        go : (t : Cpu × bus.State × Result A Trap) → IsHart t.0 → IsHart ((after bus f t).0)
        go (c', m', ok a) h' = hf a c' m' h'
        go (c', m', err t) h' = h'

  pub raise-Keeps : (A : Type 0) (trap : Trap) (pc : ℕ) → Keeps (raise bus {A = A} trap pc)
  unfolding Keeps
  raise-Keeps A trap pc c m h = handle_trap-IsHart c trap pc h

  pub or_trap-Keeps : {A : Type 0} (r : Result A Trap) (pc : ℕ) → Keeps (or_trap bus r pc)
  unfolding or_trap Keeps
  or_trap-Keeps (ok a) pc c m h = h
  or_trap-Keeps (err t) pc c m h = handle_trap-IsHart c t pc h

  retlb : (c : Cpu) (tlb : Tlb.Tlb) → IsHart c → IsHart (record c { tlb = tlb })
  retlb c tlb h = record {
    regs = h.regs;
    csrs = h.csrs;
    cache = h.cache;
    decodings = h.decodings;
    zero = h.zero;
  }

  pub translate_addr-Keeps :
      (vaddr pc : ℕ) (access : AccessType) → Keeps (translate_addr bus vaddr access pc)
  unfolding translate_addr Keeps
  translate_addr-Keeps vaddr pc access c m h =
      let t =
        translate bus c.mode (csr c.csrs csr_satp) (csr c.csrs csr_mstatus) vaddr access m c.tlb in
      or_trap-Keeps (t.2) pc (record c { tlb = t.1 }) (t.0) (retlb c (t.1) h)

  pub read-Keeps : (pa size pc : ℕ) → Keeps (read bus pa size pc)
  unfolding read Keeps
  read-Keeps pa size pc c m h =
      or_trap-Keeps ((bus.load m pa size).1) pc c ((bus.load m pa size).0) h

  pub write-Keeps : (pa size val pc : ℕ) → Keeps (write bus pa size val pc)
  unfolding write Keeps
  write-Keeps pa size val pc c m h =
      or_trap-Keeps ((bus.store m pa size val).1) pc c ((bus.store m pa size val).0) h

  -- A register written.
  pub set_reg : (r v : ℕ) → Keeps (modify bus (λ c. write_reg c r v))
  unfolding Keeps
  set_reg r v c m h = write_reg-IsHart c r v h

  pub reg-Keeps : (r : ℕ) → Keeps (reg bus r)
  unfolding Keeps
  reg-Keeps r c m h = h

  pub pure-Keeps : {A : Type 0} (a : A) → Keeps (pure bus a)
  unfolding Keeps
  pure-Keeps a c m h = h

  unreserve : (r : Option ℕ) → Keeps (modify bus (λ c. record c { reservation = r }))
  unfolding Keeps
  unreserve r c m h = record {
    regs = h.regs;
    csrs = h.csrs;
    cache = h.cache;
    decodings = h.decodings;
    zero = h.zero;
  }

  clear_conflict : (addr : ℕ) → Keeps (modify bus (λ c. clear_reservation_if_conflict c addr))
  unfolding Keeps
  clear_conflict addr c m h = clear_reservation_if_conflict-IsHart c addr h

  pub if-Keeps :
      {A : Type 0} (b : Bool) (x y : Exec bus A) → Keeps x → Keeps y → Keeps (if b then x else y)
  if-Keeps true x y hx hy = hx
  if-Keeps false x y hx hy = hy

  module _ (pc raw : ℕ) where
    load_sized-Keeps :
        (o : Option ℕ) (rd addr funct3 : ℕ) → Keeps (load_sized bus pc raw o rd addr funct3)
    unfolding load_sized
    load_sized-Keeps none rd addr funct3 = raise-Keeps _ (illegal_instruction raw) pc
    load_sized-Keeps (some size) rd addr funct3 =
        bind-Keeps _ _ (translate_addr-Keeps addr pc Tlb.load)
          (λ pa. bind-Keeps _ _ (read-Keeps pa size pc) (λ v. set_reg rd (load_value funct3 v)))

    pub execute_load-Keeps :
        (rd rs1 imm funct3 : ℕ) → Keeps (execute_load bus pc raw rd rs1 imm funct3)
    unfolding execute_load
    execute_load-Keeps rd rs1 imm funct3 =
        bind-Keeps _ _ (reg-Keeps rs1)
          (λ base. load_sized-Keeps (load_size funct3) rd ((base + imm) % 2 ^ 64) funct3)

    store_sized-Keeps : (o : Option ℕ) (pa val : ℕ) → Keeps (store_sized bus pc raw o pa val)
    unfolding store_sized
    store_sized-Keeps none pa val = raise-Keeps _ (illegal_instruction raw) pc
    store_sized-Keeps (some size) pa val = write-Keeps pa size (val % 2 ^ (8 * size)) pc

    pub execute_store-Keeps :
        (rs1 rs2 imm funct3 : ℕ) → Keeps (execute_store bus pc raw rs1 rs2 imm funct3)
    unfolding execute_store
    execute_store-Keeps rs1 rs2 imm funct3 = bind-Keeps _ _ (reg-Keeps rs1) (λ base.
        bind-Keeps _ _ (translate_addr-Keeps ((base + imm) % 2 ^ 64) pc Tlb.store) (λ pa.
          bind-Keeps _ _ (clear_conflict ((base + imm) % 2 ^ 64)) (λ _.
            bind-Keeps _ _ (reg-Keeps rs2) (λ val. store_sized-Keeps (store_size funct3) pa val))))

    load_reserved-Keeps :
        (rd addr pa : ℕ) (is_word : Bool) → Keeps (load_reserved bus pc raw rd addr pa is_word)
    unfolding load_reserved
    load_reserved-Keeps rd addr pa is_word =
        bind-Keeps _ _ (read-Keeps pa (if is_word then 4 else 8) pc) (λ v.
          bind-Keeps _ _ (set_reg rd (if is_word then extend32 v else v))
            (λ _. unreserve (some (reservation_granule addr))))

    conditional_write-Keeps :
        (rd pa size val : ℕ) → Keeps (conditional_write bus pc raw rd pa size val)
    unfolding conditional_write
    conditional_write-Keeps rd pa size val =
        bind-Keeps _ _ (write-Keeps pa size val pc)
          (λ _. bind-Keeps _ _ (set_reg rd 0) (λ _. unreserve none))

    store_conditional-Keeps :
        (rd rs2 addr pa : ℕ) (is_word : Bool)
        → Keeps (store_conditional bus pc raw rd rs2 addr pa is_word)
    unfolding store_conditional Keeps
    store_conditional-Keeps rd rs2 addr pa is_word c m h = ground (
      arith,
      handle_trap-IsHart c (Types.store_address_misaligned addr) pc h,
      conditional_write-Keeps rd pa (if is_word then 4 else 8)
          (if is_word then low32 (read_reg c rs2) else read_reg c rs2) c m h,
      write_reg-IsHart c rd 1 h,
    )

    amo-Keeps :
        (op : AmoOp) (rd rs2 addr pa : ℕ) (is_word : Bool)
        → Keeps (amo bus pc raw op rd rs2 addr pa is_word)
    unfolding amo Keeps
    amo-Keeps op rd rs2 addr pa is_word c m h =
        let c' = clear_reservation_if_conflict c addr in
        let t = atomic bus op pa (read_reg c' rs2) is_word m in
        bind-Keeps (or_trap bus (t.1) pc) (λ old. modify bus (λ d. write_reg d rd old))
          (or_trap-Keeps (t.1) pc) (λ old. set_reg rd old) c' (t.0)
          (clear_reservation_if_conflict-IsHart c addr h)

    amo_named-Keeps :
        (o : Option AmoOp) (rd rs2 addr pa : ℕ) (is_word : Bool)
        → Keeps (amo_named bus pc raw o rd rs2 addr pa is_word)
    unfolding amo_named
    amo_named-Keeps none rd rs2 addr pa is_word = raise-Keeps _ (illegal_instruction raw) pc
    amo_named-Keeps (some op) rd rs2 addr pa is_word = amo-Keeps op rd rs2 addr pa is_word

    atomic_of-Keeps :
        (funct5 rd rs2 addr pa : ℕ) (is_word : Bool)
        → Keeps (atomic_of bus pc raw funct5 rd rs2 addr pa is_word)
    unfolding atomic_of
    atomic_of-Keeps funct5 rd rs2 addr pa is_word =
        if-Keeps _ _ _ (load_reserved-Keeps rd addr pa is_word) (
          if-Keeps _ _ _ (store_conditional-Keeps rd rs2 addr pa is_word)
            (amo_named-Keeps (amo_of funct5) rd rs2 addr pa is_word))

    pub execute_amo-Keeps :
        (rd rs1 rs2 funct3 funct5 : ℕ) → Keeps (execute_amo bus pc raw rd rs1 rs2 funct3 funct5)
    unfolding execute_amo
    execute_amo-Keeps rd rs1 rs2 funct3 funct5 = bind-Keeps _ _ (reg-Keeps rs1) (λ addr.
        bind-Keeps _ _ (translate_addr-Keeps addr pc Tlb.load) (λ pa.
          if-Keeps _ _ _ (atomic_of-Keeps funct5 rd rs2 addr pa true) (
            if-Keeps _ _ _ (atomic_of-Keeps funct5 rd rs2 addr pa false)
              (raise-Keeps _ (illegal_instruction raw) pc))))
