-- ===== src/Lib.antt =====
-- Bavy: the RISC-V virtual machine of riscv-vm/src, as far as it is modelled here.
--
-- A guest hart fetches, loads and stores through the MMU, which translates by the page table in
-- guest memory and caches in a TLB; the words are decoded, the 16-bit ones after an expansion, and
-- the interpreter executes them or enters a trap, which a mode handles by the delegation registers.
-- Straight code is also compiled: a block of micro-operations is kept in the block cache by its
-- address, runs without fetching or decoding, chains to the next block, and hands back to the
-- interpreter what it does not run itself. Every 256th step polls the devices for interrupts.
-- Physical addresses go over a bus to memory and to the devices: the CLINT (timers, software
-- interrupts and the parking of waiting harts), the PLIC (external interrupts) and the UART. The CSR
-- file holds the privileged registers. The supervisor calls the emulated firmware by SBI, whose HSM
-- extension starts and stops harts and whose IPI extension interrupts them.
--
-- Files and source:
--   Prelude.antt and below: tests, lists as arrays, results, bounded searches, and the bits of
--     native numbers, which stand for Rust's unsigned integers. A cast to w bits is `% 2 ^ w`, `!x`
--     on w bits is `complement w x`, and a shift left is cut where the source cuts it.
--   Cpu/Types.antt: riscv-vm/src/cpu/types.rs. Cpu/Csr.antt: riscv-vm/src/cpu/csr.rs, with Views
--     (the supervisor's windows), Confined (what a mode can change) and Snapshot below it.
--   Cpu/State.antt: the hart of riscv-vm/src/cpu/core.rs, with its decode cache and reservation.
--     Cpu/Trap.antt: trap entry and the choice of an interrupt in cpu/core.rs, MRET and SRET in
--     riscv-vm/src/cpu/execution.rs; below it Fields and Mstatus have the bits of mstatus, Entry,
--     Return, Priority and Taken the theorems.
--   Cpu/Execute.antt and below: `step_single_inner` of riscv-vm/src/cpu/execution.rs and
--     `fetch_and_expand` of cpu/core.rs. Monad has the parts that an instruction is put together
--     from, with `?` and `return self.handle_trap(..)`; Alu the results of the integer instructions;
--     Memory, Atomic, System and Step the instructions; Poll the polling of `step` and `step_single`;
--     Hart, Keeps, Safe, Steps, Cached, Reserve, Shift, Timer and Alu/Laws the theorems.
--   Cpu/Blocks.antt and below: the compiled blocks. Words and Micro have the arms of
--     `execute_block_inner` of cpu/core.rs, which are cut by the kind of operation, and Exec its
--     loop; Chain has `try_execute_block` and `step` of cpu/execution.rs, with the hart's block cache
--     beside the hart. Reference runs the same instructions in the interpreter; Same, Agree, Integer,
--     Control, Memory and Step compare one operation with its instruction, Correct a block. Offsets,
--     Grow, Fetch, Reads, Compiled and Compiling are about the block compiler, Cached and Stored
--     about the cache across steps, Range about the registers and shifts of the operations, Illegal
--     about words that the architecture does not have.
--   Engine/Decoder.antt, Encode.antt, Compressed.antt: riscv-vm/src/engine/decoder.rs. Decoder/Fields
--     and Decoder/Assemble, Encode/Words and Expansion with the files below it set the code against
--     the architecture's formats and tables.
--   Engine/Microop.antt: riscv-vm/src/engine/microop.rs. Engine/Block.antt:
--     riscv-vm/src/engine/block.rs, with Transcode (`transcode`) and Compile (`compile` and `fetch_insn`) below it; the compiler's
--     copies of satp, mstatus, the mode and the TLB are read from the hart, which holds them.
--     Engine/Cache.antt: riscv-vm/src/engine/cache.rs, with Lookup and Found, its theorems. The hash map
--     is a list of addresses and blocks, whose order is that in which the map is walked.
--   Bus.antt: the generic `load` and `store` of the trait in riscv-vm/src/bus.rs, on a state of the
--     implementation's own; Bus/Atomic.antt: the trait's own atomic operations. Dram.antt: the error
--     type of riscv-vm/src/dram.rs.
--   Mmu.antt and below: riscv-vm/src/mmu.rs. Tlb has the TLB (Lookup and Flush its theorems), Pte
--     the decoding of a page-table entry (Permission, Dirty and Address its theorems), Translate the
--     function `translate`, cut into the TLB hit, the loop over the levels (`walk`) and the leaf
--     (`leaf`, `finish`). Translate/Walk and Translate/Marked say, without that code, where the tables
--     lead, what a walk marks in the PTE and what it may cache.
--   Plic.antt and below: riscv-vm/src/devices/plic.rs, with the state behind the mutex and its
--     atomic caches in one record; a method holds the mutex to its end and is one step.
--   Clint.antt and below: riscv-vm/src/devices/clint.rs. The clock `now_millis` is an argument. The
--     compare-exchange loops run under a list of rounds that other harts disturb.
--   Uart.antt and below: riscv-vm/src/devices/uart.rs.
--   Sbi/Hsm.antt: riscv-vm/src/sbi/hsm.rs and the results of riscv-vm/src/sbi/mod.rs. Sbi/Ipi.antt:
--     riscv-vm/src/sbi/ipi.rs, whose theorems are on a bus that is the CLINT.
--   The files named Tests apply the theorems to concrete inputs.
--
-- Bounds: `walk` recurses on the number of levels that are left, which is at most 4, so it needs no
-- fuel; the loops over sources, contexts and harts recurse on what is left of their fixed ranges;
-- the compare-exchange loop recurses on the rounds that are disturbed, and the round after them
-- ends it. The loop of the block compiler recurses on its rounds: 65, one more than the operations
-- that fit, are enough, as every round but the last adds one. The chain of blocks recurses on the
-- depth of 16 that the code sets. An index out of an array's bounds, where Rust panics, is `none`.
--
-- Not modelled: the SBI dispatcher, which the interpreter takes as a parameter; the system bus's
-- routing and the memory itself, and with them `poll_interrupts_for_hart`, which is a parameter; the
-- statistics of the block cache; the VirtIO and D1 devices, snapshots of the whole machine, the front
-- ends, the network and the boot loaders. Many of these are I/O. Logging is left out everywhere.
-- Memory orderings weaker than a sequence of steps are not modelled, and an atomic operation is the
-- trait's read and write in one step.
pub mod Prelude
pub mod Cpu
pub mod Bus
pub mod Mmu
pub mod Dram
pub mod Engine
pub mod Plic
pub mod Clint
pub mod Uart
pub mod Sbi
