-- ===== src/Clint/Mmio.antt =====
-- riscv-vm/src/devices/clint.rs: the memory-mapped registers.
use bavy.Prelude.{
  ℕ, ◌+◌, ◌-◌, ◌*◌, ◌/◌, ◌%◌, ◌^◌, bit_and, ◌&&◌, ◌||◌, ◌==◌, ltb, leb, if◌then◌else◌, List, get_or,
}
use bavy.Prelude.Bits.{◌>>>◌}
use bavy.Clint.State.{
  Clint, max_harts, max_u64, mtime, set_msip, set_mtimecmp, set_mtimecmp_low, set_mtimecmp_high,
}
use bavy.Clint.Update.{Attempt}

abbrev pub mtime_offset : ℕ
mtime_offset = 0xbff8

abbrev pub mtimecmp_offset : ℕ
mtimecmp_offset = 0x4000

abbrev pub hart_count_offset : ℕ
hart_count_offset = 0x0F00

abbrev pub low_half : ℕ
low_half = 2 ^ 32 - 1

unfoldable pub load_mtimecmp_half : Clint → ℕ → ℕ
load_mtimecmp_half c o =
    let val = get_or c.mtimecmp ((o - mtimecmp_offset) / 8) max_u64 in
    let sub_offset = (o - mtimecmp_offset) % 8 in
    if leb max_harts ((o - mtimecmp_offset) / 8)
    then 0
    else if sub_offset == 0
    then bit_and val low_half
    else if sub_offset == 4
    then val >>> 32
    else 0

unfoldable pub load : ℕ → Clint → ℕ → ℕ → ℕ
load now c o size =
    let in_timers = leb mtimecmp_offset o && ltb o (mtimecmp_offset + max_harts * 8) in
    let msip_hart = o / 4 in
    let timer_hart = (o - mtimecmp_offset) / 8 in
    if o == mtime_offset && size == 8
    then mtime now c
    else if o == mtime_offset && size == 4
    then bit_and (mtime now c) low_half
    else if o == mtime_offset + 4 && size == 4
    then mtime now c >>> 32
    else if size == 4 && ltb o (max_harts * 4)
    then if ltb msip_hart max_harts then get_or c.msip msip_hart 0 else 0
    else if size == 8 && in_timers
    then if ltb timer_hart max_harts then get_or c.mtimecmp timer_hart max_u64 else max_u64
    else if size == 4 && in_timers
    then load_mtimecmp_half c o
    else if o == hart_count_offset && (size == 4 || size == 8)
    then c.num_harts
    else 0

unfoldable pub store_mtimecmp_half : Clint → List Attempt → ℕ → ℕ → Clint
store_mtimecmp_half c attempts o value =
    let hart_idx = (o - mtimecmp_offset) / 8 in
    let sub_offset = (o - mtimecmp_offset) % 8 in
    if leb max_harts hart_idx
    then c
    else if sub_offset == 0
    then set_mtimecmp_low c attempts hart_idx (value % 2 ^ 32)
    else if sub_offset == 4
    then set_mtimecmp_high c attempts hart_idx (value % 2 ^ 32)
    else c

unfoldable pub store : Clint → List Attempt → ℕ → ℕ → ℕ → Clint
store c attempts o size value =
    let in_timers = leb mtimecmp_offset o && ltb o (mtimecmp_offset + max_harts * 8) in
    if size == 4 && ltb o (max_harts * 4)
    then if ltb (o / 4) max_harts then set_msip c (o / 4) (value % 2 ^ 32) else c
    else if o == mtime_offset
    then c
    else if o == mtime_offset + 4 && size == 4
    then c
    else if size == 8 && in_timers
    then set_mtimecmp c ((o - mtimecmp_offset) / 8) value
    else if size == 4 && in_timers
    then store_mtimecmp_half c attempts o value
    else c
