-- ===== src/Cpu/Trap/Mstatus.antt =====
-- riscv-vm/src/cpu/core.rs, execution.rs: what trap entry and return do to each bit of mstatus.
use bavy.Prelude.{ℕ, ◌/◌, ◌^◌, ◌%◌, ◌<◌, ◌≡◌, arith, bit_and, bit_or, ◌==◌, if◌then◌else◌}
use bavy.Prelude.Bits.{
  ◌<<<◌, complement, bit, bit-lt, bit-pow, bit-bit_or, bit_shr_test, bit_and-lt, bit_or-lt,
}
use bavy.Cpu.Types.{Mode, user, supervisor, machine, to_mpp}
use bavy.Cpu.Trap.{set_field, supervisor_mstatus, machine_mstatus, mret_mstatus, sret_mstatus}
use bavy.Cpu.Trap.Fields.{
  bit-clear_one, bit-set_field_one, set_field_one-lt, bit-set_field_mpp, bit-clear_mpp,
}

-- The previous privilege that the supervisor's entry notes.
abbrev pub spp_of : Mode → ℕ
spp_of supervisor = 1
spp_of user = 0
spp_of machine = 0

module _ (m k : ℕ) (word : m < 2 ^ 64) where
  pub bit-machine_mstatus :
      (mode : Mode)
      → bit (machine_mstatus m mode) k ≡ (
          if 11 == k
          then to_mpp mode % 2
          else if 12 == k
          then to_mpp mode / 2
          else if 3 == k
          then 0
          else if 7 == k
          then bit m 3
          else bit m k)
  unfolding machine_mstatus
  bit-machine_mstatus mode =
      let saved = set_field m 1 7 (bit m 3) in
      let fits = set_field_one-lt m 7 (bit m 3) word (omega arith) (bit-lt m 3) in
      let cleared = bit_and saved (complement 64 (1 <<< 3)) in
      rw (bit_shr_test m 3) (
        ground (
          arith,
          bit-set_field_mpp cleared k mode (bit_and-lt 64 saved (complement 64 (1 <<< 3)) fits),
          bit-clear_one saved 3 k fits,
          bit-set_field_one m 7 (bit m 3) k word (omega arith) (bit-lt m 3),
        ))

  pub bit-supervisor_mstatus :
      (mode : Mode)
      → bit (supervisor_mstatus m mode) k ≡ (
          if 8 == k then spp_of mode else if 1 == k then 0 else if 5 == k then bit m 1 else bit m k)
  unfolding supervisor_mstatus
  bit-supervisor_mstatus mode =
      let saved = set_field m 1 5 (bit m 1) in
      let fits = set_field_one-lt m 5 (bit m 1) word (omega arith) (bit-lt m 1) in
      let cleared = bit_and saved (complement 64 (1 <<< 1)) in
      let small : spp_of mode < 2 = ground arith in
      rw (bit_shr_test m 1) (
        ground (
          arith,
          bit-set_field_one cleared 8 (spp_of mode) k
              (bit_and-lt 64 saved (complement 64 (1 <<< 1)) fits) (omega arith) small,
          bit-clear_one saved 1 k fits,
          bit-set_field_one m 5 (bit m 1) k word (omega arith) (bit-lt m 1),
        ))

  pub bit-mret_mstatus : bit (mret_mstatus m) k ≡ (
      if 11 == k
      then 0
      else if 12 == k
      then 0
      else if 7 == k
      then 1
      else if 3 == k
      then bit m 7
      else bit m k)
  unfolding mret_mstatus
  bit-mret_mstatus =
      let saved = set_field m 1 3 (bit m 7) in
      let fits = set_field_one-lt m 3 (bit m 7) word (omega arith) (bit-lt m 7) in
      let on = bit_or saved (1 <<< 7) in
      rw (bit_shr_test m 7) (
        ground (
          arith,
          bit-clear_mpp on k (bit_or-lt 64 saved (1 <<< 7) fits (omega arith)),
          bit-bit_or saved (1 <<< 7) k,
          bit-pow 7 k,
          bit-set_field_one m 3 (bit m 7) k word (omega arith) (bit-lt m 7),
          bit-lt m k,
          bit-lt m 7,
        ))

  pub bit-sret_mstatus :
      bit (sret_mstatus m) k
      ≡ (if 8 == k then 0 else if 5 == k then 1 else if 1 == k then bit m 5 else bit m k)
  unfolding sret_mstatus
  bit-sret_mstatus =
      let saved = set_field m 1 1 (bit m 5) in
      let fits = set_field_one-lt m 1 (bit m 5) word (omega arith) (bit-lt m 5) in
      let on = bit_or saved (1 <<< 5) in
      rw (bit_shr_test m 5) (
        ground (
          arith,
          bit-clear_one on 8 k (bit_or-lt 64 saved (1 <<< 5) fits (omega arith)),
          bit-bit_or saved (1 <<< 5) k,
          bit-pow 5 k,
          bit-set_field_one m 1 (bit m 5) k word (omega arith) (bit-lt m 5),
          bit-lt m k,
          bit-lt m 5,
        ))

  pub machine_mstatus-lt : (mode : Mode) → machine_mstatus m mode < 2 ^ 64
  unfolding machine_mstatus set_field to_mpp
  machine_mstatus-lt mode =
      let saved = set_field m 1 7 (bit m 3) in
      let fits = set_field_one-lt m 7 (bit m 3) word (omega arith) (bit-lt m 3) in
      let cleared = bit_and saved (complement 64 (1 <<< 3)) in
      let mpp : to_mpp mode <<< 11 < 2 ^ 64 = ground arith in
      rw (bit_shr_test m 3) (
        bit_or-lt 64 (bit_and cleared (complement 64 (0b11 <<< 11))) (to_mpp mode <<< 11)
          (bit_and-lt 64 cleared (complement 64 (0b11 <<< 11))
            (bit_and-lt 64 saved (complement 64 (1 <<< 3)) fits))
          mpp)

  pub supervisor_mstatus-lt : (mode : Mode) → supervisor_mstatus m mode < 2 ^ 64
  unfolding supervisor_mstatus
  supervisor_mstatus-lt mode =
      let saved = set_field m 1 5 (bit m 1) in
      let fits = set_field_one-lt m 5 (bit m 1) word (omega arith) (bit-lt m 1) in
      let cleared = bit_and saved (complement 64 (1 <<< 1)) in
      let small : spp_of mode < 2 = ground arith in
      rw (bit_shr_test m 1) (
        set_field_one-lt cleared 8 (spp_of mode)
          (bit_and-lt 64 saved (complement 64 (1 <<< 1)) fits) (omega arith) small)
