-- ===== src/Cpu/Trap/Fields.antt =====
-- riscv-vm/src/cpu/core.rs: the fields of mstatus, bit by bit.
use bavy.Prelude.{
  ℕ, zero, suc, ◌*◌, ◌/◌, ◌^◌, ◌%◌, ◌<◌, ◌≡◌, refl, arith, bit_and, bit_or, ◌==◌, if◌then◌else◌,
}
use bavy.Prelude.Bits.{
  ◌>>>◌, ◌<<<◌, complement, bit, bit-lt, bit-zero, bit-pow, bit-bit_or, bit-bit_and, bit-complement,
  bit-beyond, bit_and-lt, bit_or-lt, bit_and_mask, bit-eq-shr, two_pow-lt,
}
use bavy.Cpu.Types.{Mode, user, supervisor, machine, to_mpp, from_mpp}
use bavy.Cpu.Trap.{set_field}

pub bit-shl_one : (v k i : ℕ) → v < 2 → bit (v <<< k) i ≡ (if k == i then v else 0)
bit-shl_one zero k i fits = ground (arith, bit-zero i)
bit-shl_one (suc zero) k i fits = let one : 1 * 2 ^ k ≡ 2 ^ k = omega arith in rw one (bit-pow k i)
bit-shl_one (suc (suc v)) k i fits = absurd (omega arith)

-- Bit k put to 0.
pub bit-clear_one :
    (m k i : ℕ)
    → m < 2 ^ 64
    → k < 64
    → bit (bit_and m (complement 64 (1 <<< k))) i ≡ (if k == i then 0 else bit m i)
bit-clear_one m k i word inside =
    let small : 1 <<< k < 2 ^ 64 = omega (arith, two_pow-lt inside) in
    ground (
      arith,
      bit-bit_and m (complement 64 (1 <<< k)) i,
      bit-complement 64 (1 <<< k) i small,
      bit-shl_one 1 k i,
      bit-lt m i,
      bit-beyond 64 m i word,
    )

pub bit-set_field_one :
    (m k v i : ℕ)
    → m < 2 ^ 64
    → k < 64
    → v < 2
    → bit (set_field m 1 k v) i ≡ (if k == i then v else bit m i)
unfolding set_field
bit-set_field_one m k v i word inside fits = ground (
  arith,
  bit-bit_or (bit_and m (complement 64 (1 <<< k))) (v <<< k) i,
  bit-clear_one m k i word inside,
  bit-shl_one v k i fits,
)

shl_one-lt : (v k : ℕ) → k < 64 → v < 2 → v <<< k < 2 ^ 64
shl_one-lt zero k inside fits = omega arith
shl_one-lt (suc zero) k inside fits = omega (arith, two_pow-lt inside)
shl_one-lt (suc (suc v)) k inside fits = absurd (omega arith)

-- A word stays a word.
pub set_field_one-lt : (m k v : ℕ) → m < 2 ^ 64 → k < 64 → v < 2 → set_field m 1 k v < 2 ^ 64
unfolding set_field
set_field_one-lt m k v word inside fits =
    bit_or-lt 64 (bit_and m (complement 64 (1 <<< k))) (v <<< k)
      (bit_and-lt 64 m (complement 64 (1 <<< k)) word) (shl_one-lt v k inside fits)

-- MPP, of two bits.
mpp_mask : (i : ℕ) → bit (0b11 <<< 11) i ≡ (if 11 == i then 1 else if 12 == i then 1 else 0)
mpp_mask i =
    let e : 0b11 <<< 11 ≡ bit_or (2 ^ 11) (2 ^ 12) = refl in
    rw e (ground (arith, bit-bit_or (2 ^ 11) (2 ^ 12) i, bit-pow 11 i, bit-pow 12 i))

pub bit-clear_mpp :
    (m i : ℕ)
    → m < 2 ^ 64
    → bit (bit_and m (complement 64 (0b11 <<< 11))) i
      ≡ (if 11 == i then 0 else if 12 == i then 0 else bit m i)
bit-clear_mpp m i word = ground (
  arith,
  bit-bit_and m (complement 64 (0b11 <<< 11)) i,
  bit-complement 64 (0b11 <<< 11) i,
  mpp_mask i,
  bit-lt m i,
  bit-beyond 64 m i word,
)

bit-to_mpp :
    (mode : Mode) (i : ℕ)
    → bit (to_mpp mode <<< 11) i
      ≡ (if 11 == i then to_mpp mode % 2 else if 12 == i then to_mpp mode / 2 else 0)
unfolding to_mpp
bit-to_mpp user i = ground (arith, bit-zero i)
bit-to_mpp supervisor i = ground (arith, bit-pow 11 i)
bit-to_mpp machine i = ground (arith, mpp_mask i)

pub bit-set_field_mpp :
    (m i : ℕ) (mode : Mode)
    → m < 2 ^ 64
    → bit (set_field m 0b11 11 (to_mpp mode)) i
      ≡ (if 11 == i then to_mpp mode % 2 else if 12 == i then to_mpp mode / 2 else bit m i)
unfolding set_field
bit-set_field_mpp m i mode word = ground (
  arith,
  bit-bit_or (bit_and m (complement 64 (0b11 <<< 11))) (to_mpp mode <<< 11) i,
  bit-clear_mpp m i word,
  bit-to_mpp mode i,
)

-- MPP, read back.
pub from_mpp-bits :
    (m : ℕ) (mode : Mode)
    → bit m 11 ≡ to_mpp mode % 2
    → bit m 12 ≡ to_mpp mode / 2
    → from_mpp (bit_and (m >>> 11) 0b11) ≡ mode
unfolding from_mpp to_mpp
from_mpp-bits m user low high = ground (
  arith,
  bit_and_mask 2 (m >>> 11),
  bit_and_mask 2 (bit_and (m >>> 11) 3),
  bit-eq-shr m 11,
  bit-eq-shr m 12,
)
from_mpp-bits m supervisor low high = ground (
  arith,
  bit_and_mask 2 (m >>> 11),
  bit_and_mask 2 (bit_and (m >>> 11) 3),
  bit-eq-shr m 11,
  bit-eq-shr m 12,
)
from_mpp-bits m machine low high = ground (
  arith,
  bit_and_mask 2 (m >>> 11),
  bit_and_mask 2 (bit_and (m >>> 11) 3),
  bit-eq-shr m 11,
  bit-eq-shr m 12,
)
