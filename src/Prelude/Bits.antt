-- ===== src/Prelude/Bits.antt =====
-- Bits of native numbers: the operations of Rust's unsigned integers, read bit by bit.
mod Step
use native.Mathlib.Nat.{
  pow-suc, pow-succ', one-le-pow, div-div-eq-div-mul, mod-add-div', pow-le-pow_right, div-eq_of_lt,
}
use Prim.Native.Nat.{
  ℕ, zero, suc, ◌+◌, ◌-◌, ◌*◌, ◌/◌, ◌%◌, ◌^◌, ◌≤◌, ◌<◌, min, max, bit_and, bit_or, bit_and-bitwise,
}
use mathlib.Core.Path.{◌≡◌, refl, ap, ◌∙◌, sym, subst}
use mathlib.Core.Logic.{◌≢◌}
use native.Mathlib.Omega.{arith}
use Step.{bit_or_step, bit_and_step}
use bavy.Prelude.Tests.{ltb, ◌==◌, if◌then◌else◌}

-- x >> k, on any unsigned width.
infixl 60 ◌>>>◌ ◌<<<◌
abbrev pub ◌>>>◌ : ℕ → ℕ → ℕ
x >>> k = x / 2 ^ k

-- x << k, before it is cut to the width.
abbrev pub ◌<<<◌ : ℕ → ℕ → ℕ
x <<< k = x * 2 ^ k

-- !m on a w-bit unsigned integer, for m below 2 ^ w.
abbrev pub complement : ℕ → ℕ → ℕ
complement w m = 2 ^ w - 1 - m

-- Bit i of x, 0 or 1.
unfoldable pub bit : ℕ → ℕ → ℕ
bit x zero = x % 2
bit x (suc i) = bit (x / 2) i

pub bit-lt : (x i : ℕ) → bit x i < 2
unfolding bit
bit-lt x zero = omega arith
bit-lt x (suc i) = bit-lt (x / 2) i

pub bit-bit_and : (a b i : ℕ) → bit (bit_and a b) i ≡ min (bit a i) (bit b i)
unfolding bit
bit-bit_and a b zero = omega (arith, bit_and_step a b)
bit-bit_and a b (suc i) =
    let e : bit_and a b / 2 ≡ bit_and (a / 2) (b / 2) = omega (arith, bit_and_step a b) in
    rw e (bit-bit_and (a / 2) (b / 2) i)

pub bit-bit_or : (a b i : ℕ) → bit (bit_or a b) i ≡ max (bit a i) (bit b i)
unfolding bit
bit-bit_or a b zero = omega (arith, bit_or_step a b)
bit-bit_or a b (suc i) =
    let e : bit_or a b / 2 ≡ bit_or (a / 2) (b / 2) = omega (arith, bit_or_step a b) in
    rw e (bit-bit_or (a / 2) (b / 2) i)

pub bit-zero : (i : ℕ) → bit 0 i ≡ 0
unfolding bit
bit-zero zero = refl
bit-zero (suc i) = bit-zero i

-- Numbers with the same bits are equal.
bit_ext_fuel : (n a b : ℕ) → a ≤ n → b ≤ n → ((i : ℕ) → bit a i ≡ bit b i) → a ≡ b
unfolding bit
bit_ext_fuel zero a b p q h = omega arith
bit_ext_fuel (suc n) a b p q h =
    omega (arith, h 0, bit_ext_fuel n (a / 2) (b / 2) (omega arith) (omega arith) (λ i. h (suc i)))

pub bit_ext : (a b : ℕ) → ((i : ℕ) → bit a i ≡ bit b i) → a ≡ b
bit_ext a b h = bit_ext_fuel (a + b) a b (omega arith) (omega arith) h

pub bit-pow : (k i : ℕ) → bit (2 ^ k) i ≡ (if k == i then 1 else 0)
unfolding bit
bit-pow zero zero = refl
bit-pow zero (suc i) = ground (arith, bit-zero i)
bit-pow (suc k) zero = ground (arith, pow-suc 2 k)
bit-pow (suc k) (suc i) =
    let e : 2 ^ suc k / 2 ≡ 2 ^ k = omega (arith, pow-suc 2 k) in rw e (ground (arith, bit-pow k i))

pub bit-complement :
    (w m i : ℕ) → m < 2 ^ w → bit (complement w m) i ≡ (if ltb i w then 1 - bit m i else 0)
unfolding bit
bit-complement zero m i h = ground (arith, bit-zero i)
bit-complement (suc w) m zero h = ground (arith, pow-suc 2 w, one-le-pow w 2)
bit-complement (suc w) m (suc i) h =
    let e : complement (suc w) m / 2 ≡ complement w (m / 2) =
      omega (arith, pow-suc 2 w, one-le-pow w 2) in
    rw e (ground (arith, bit-complement w (m / 2) i (omega (arith, pow-suc 2 w)), one-le-pow w 2))

-- A shift right drops the low bits.
pub shr-suc : (x k : ℕ) → x >>> suc k ≡ (x / 2) >>> k
shr-suc x k = rw (pow-succ' 2 k) (sym (div-div-eq-div-mul x 2 (2 ^ k)))

pub bit-eq-shr : (x i : ℕ) → bit x i ≡ (x >>> i) % 2
unfolding bit
bit-eq-shr x zero = omega arith
bit-eq-shr x (suc i) = rw (shr-suc x i) (bit-eq-shr (x / 2) i)

bit_and-zero : (a : ℕ) → bit_and a 0 ≡ 0
bit_and-zero a = bit_ext (bit_and a 0) 0 (λ i. omega (arith, bit-bit_and a 0 i, bit-zero i))

bit_or-zero : (a : ℕ) → bit_or a 0 ≡ a
bit_or-zero a = bit_ext (bit_or a 0) a (λ i. omega (arith, bit-bit_or a 0 i, bit-zero i))

mod-two_pow-suc : (a k : ℕ) → a % 2 ^ suc k ≡ (a / 2) % 2 ^ k * 2 + a % 2
mod-two_pow-suc a k =
    let quotients : a / 2 ^ suc k ≡ a / 2 / 2 ^ k = shr-suc a k in
    let widths : (a / 2 ^ suc k) * 2 ^ suc k ≡ (a / 2 / 2 ^ k) * 2 ^ k * 2 =
      rw (quotients, pow-suc 2 k) (omega arith) in
    omega (arith, widths, mod-add-div' a (2 ^ suc k), mod-add-div' (a / 2) (2 ^ k))

-- A mask of k low bits is the remainder by 2 ^ k.
pub bit_and_mask : (k a : ℕ) → bit_and a (2 ^ k - 1) ≡ a % 2 ^ k
bit_and_mask zero a = omega (arith, bit_and-zero a)
bit_and_mask (suc k) a =
    let half : (2 ^ suc k - 1) / 2 ≡ 2 ^ k - 1 = omega (arith, pow-suc 2 k, one-le-pow k 2) in
    let odd : (2 ^ suc k - 1) % 2 ≡ 1 = omega (arith, pow-suc 2 k, one-le-pow k 2) in
    rw (bit_and_step a (2 ^ suc k - 1), half, odd, bit_and_mask k (a / 2), mod-two_pow-suc a k)
      (omega arith)

-- `(q << k) | r` is a sum when r fits k bits.
pub bit_or_fields : (k q r : ℕ) → r < 2 ^ k → bit_or (q * 2 ^ k) r ≡ q * 2 ^ k + r
bit_or_fields zero q r fits = ground (arith, bit_or-zero q)
bit_or_fields (suc k) q r fits =
    let twice : q * 2 ^ suc k ≡ 2 * (q * 2 ^ k) =
      omega (arith, ap (λ (t : ℕ). q * t) (pow-suc 2 k)) in
    let half : q * 2 ^ suc k / 2 ≡ q * 2 ^ k = omega arith in
    let rest = bit_or_fields k q (r / 2) (omega (arith, pow-suc 2 k)) in
    rw (bit_or_step (q * 2 ^ suc k) r, half, rest) (omega arith)

-- `x | r` is a sum when r fits n bits and x has none of those bits.
pub bit_or-low : (n x r : ℕ) → x % 2 ^ n ≡ 0 → r < 2 ^ n → bit_or x r ≡ x + r
bit_or-low n x r free fits =
    let whole : (x / 2 ^ n) * 2 ^ n ≡ x = omega (arith, mod-add-div' x (2 ^ n)) in
    subst (λ y. bit_or y r ≡ y + r) whole (bit_or_fields n (x / 2 ^ n) r fits)

-- The same for bits k to k + n - 1.
pub bit_or-gap :
    (k n x r : ℕ) → (x / 2 ^ k) % 2 ^ n ≡ 0 → r < 2 ^ n → bit_or x (r * 2 ^ k) ≡ x + r * 2 ^ k
bit_or-gap zero n x r free fits =
    subst (λ s. bit_or x s ≡ x + s) (omega arith)
      (bit_or-low n x r (subst (λ y. y % 2 ^ n ≡ 0) (omega arith) free) fits)
bit_or-gap (suc k) n x r free fits =
    let twice : r * 2 ^ suc k ≡ 2 * (r * 2 ^ k) =
      omega (arith, ap (λ (t : ℕ). r * t) (pow-suc 2 k)) in
    let half : r * 2 ^ suc k / 2 ≡ r * 2 ^ k = omega arith in
    let rest = bit_or-gap k n (x / 2) r (subst (λ y. y % 2 ^ n ≡ 0) (shr-suc x k) free) fits in
    rw (bit_or_step x (r * 2 ^ suc k), half, rest) (omega arith)

-- The test `x & (1 << k)`.
pub bit_and-pow : (x k : ℕ) → bit_and x (2 ^ k) ≡ bit x k * 2 ^ k
unfolding bit
bit_and-pow x zero = omega (arith, bit_and_mask 1 x)
bit_and-pow x (suc k) =
    let half : 2 ^ suc k / 2 ≡ 2 ^ k = omega (arith, pow-suc 2 k) in
    rw (bit_and_step x (2 ^ suc k), half, bit_and-pow (x / 2) k)
      (omega (arith, ap (λ (t : ℕ). bit (x / 2) k * t) (pow-suc 2 k), pow-suc 2 k))

pub bit_and-pow_test : (x k : ℕ) → (bit_and x (2 ^ k) == 0) ≡ (bit x k == 0)
bit_and-pow_test x k = rw (bit_and-pow x k) (go (bit x k) (bit-lt x k))
  where
    go : (b : ℕ) → b < 2 → (b * 2 ^ k == 0) ≡ (b == 0)
    go zero h = ground arith
    go (suc zero) h = ground (arith, one-le-pow k 2)
    go (suc (suc b)) h = absurd (omega arith)

-- The test `(x >> k) & 1`.
pub bit_shr_test : (x k : ℕ) → bit_and (x >>> k) 1 ≡ bit x k
bit_shr_test x k = omega (arith, bit_and_mask 1 (x >>> k), bit-eq-shr x k)

-- A mask and its complement split a number in two.
pub bit_and-complement :
    (w x m : ℕ) → x < 2 ^ w → m < 2 ^ w → bit_and x m + bit_and x (complement w m) ≡ x
bit_and-complement zero x m hx hm =
    let x_zero : x ≡ 0 = omega arith in let m_zero : m ≡ 0 = omega arith in rw (x_zero, m_zero) refl
bit_and-complement (suc w) x m hx hm =
    let half : complement (suc w) m / 2 ≡ complement w (m / 2) =
      omega (arith, pow-suc 2 w, one-le-pow w 2) in
    let low : complement (suc w) m % 2 ≡ 1 - m % 2 = omega (arith, pow-suc 2 w, one-le-pow w 2) in
    let rest =
      bit_and-complement w (x / 2) (m / 2) (omega (arith, pow-suc 2 w))
        (omega (arith, pow-suc 2 w)) in
    rw (bit_and_step x m, bit_and_step x (complement (suc w) m), half, low) (omega (arith, rest))

-- Clearing the k low bits of a w-bit number.
pub clear_low :
    (w k x : ℕ) → k ≤ w → x < 2 ^ w → bit_and x (complement w (2 ^ k - 1)) ≡ x - x % 2 ^ k
clear_low w k x h hx = omega (
  arith,
  bit_and_mask k x,
  one-le-pow k 2,
  bit_and-complement w x (2 ^ k - 1) hx
      (omega (arith, pow-le-pow_right {n = 2} (omega arith) h, one-le-pow k 2)),
)

pub two_pow-lt : {k w : ℕ} → k < w → 2 ^ k < 2 ^ w
two_pow-lt {k} {w} h =
    omega (arith, pow-le-pow_right {n = 2} (omega arith) h, pow-suc 2 k, one-le-pow k 2)

-- The bits of a w-bit number from w on are clear.
pub bit-beyond : (w x i : ℕ) → x < 2 ^ w → w ≤ i → bit x i ≡ 0
bit-beyond w x i fits h =
    let small : x < 2 ^ i = omega (arith, pow-le-pow_right {n = 2} (omega arith) h) in
    rw (bit-eq-shr x i, div-eq_of_lt small) refl

-- Setting bit k of a w-bit number in which it is clear, and clearing it, gives the number back.
pub set_clear :
    (w x k : ℕ)
    → x < 2 ^ w
    → k < w
    → bit x k ≡ 0
    → bit_and (bit_or x (2 ^ k)) (complement w (2 ^ k)) ≡ x
set_clear w x k fits low clear = bit_ext (bit_and (bit_or x (2 ^ k)) (complement w (2 ^ k))) x λ i.
    ground (
      arith,
      bit-bit_and (bit_or x (2 ^ k)) (complement w (2 ^ k)) i,
      bit-bit_or x (2 ^ k) i,
      bit-complement w (2 ^ k) i (two_pow-lt low),
      bit-pow k i,
      bit-lt x i,
      bit-beyond w x i fits,
    )

-- The operations stay within a width.
pub bit_and-lt : (w a b : ℕ) → a < 2 ^ w → bit_and a b < 2 ^ w
bit_and-lt zero a b fits =
    let none : a ≡ 0 = omega arith in rw none (simp bit_and-bitwise (omega arith))
bit_and-lt (suc w) a b fits =
    let half = bit_and-lt w (a / 2) (b / 2) (omega (arith, pow-suc 2 w)) in
    omega (arith, bit_and_step a b, half, pow-suc 2 w)

pub bit_or-lt : (w a b : ℕ) → a < 2 ^ w → b < 2 ^ w → bit_or a b < 2 ^ w
bit_or-lt zero a b fits small =
    let left : a ≡ 0 = omega arith in
    let right : b ≡ 0 = omega arith in rw (left, right) (omega arith)
bit_or-lt (suc w) a b fits small =
    let half =
      bit_or-lt w (a / 2) (b / 2) (omega (arith, pow-suc 2 w)) (omega (arith, pow-suc 2 w)) in
    omega (arith, bit_or_step a b, half, pow-suc 2 w)
