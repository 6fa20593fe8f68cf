-- ===== src/Common/Bits.antt =====
-- Laws of the native bit operations, from the recursion on binary digits that they stand for.
use Prim.Native.Nat.{
  ℕ, zero, suc, ◌+◌, ◌*◌, ◌/◌, ◌%◌, ◌^◌, ◌≤◌, ◌<◌, min, max, differ, digits, bitwise,
}
use Prim.Native.Nat.{bit_and, bit_or, bit_xor, bit_and-bitwise, bit_or-bitwise, bit_xor-bitwise}
use mathlib.Core.Path.{◌≡◌, refl, ap}
use native.Mathlib.Nat.{pow-suc}
use native.Mathlib.Omega.{arith}

-- The count of digits to go does not matter once it reaches the first number.
module _ (z : ℕ → ℕ) (f : ℕ → ℕ → ℕ) where
  digits_count : (n m a b : ℕ) → a ≤ n → a ≤ m → digits z f n a b ≡ digits z f m a b
  digits_count zero zero a b p q = refl
  digits_count zero (suc m) zero b p q = refl
  digits_count zero (suc m) (suc a) b p q = absurd (omega arith)
  digits_count (suc n) zero zero b p q = refl
  digits_count (suc n) zero (suc a) b p q = absurd (omega arith)
  digits_count (suc n) (suc m) zero b p q = refl
  digits_count (suc n) (suc m) (suc a) b p q =
      omega (arith, digits_count n m (suc a / 2) (b / 2) (omega arith) (omega arith))

  bitwise_digit :
      (a b : ℕ)
      → bitwise z f (suc a) b ≡ bitwise z f (suc a / 2) (b / 2) * 2 + f (suc a % 2) (b % 2)
  bitwise_digit a b =
      omega (arith, digits_count a (suc a / 2) (suc a / 2) (b / 2) (omega arith) (omega arith))

pub bit_or_step : (a b : ℕ) → bit_or a b ≡ bit_or (a / 2) (b / 2) * 2 + max (a % 2) (b % 2)
bit_or_step zero b = omega (arith, bit_or-bitwise 0 b, bit_or-bitwise 0 (b / 2))
bit_or_step (suc a) b = omega (
  arith,
  bit_or-bitwise (suc a) b,
  bit_or-bitwise (suc a / 2) (b / 2),
  bitwise_digit (λ y. y) max a b,
)

pub bit_and_step : (a b : ℕ) → bit_and a b ≡ bit_and (a / 2) (b / 2) * 2 + min (a % 2) (b % 2)
bit_and_step zero b = omega (arith, bit_and-bitwise 0 b, bit_and-bitwise 0 (b / 2))
bit_and_step (suc a) b = omega (
  arith,
  bit_and-bitwise (suc a) b,
  bit_and-bitwise (suc a / 2) (b / 2),
  bitwise_digit (λ y. 0) min a b,
)

differ_digit : (x y : ℕ) → x < 2 → y < 2 → differ x y ≡ (x + y) % 2
differ_digit zero y p q = omega arith
differ_digit (suc zero) zero p q = refl
differ_digit (suc zero) (suc zero) p q = refl
differ_digit (suc zero) (suc (suc y)) p q = absurd (omega arith)
differ_digit (suc (suc x)) y p q = absurd (omega arith)

pub bit_xor_step : (a b : ℕ) → bit_xor a b ≡ bit_xor (a / 2) (b / 2) * 2 + (a % 2 + b % 2) % 2
bit_xor_step zero b = omega (arith, bit_xor-bitwise 0 b, bit_xor-bitwise 0 (b / 2))
bit_xor_step (suc a) b = omega (
  arith,
  bit_xor-bitwise (suc a) b,
  bit_xor-bitwise (suc a / 2) (b / 2),
  bitwise_digit (λ y. y) differ a b,
  differ_digit (suc a % 2) (b % 2) (omega arith) (omega arith),
)

pub zero-bit_xor : (b : ℕ) → bit_xor 0 b ≡ b
zero-bit_xor b = bit_xor-bitwise 0 b

pub zero-bit_or : (b : ℕ) → bit_or 0 b ≡ b
zero-bit_or b = bit_or-bitwise 0 b

-- Inductions on a bound of the first number.
bit_or_self_below : (n a : ℕ) → a ≤ n → bit_or a a ≡ a
bit_or_self_below n zero h = refl
bit_or_self_below zero (suc a) h = absurd (omega arith)
bit_or_self_below (suc n) (suc a) h =
    omega (arith, bit_or_step (suc a) (suc a), bit_or_self_below n (suc a / 2) (omega arith))

pub bit_or_self : (a : ℕ) → bit_or a a ≡ a
bit_or_self a = bit_or_self_below a a (omega arith)

bit_or-zero_below : (n a : ℕ) → a ≤ n → bit_or a 0 ≡ a
bit_or-zero_below n zero h = refl
bit_or-zero_below zero (suc a) h = absurd (omega arith)
bit_or-zero_below (suc n) (suc a) h =
    omega (arith, bit_or_step (suc a) 0, bit_or-zero_below n (suc a / 2) (omega arith))

pub bit_or-zero : (a : ℕ) → bit_or a 0 ≡ a
bit_or-zero a = bit_or-zero_below a a (omega arith)

bit_xor-zero_below : (n a : ℕ) → a ≤ n → bit_xor a 0 ≡ a
bit_xor-zero_below n zero h = refl
bit_xor-zero_below zero (suc a) h = absurd (omega arith)
bit_xor-zero_below (suc n) (suc a) h =
    omega (arith, bit_xor_step (suc a) 0, bit_xor-zero_below n (suc a / 2) (omega arith))

pub bit_xor-zero : (a : ℕ) → bit_xor a 0 ≡ a
bit_xor-zero a = bit_xor-zero_below a a (omega arith)

bit_xor_twice_below : (n a b : ℕ) → a + b ≤ n → bit_xor (bit_xor a b) b ≡ a
bit_xor_twice_below zero a b h =
    let ea : a ≡ 0 = omega arith in
    let eb : b ≡ 0 = omega arith in
    omega (
      arith,
      ap (λ (t : ℕ). t) ea,
      bit_xor-zero (bit_xor a b),
      bit_xor-zero a,
      ap (λ (t : ℕ). bit_xor (bit_xor a t) t) eb,
      ap (λ (t : ℕ). bit_xor a t) eb,
      bit_xor-zero (bit_xor a 0),
    )
bit_xor_twice_below (suc n) a b h = omega (
  arith,
  bit_xor_step a b,
  bit_xor_step (bit_xor a b) b,
  ap (λ (t : ℕ). bit_xor t (b / 2)) half,
  bit_xor_twice_below n (a / 2) (b / 2) (omega arith),
)
  where
    half : bit_xor a b / 2 ≡ bit_xor (a / 2) (b / 2)
    half = omega (arith, bit_xor_step a b)

pub bit_xor_twice : (a b : ℕ) → bit_xor (bit_xor a b) b ≡ a
bit_xor_twice a b = bit_xor_twice_below (a + b) a b (omega arith)

-- Results stay within the width of the operands.
pub bit_xor-lt : (k a b : ℕ) → a < 2 ^ k → b < 2 ^ k → bit_xor a b < 2 ^ k
bit_xor-lt zero a b p q =
    let ea : a ≡ 0 = omega arith in let eb : b ≡ 0 = omega arith in rw (ea, eb) (omega arith)
bit_xor-lt (suc k) a b p q = omega (
  arith,
  bit_xor_step a b,
  pow-suc 2 k,
  bit_xor-lt k (a / 2) (b / 2) (omega (arith, pow-suc 2 k)) (omega (arith, pow-suc 2 k)),
)

pub bit_or-lt : (k a b : ℕ) → a < 2 ^ k → b < 2 ^ k → bit_or a b < 2 ^ k
bit_or-lt zero a b p q =
    let ea : a ≡ 0 = omega arith in let eb : b ≡ 0 = omega arith in rw (ea, eb) (omega arith)
bit_or-lt (suc k) a b p q = omega (
  arith,
  bit_or_step a b,
  pow-suc 2 k,
  bit_or-lt k (a / 2) (b / 2) (omega (arith, pow-suc 2 k)) (omega (arith, pow-suc 2 k)),
)

bit_and-le_below : (n a b : ℕ) → a ≤ n → bit_and a b ≤ a
bit_and-le_below n zero b h = omega (arith, bit_and-bitwise 0 b)
bit_and-le_below zero (suc a) b h = absurd (omega arith)
bit_and-le_below (suc n) (suc a) b h =
    omega (arith, bit_and_step (suc a) b, bit_and-le_below n (suc a / 2) (b / 2) (omega arith))

pub bit_and-le : (a b : ℕ) → bit_and a b ≤ a
bit_and-le a b = bit_and-le_below a a b (omega arith)

double_pow : (q k : ℕ) → q * 2 ^ suc k ≡ 2 * (q * 2 ^ k)
double_pow q k = omega (arith, ap (λ (t : ℕ). q * t) (pow-suc 2 k))

-- `(q << k) | r` is a sum when `r` fits `k` bits.
pub bit_or_shifted : (k q r : ℕ) → r < 2 ^ k → bit_or (q * 2 ^ k) r ≡ q * 2 ^ k + r
bit_or_shifted zero q r h =
    let e : r ≡ 0 = omega arith in rw e (omega (arith, bit_or-zero (q * 2 ^ 0)))
bit_or_shifted (suc k) q r h = omega (
  arith,
  bit_or_step (q * 2 ^ suc k) r,
  double_pow q k,
  ap (λ (t : ℕ). bit_or t (r / 2)) half,
  bit_or_shifted k q (r / 2) (omega (arith, pow-suc 2 k)),
)
  where
    half : q * 2 ^ suc k / 2 ≡ q * 2 ^ k
    half = omega (arith, double_pow q k)

-- The other order: a byte below, and a byte shifted above it.
pub shifted_bit_or : (k q r : ℕ) → r < 2 ^ k → bit_or r (q * 2 ^ k) ≡ r + q * 2 ^ k
shifted_bit_or zero q r h =
    let e : r ≡ 0 = omega arith in rw e (omega (arith, zero-bit_or (q * 2 ^ 0)))
shifted_bit_or (suc k) q r h = omega (
  arith,
  bit_or_step r (q * 2 ^ suc k),
  double_pow q k,
  ap (λ (t : ℕ). bit_or (r / 2) t) half,
  shifted_bit_or k q (r / 2) (omega (arith, pow-suc 2 k)),
)
  where
    half : q * 2 ^ suc k / 2 ≡ q * 2 ^ k
    half = omega (arith, double_pow q k)
