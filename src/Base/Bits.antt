-- ===== src/Base/Bits.antt =====
-- `|` of a low field and a field shifted above it is a sum, at every width.
use Prim.Native.Nat.{
  ℕ, zero, suc, ◌+◌, ◌-◌, ◌*◌, ◌/◌, ◌%◌, ◌^◌, ◌≤◌, ◌<◌, min, max, digits, bit_and, bit_or,
}
use Prim.Native.Nat.{bit_and-bitwise, bit_or-bitwise}
use mathlib.Core.Path.{◌≡◌, refl, ap}
use native.Mathlib.Nat.{pow-suc, one-le-pow}
use native.Mathlib.Omega.{arith}

-- More fuel than digits changes nothing.
digits-fuel :
    (z : ℕ → ℕ) (f : ℕ → ℕ → ℕ) (n m a b : ℕ) → a ≤ n → a ≤ m → digits z f n a b ≡ digits z f m a b
digits-fuel z f zero zero a b p q = refl
digits-fuel z f zero (suc m) zero b p q = refl
digits-fuel z f zero (suc m) (suc a) b p q = absurd (omega arith)
digits-fuel z f (suc n) zero zero b p q = refl
digits-fuel z f (suc n) zero (suc a) b p q = absurd (omega arith)
digits-fuel z f (suc n) (suc m) zero b p q = refl
digits-fuel z f (suc n) (suc m) (suc a) b p q =
    omega (arith, digits-fuel z f n m (suc a / 2) (b / 2) (omega arith) (omega arith))

pub zero-bit_or : (b : ℕ) → bit_or 0 b ≡ b
zero-bit_or b = bit_or-bitwise 0 b

bit_or_halves : (a b : ℕ) → bit_or a b ≡ bit_or (a / 2) (b / 2) * 2 + max (a % 2) (b % 2)
bit_or_halves zero b = omega (arith, zero-bit_or b, zero-bit_or (b / 2))
bit_or_halves (suc a) b = omega (
  arith,
  bit_or-bitwise (suc a) b,
  bit_or-bitwise (suc a / 2) (b / 2),
  digits-fuel (λ b. b) max a (suc a / 2) (suc a / 2) (b / 2) (omega arith) (omega arith),
)

double_shift : (k m : ℕ) → m * 2 ^ suc k ≡ 2 * (m * 2 ^ k)
double_shift k m = omega (arith, ap (λ (t : ℕ). m * t) (pow-suc 2 k))

-- `low | (high << k)` is `low + high * 2 ^ k` when `low` has k bits.
pub bit_or-shift : (k low high : ℕ) → low < 2 ^ k → bit_or low (high * 2 ^ k) ≡ low + high * 2 ^ k
bit_or-shift zero zero high h = omega (arith, zero-bit_or (high * 2 ^ 0))
bit_or-shift zero (suc low) high h = absurd (omega arith)
bit_or-shift (suc k) low high h = ground (
  arith,
  bit_or_halves low (high * 2 ^ suc k),
  double_shift k high,
  pow-suc 2 k,
  bit_or-shift k (low / 2) high,
)

bit_or_comm_fuel : (n a b : ℕ) → a ≤ n → b ≤ n → bit_or a b ≡ bit_or b a
bit_or_comm_fuel zero a b p q =
    let left : a ≡ 0 = omega arith in let right : b ≡ 0 = omega arith in rw (left, right) refl
bit_or_comm_fuel (suc n) a b p q = omega (
  arith,
  bit_or_halves a b,
  bit_or_halves b a,
  bit_or_comm_fuel n (a / 2) (b / 2) (omega arith) (omega arith),
)

pub bit_or_comm : (a b : ℕ) → bit_or a b ≡ bit_or b a
bit_or_comm a b = bit_or_comm_fuel (a + b) a b (omega arith) (omega arith)

zero-bit_and : (b : ℕ) → bit_and 0 b ≡ 0
zero-bit_and b = bit_and-bitwise 0 b

bit_and_halves : (a b : ℕ) → bit_and a b ≡ bit_and (a / 2) (b / 2) * 2 + min (a % 2) (b % 2)
bit_and_halves zero b = omega (arith, zero-bit_and b, zero-bit_and (b / 2))
bit_and_halves (suc a) b = omega (
  arith,
  bit_and-bitwise (suc a) b,
  bit_and-bitwise (suc a / 2) (b / 2),
  digits-fuel (λ b. 0) min a (suc a / 2) (suc a / 2) (b / 2) (omega arith) (omega arith),
)

bit_and-zero_fuel : (n a : ℕ) → a ≤ n → bit_and a 0 ≡ 0
bit_and-zero_fuel zero a h = let none : a ≡ 0 = omega arith in rw none refl
bit_and-zero_fuel (suc n) a h =
    omega (arith, bit_and_halves a 0, bit_and-zero_fuel n (a / 2) (omega arith))

bit_and-shift : (k low high : ℕ) → low < 2 ^ k → bit_and (low + high * 2 ^ k) (2 ^ k - 1) ≡ low
bit_and-shift zero low high h =
    omega (arith, bit_and-zero_fuel (low + high * 1) (low + high * 1) (omega arith))
bit_and-shift (suc k) low high h = ground (
  arith,
  bit_and_halves (low + high * 2 ^ suc k) (2 ^ suc k - 1),
  double_shift k high,
  pow-suc 2 k,
  bit_and-shift k (low / 2) high,
)

-- `a & mask` is a remainder, for a mask of the k lowest bits.
pub bit_and-mask : (k a : ℕ) → bit_and a (2 ^ k - 1) ≡ a % 2 ^ k
bit_and-mask k a = ground (arith, one-le-pow k 2, bit_and-shift k (a % 2 ^ k) (a / 2 ^ k))

-- `&` looks at the field of its mask only.
pub bit_and-high :
    (k low high mask : ℕ)
    → low < 2 ^ k
    → bit_and (low + high * 2 ^ k) (mask * 2 ^ k) ≡ bit_and high mask * 2 ^ k
bit_and-high zero low high mask h = let none : low ≡ 0 = omega arith in rw none (ground arith)
bit_and-high (suc k) low high mask h = ground (
  arith,
  bit_and_halves (low + high * 2 ^ suc k) (mask * 2 ^ suc k),
  double_shift k high,
  double_shift k mask,
  double_shift k (bit_and high mask),
  pow-suc 2 k,
  bit_and-high k (low / 2) high mask,
)
