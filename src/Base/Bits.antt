-- ===== src/Base/Bits.antt =====
-- Bit operations on native numbers as arithmetic. The libraries define them by a recursion on the
-- digits that counts down the first number; the laws here peel the lowest digit.
use Prim.Native.Nat.{
  ℕ, zero, suc, ◌+◌, ◌*◌, ◌/◌, ◌%◌, ◌^◌, ◌≤◌, ◌-◌, min, differ, digits, bit_and, bit_xor,
  bit_and-bitwise, bit_xor-bitwise, ◌<◌,
}
use mathlib.Core.Path.{◌≡◌, refl, ap, ap₂}
use native.Mathlib.Nat.{pow-suc, one-le-pow}
use native.Mathlib.Omega.{arith}

-- More digits to go than there are change nothing.
module _ (z : ℕ → ℕ) (f : ℕ → ℕ → ℕ) where
  digits-enough : (k j a b : ℕ) → a ≤ k → a ≤ j → digits z f k a b ≡ digits z f j a b
  digits-enough (suc k) zero (suc a) b p q = absurd (omega arith)
  digits-enough zero (suc j) (suc a) b p q = absurd (omega arith)
  digits-enough zero zero a b p q = refl
  digits-enough (suc k) zero zero b p q = refl
  digits-enough zero (suc j) zero b p q = refl
  digits-enough (suc k) (suc j) zero b p q = refl
  digits-enough (suc k) (suc j) (suc a) b p q =
      ap (λ (t : ℕ). t * 2 + f (suc a % 2) (b % 2))
        (digits-enough k j (suc a / 2) (b / 2) (omega arith) (omega arith))

zero-bit_xor : (b : ℕ) → bit_xor 0 b ≡ b
zero-bit_xor b = bit_xor-bitwise 0 b

zero-bit_and : (b : ℕ) → bit_and 0 b ≡ 0
zero-bit_and b = bit_and-bitwise 0 b

pub bit_xor-digit : (a b : ℕ) → bit_xor a b ≡ differ (a % 2) (b % 2) + 2 * bit_xor (a / 2) (b / 2)
bit_xor-digit zero b = omega (arith, zero-bit_xor b, zero-bit_xor (b / 2))
bit_xor-digit (suc a) b = omega (
  arith,
  digits-enough (λ b. b) differ a (suc a / 2) (suc a / 2) (b / 2) (omega arith) (omega arith),
  bit_xor-bitwise (suc a / 2) (b / 2),
  bit_xor-bitwise (suc a) b,
)

pub bit_and-digit : (a b : ℕ) → bit_and a b ≡ min (a % 2) (b % 2) + 2 * bit_and (a / 2) (b / 2)
bit_and-digit zero b = omega (arith, zero-bit_and b, zero-bit_and (b / 2))
bit_and-digit (suc a) b = omega (
  arith,
  digits-enough (λ b. 0) min a (suc a / 2) (suc a / 2) (b / 2) (omega arith) (omega arith),
  bit_and-bitwise (suc a / 2) (b / 2),
  bit_and-bitwise (suc a) b,
)

differ-zero : (d : ℕ) → differ d 0 ≡ d
differ-zero zero = refl
differ-zero (suc d) = refl

bit_xor-zero_fuel : (n a : ℕ) → a ≤ n → bit_xor a 0 ≡ a
bit_xor-zero_fuel n zero h = refl
bit_xor-zero_fuel zero (suc a) h = absurd (omega arith)
bit_xor-zero_fuel (suc n) (suc a) h = omega (
  arith,
  bit_xor-digit (suc a) 0,
  differ-zero (suc a % 2),
  bit_xor-zero_fuel n (suc a / 2) (omega arith),
)

bit_and-zero_fuel : (rounds a : ℕ) → a ≤ rounds → bit_and a 0 ≡ 0
bit_and-zero_fuel zero (suc a) le = absurd (omega arith)
bit_and-zero_fuel rounds zero le = refl
bit_and-zero_fuel (suc rounds) (suc a) le =
    let rest = bit_and-zero_fuel rounds (suc a / 2) (omega arith) in
    omega (arith, rest, bit_and-digit (suc a) 0)

pub bit_xor-zero : (a : ℕ) → bit_xor a 0 ≡ a
bit_xor-zero a = bit_xor-zero_fuel a a (omega arith)

pub bit_and-zero : (a : ℕ) → bit_and a 0 ≡ 0
bit_and-zero a = bit_and-zero_fuel a a (omega arith)

times-pow-suc : (q k : ℕ) → q * 2 ^ suc k ≡ 2 * (q * 2 ^ k)
times-pow-suc q k = omega (arith, ap (λ (t : ℕ). q * t) (pow-suc 2 k))

bit_xor-double : (a b : ℕ) → bit_xor (2 * a) (2 * b) ≡ 2 * bit_xor a b
bit_xor-double a b =
    let e : 2 * a / 2 ≡ a = omega arith in
    let f : 2 * b / 2 ≡ b = omega arith in
    let e0 : 2 * a % 2 ≡ 0 = omega arith in
    let f0 : 2 * b % 2 ≡ 0 = omega arith in
    let d : differ (2 * a % 2) (2 * b % 2) ≡ 0 = ap₂ differ e0 f0 in
    omega (arith, bit_xor-digit (2 * a) (2 * b), ap₂ bit_xor e f, d)

bit_and-double : (a b : ℕ) → bit_and (2 * a) (2 * b) ≡ 2 * bit_and a b
bit_and-double a b =
    let e : 2 * a / 2 ≡ a = omega arith in
    let f : 2 * b / 2 ≡ b = omega arith in
    omega (arith, bit_and-digit (2 * a) (2 * b), ap₂ bit_and e f)

-- Operations on multiples of a power of two.
pub bit_xor-shift : (k q r : ℕ) → bit_xor (q * 2 ^ k) (r * 2 ^ k) ≡ bit_xor q r * 2 ^ k
bit_xor-shift zero q r =
    let e : q * 1 ≡ q = omega arith in
    let f : r * 1 ≡ r = omega arith in omega (arith, ap₂ bit_xor e f)
bit_xor-shift (suc k) q r = omega (
  arith,
  ap₂ bit_xor (times-pow-suc q k) (times-pow-suc r k),
  bit_xor-double (q * 2 ^ k) (r * 2 ^ k),
  bit_xor-shift k q r,
  times-pow-suc (bit_xor q r) k,
)

pub bit_and-shift : (k q r : ℕ) → bit_and (q * 2 ^ k) (r * 2 ^ k) ≡ bit_and q r * 2 ^ k
bit_and-shift zero q r =
    let e : q * 1 ≡ q = omega arith in
    let f : r * 1 ≡ r = omega arith in omega (arith, ap₂ bit_and e f)
bit_and-shift (suc k) q r = omega (
  arith,
  ap₂ bit_and (times-pow-suc q k) (times-pow-suc r k),
  bit_and-double (q * 2 ^ k) (r * 2 ^ k),
  bit_and-shift k q r,
  times-pow-suc (bit_and q r) k,
)

bit_and-low : (k q r : ℕ) → r < 2 ^ k → bit_and (q * 2 ^ k + r) (2 ^ k - 1) ≡ r
bit_and-low zero q r h = omega (arith, bit_and-zero (q * 1 + r))
bit_and-low (suc k) q r h =
    let p : 2 ^ suc k ≡ 2 ^ k * 2 = pow-suc 2 k in
    let o : 1 ≤ 2 ^ k = one-le-pow k 2 (omega arith) in
    let a : (q * 2 ^ suc k + r) / 2 ≡ q * 2 ^ k + r / 2 = omega (arith, times-pow-suc q k) in
    let b : (2 ^ suc k - 1) / 2 ≡ 2 ^ k - 1 = omega arith in
    omega (
      arith,
      times-pow-suc q k,
      bit_and-digit (q * 2 ^ suc k + r) (2 ^ suc k - 1),
      ap₂ bit_and a b,
      bit_and-low k q (r / 2) (omega arith),
    )

-- A mask of `k` ones keeps the remainder by `2 ^ k`.
pub bit_and-mask : (k a : ℕ) → bit_and a (2 ^ k - 1) ≡ a % 2 ^ k
bit_and-mask k a = ground (arith, one-le-pow k 2, bit_and-low k (a / 2 ^ k) (a % 2 ^ k))

bit_and-self_fuel : (n a : ℕ) → a ≤ n → bit_and a a ≡ a
bit_and-self_fuel n zero h = refl
bit_and-self_fuel zero (suc a) h = absurd (omega arith)
bit_and-self_fuel (suc n) (suc a) h =
    omega (arith, bit_and-digit (suc a) (suc a), bit_and-self_fuel n (suc a / 2) (omega arith))

pub bit_and_self : (a : ℕ) → bit_and a a ≡ a
bit_and_self a = bit_and-self_fuel a a (omega arith)

-- Flipping the lowest digit, and clearing it.
pub bit_xor-one : (a : ℕ) → bit_xor a 1 ≡ a / 2 * 2 + (1 - a % 2)
bit_xor-one a =
    omega (arith, bit_xor-digit a 1, bit_xor-zero (a / 2), differ-one (a % 2) (omega arith))
  where
    differ-one : (d : ℕ) → d < 2 → differ d 1 ≡ 1 - d
    differ-one zero h = refl
    differ-one (suc zero) h = refl
    differ-one (suc (suc d)) h = absurd (omega arith)

pub bit_and-flip : (a : ℕ) → bit_and (bit_xor a 1) a ≡ a / 2 * 2
bit_and-flip a =
    let e : bit_xor a 1 / 2 ≡ a / 2 = omega (arith, bit_xor-one a) in
    omega (
      arith,
      bit_and-digit (bit_xor a 1) a,
      bit_xor-one a,
      ap (λ (t : ℕ). bit_and t (a / 2)) e,
      bit_and_self (a / 2),
    )

pub pow_add : (a b : ℕ) → 2 ^ a * 2 ^ b ≡ 2 ^ (a + b)
pow_add a zero = let e : a + 0 ≡ a = omega arith in omega (arith, ap (λ (t : ℕ). 2 ^ t) e)
pow_add a (suc b) =
    let e : a + suc b ≡ suc (a + b) = omega arith in
    let f : 2 ^ (a + suc b) ≡ 2 ^ suc (a + b) = ap (λ (t : ℕ). 2 ^ t) e in
    let g : 2 ^ a * 2 ^ suc b ≡ 2 ^ a * (2 ^ b * 2) = ap (λ (t : ℕ). 2 ^ a * t) (pow-suc 2 b) in
    omega (arith, f, g, pow-suc 2 (a + b), pow_add a b)
