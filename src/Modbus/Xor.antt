-- ===== src/Modbus/Xor.antt =====
-- Exclusive or of binary numbers, as far as the CRC of internal/modbus/common.go needs it.
use Prim.Native.Nat.{bit_xor, bit_xor-bitwise, digits, differ}
use native.Mathlib.Nat.{pow-suc}
use sofar_hyd_diag.Prelude.{
  ℕ, zero, suc, ◌+◌, ◌*◌, ◌/◌, ◌%◌, ◌^◌, ◌≤◌, ◌<◌, ◌≡◌, refl, ap, ◌∙◌, arith,
}

-- The fuel of the native recursion does not matter, once it reaches the first number.
abbrev xor_within : ℕ → ℕ → ℕ → ℕ
xor_within fuel a b = digits (λ y. y) differ fuel a b

xor_within-fuel : (j k a b : ℕ) → a ≤ j → a ≤ k → xor_within j a b ≡ xor_within k a b
xor_within-fuel j k zero b p q = zeros j k
  where
    none_left : (n : ℕ) → xor_within n 0 b ≡ b
    none_left zero = refl
    none_left (suc n) = refl

    zeros : (m n : ℕ) → xor_within m 0 b ≡ xor_within n 0 b
    zeros m n = rw (none_left m, none_left n)
xor_within-fuel zero k (suc a) b p q = absurd (omega arith)
xor_within-fuel (suc j) zero (suc a) b p q = absurd (omega arith)
xor_within-fuel (suc j) (suc k) (suc a) b p q =
    rw (xor_within-fuel j k (suc a / 2) (b / 2) (omega arith) (omega arith))

differ-zero : (y : ℕ) → differ 0 y ≡ y
differ-zero y = refl

-- One binary digit at a time.
pub bit_xor_step : (a b : ℕ) → bit_xor a b ≡ bit_xor (a / 2) (b / 2) * 2 + differ (a % 2) (b % 2)
bit_xor_step zero b = simp bit_xor-bitwise (omega arith)
bit_xor_step (suc a) b =
    simp bit_xor-bitwise
      (omega (arith, xor_within-fuel a (suc a / 2) (suc a / 2) (b / 2) (omega arith) (omega arith)))

differ-le : (x y : ℕ) → x ≤ 1 → y ≤ 1 → differ x y ≤ 1
differ-le zero y p q = q
differ-le (suc x) zero p q = p
differ-le (suc x) (suc y) p q = differ-le x y (omega arith) (omega arith)

differ_self : (x : ℕ) → differ x x ≡ 0
differ_self zero = refl
differ_self (suc x) = differ_self x

-- Numbers of k digits have an exclusive or of k digits.
pub bit_xor-lt : (k a b : ℕ) → a < 2 ^ k → b < 2 ^ k → bit_xor a b < 2 ^ k
bit_xor-lt zero a b p q = rw (zeros a p, zeros b q) (omega arith)
  where
    zeros : (n : ℕ) → n < 1 → n ≡ 0
    zeros n h = omega arith
bit_xor-lt (suc k) a b p q = omega (
  arith,
  bit_xor_step a b,
  bit_xor-lt k (a / 2) (b / 2) (omega (arith, pow-suc 2 k)) (omega (arith, pow-suc 2 k)),
  differ-le (a % 2) (b % 2) (omega arith) (omega arith),
  pow-suc 2 k,
)

zero-bit_xor : (b : ℕ) → bit_xor 0 b ≡ b
zero-bit_xor b = bit_xor-bitwise 0 b

differ-zero_right : (x : ℕ) → differ x 0 ≡ x
differ-zero_right zero = refl
differ-zero_right (suc x) = refl

bit_xor-zero : (n a : ℕ) → a ≤ n → bit_xor a 0 ≡ a
bit_xor-zero n zero p = zero-bit_xor 0
bit_xor-zero zero (suc a) p = absurd (omega arith)
bit_xor-zero (suc n) (suc a) p = omega (
  arith,
  bit_xor_step (suc a) 0,
  bit_xor-zero n (suc a / 2) (omega arith),
  differ-zero_right (suc a % 2),
)

pub even_part : (k h : ℕ) → 2 ^ suc k * h ≡ 2 * (2 ^ k * h)
even_part k h = omega (arith, ap (λ (t : ℕ). t * h) (pow-suc 2 k))

-- Taking away the k low digits of a number.
pub bit_xor_low : (k h l : ℕ) → l < 2 ^ k → bit_xor (2 ^ k * h + l) l ≡ 2 ^ k * h
bit_xor_low zero h zero p =
    omega (arith, bit_xor-zero (2 ^ 0 * h + 0) (2 ^ 0 * h + 0) (omega arith))
bit_xor_low zero h (suc l) p = absurd (omega arith)
bit_xor_low (suc k) h l p =
    bit_xor_step (2 ^ suc k * h + l) l
    ∙ rw (half, digit)
        (omega (
          arith,
          bit_xor_low k h (l / 2) (omega (arith, pow-suc 2 k)),
          differ_self (l % 2),
          even_part k h,
        ))
  where
    half : (2 ^ suc k * h + l) / 2 ≡ 2 ^ k * h + l / 2
    half = omega (arith, even_part k h)

    digit : (2 ^ suc k * h + l) % 2 ≡ l % 2
    digit = omega (arith, even_part k h)

pub bit_xor_self : (k a : ℕ) → a < 2 ^ k → bit_xor a a ≡ 0
bit_xor_self zero a p = rw (zeros a p)
  where
    zeros : (n : ℕ) → n < 1 → n ≡ 0
    zeros n h = omega arith
bit_xor_self (suc k) a p = omega (
  arith,
  bit_xor_step a a,
  bit_xor_self k (a / 2) (omega (arith, pow-suc 2 k)),
  differ_self (a % 2),
)
