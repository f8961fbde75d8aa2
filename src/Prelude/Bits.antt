-- ===== src/Prelude/Bits.antt =====
-- Masks and joins of binary numbers, at variables: `x & (m << k)` and `(x << k) | y`.
use Prim.Native.Nat.{
  ℕ, zero, suc, ◌+◌, ◌*◌, ◌/◌, ◌%◌, ◌^◌, ◌≤◌, ◌<◌, min, max, bit_and, bit_or, digits,
  bit_and-bitwise, bit_or-bitwise,
}
use mathlib.Core.Path.{◌≡◌, refl, ap}
use native.Mathlib.Omega.{arith}
use native.Mathlib.Nat.{pow-suc}

-- The count of digits to go matters only while it is too small.
digits_enough :
    (z : ℕ → ℕ) (f : ℕ → ℕ → ℕ) (n m a b : ℕ) → a ≤ n → a ≤ m → digits z f n a b ≡ digits z f m a b
digits_enough z f zero zero a b p q = refl
digits_enough z f zero (suc m) zero b p q = refl
digits_enough z f zero (suc m) (suc a) b p q = absurd (omega arith)
digits_enough z f (suc n) zero zero b p q = refl
digits_enough z f (suc n) zero (suc a) b p q = absurd (omega arith)
digits_enough z f (suc n) (suc m) zero b p q = refl
digits_enough z f (suc n) (suc m) (suc a) b p q =
    ap (λ (r : ℕ). r * 2 + f (suc a % 2) (b % 2))
      (digits_enough z f n m (suc a / 2) (b / 2) (omega arith) (omega arith))

-- The lowest digit of each operation, and the rest.
pub bit_and_digit : (a b : ℕ) → bit_and a b ≡ bit_and (a / 2) (b / 2) * 2 + min (a % 2) (b % 2)
bit_and_digit zero b = omega (arith, bit_and-bitwise 0 b, bit_and-bitwise 0 (b / 2))
bit_and_digit (suc a) b =
    let h : suc a / 2 ≤ a = omega arith in
    omega (
      arith,
      bit_and-bitwise (suc a) b,
      bit_and-bitwise (suc a / 2) (b / 2),
      digits_enough (λ _. zero) min a (suc a / 2) (suc a / 2) (b / 2) h (omega arith),
    )

pub bit_or_digit : (a b : ℕ) → bit_or a b ≡ bit_or (a / 2) (b / 2) * 2 + max (a % 2) (b % 2)
bit_or_digit zero b = omega (arith, bit_or-bitwise 0 b, bit_or-bitwise 0 (b / 2))
bit_or_digit (suc a) b =
    let h : suc a / 2 ≤ a = omega arith in
    omega (
      arith,
      bit_or-bitwise (suc a) b,
      bit_or-bitwise (suc a / 2) (b / 2),
      digits_enough (λ c. c) max a (suc a / 2) (suc a / 2) (b / 2) h (omega arith),
    )

and_zero_upto : (n a : ℕ) → a ≤ n → bit_and a 0 ≡ 0
and_zero_upto n zero h = refl
and_zero_upto zero (suc a) h = absurd (omega arith)
and_zero_upto (suc n) (suc a) h =
    omega (arith, bit_and_digit (suc a) 0, and_zero_upto n (suc a / 2) (omega arith))

or_zero_upto : (n a : ℕ) → a ≤ n → bit_or a 0 ≡ a
or_zero_upto n zero h = refl
or_zero_upto zero (suc a) h = absurd (omega arith)
or_zero_upto (suc n) (suc a) h =
    omega (arith, bit_or_digit (suc a) 0, or_zero_upto n (suc a / 2) (omega arith))

and_one : (a : ℕ) → bit_and a 1 ≡ a % 2
and_one a = omega (arith, bit_and_digit a 1, and_zero_upto (a / 2) (a / 2) (omega arith))

and_seven : (a : ℕ) → bit_and a 7 ≡ a % 8
and_seven a = omega (arith, bit_and_digit a 7, bit_and_digit (a / 2) 3, and_one (a / 2 / 2))

-- x & 0x7F and x & 0xFF keep the low digits.
pub and_7bits : (a : ℕ) → bit_and a 127 ≡ a % 128
and_7bits a = omega (
  arith,
  bit_and_digit a 127,
  bit_and_digit (a / 2) 63,
  bit_and_digit (a / 2 / 2) 31,
  bit_and_digit (a / 2 / 2 / 2) 15,
  and_seven (a / 2 / 2 / 2 / 2),
)

pub and_8bits : (a : ℕ) → bit_and a 255 ≡ a % 256
and_8bits a = omega (arith, bit_and_digit a 255, and_7bits (a / 2))

-- A mask of even digits only looks at the upper digits.
and_double : (a m : ℕ) → bit_and a (m * 2) ≡ bit_and (a / 2) m * 2
and_double a m =
    let e : (m * 2) / 2 ≡ m = omega arith in
    omega (arith, bit_and_digit a (m * 2), ap (bit_and (a / 2)) e)

-- x & (m << 8), byte by byte.
pub and_byte_up : (a m : ℕ) → bit_and a (m * 256) ≡ bit_and (a / 256) m * 256
and_byte_up a m =
    let e : m * 256 ≡ m * 2 * 2 * 2 * 2 * 2 * 2 * 2 * 2 = omega arith in
    let d : a / 2 / 2 / 2 / 2 / 2 / 2 / 2 / 2 ≡ a / 256 = omega arith in
    rw e (simp and_double (omega (arith, ap (λ (t : ℕ). bit_and t m) d)))

-- (a << k) | b, where b is short enough.
pub or_join : (k a b : ℕ) → b < 2 ^ k → bit_or (a * 2 ^ k) b ≡ a * 2 ^ k + b
or_join zero a b h =
    let e : b ≡ 0 = omega arith in
    let f : a * 1 ≡ a = omega arith in rw (e, f) (omega (arith, or_zero_upto a a (omega arith)))
or_join (suc k) a b h =
    let up : a * 2 ^ suc k ≡ a * (2 ^ k * 2) = ap (λ (t : ℕ). a * t) (pow-suc 2 k) in
    let e : (a * 2 ^ suc k) / 2 ≡ a * 2 ^ k = omega arith in
    let small : b / 2 < 2 ^ k = omega (arith, pow-suc 2 k) in
    omega (
      arith,
      bit_or_digit (a * 2 ^ suc k) b,
      ap (λ (t : ℕ). bit_or t (b / 2)) e,
      or_join k a (b / 2) small,
    )
