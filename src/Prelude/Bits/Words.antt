-- ===== src/Prelude/Bits/Words.antt =====
-- Single bits of a word, the bitwise operations read bit by bit, and the complement at a width.
use Prim.Native.Nat.{
  ℕ, zero, suc, ◌+◌, ◌-◌, ◌*◌, ◌/◌, ◌%◌, ◌^◌, ◌≤◌, ◌<◌, min, max, bit_and, bit_or, bit_xor,
}
use Prim.Native.Nat.{digits, differ, bit_and-bitwise, bit_or-bitwise, bit_xor-bitwise}
use mathlib.Core.Path.{◌≡◌, refl}
use native.Mathlib.Nat.{pow-suc, one-le-pow}
use native.Mathlib.Omega.{arith}

-- Bit `k` of `n`.
abbrev pub bit : ℕ → ℕ → ℕ
bit n zero = n % 2
bit n (suc k) = bit (n / 2) k

-- `~x` of an unsigned type of `w` bits.
abbrev pub bit_not : ℕ → ℕ → ℕ
bit_not w x = 2 ^ w - 1 - x

module _ (z : ℕ → ℕ) (f : ℕ → ℕ → ℕ) where
  -- Fuel beyond the left operand makes no difference.
  enough_digits : (n m a b : ℕ) → a ≤ n → a ≤ m → digits z f n a b ≡ digits z f m a b
  enough_digits zero zero a b p q = refl
  enough_digits zero (suc m) zero b p q = refl
  enough_digits zero (suc m) (suc a) b p q = elim p [ ]
  enough_digits (suc n) zero zero b p q = refl
  enough_digits (suc n) zero (suc a) b p q = elim q [ ]
  enough_digits (suc n) (suc m) zero b p q = refl
  enough_digits (suc n) (suc m) (suc a) b p q =
      rw (enough_digits n m (suc a / 2) (b / 2) (omega arith) (omega arith))

-- One equation for the lowest bit of each operation.
pub bit_and_low : (a b : ℕ) → bit_and a b ≡ bit_and (a / 2) (b / 2) * 2 + min (a % 2) (b % 2)
bit_and_low zero b = simp bit_and-bitwise (omega arith)
bit_and_low (suc a) b = simp bit_and-bitwise (
    omega (
      arith,
      enough_digits (λ _. 0) min a (suc a / 2) (suc a / 2) (b / 2) (omega arith) (omega arith),
    ))

pub bit_or_low : (a b : ℕ) → bit_or a b ≡ bit_or (a / 2) (b / 2) * 2 + max (a % 2) (b % 2)
bit_or_low zero b = simp bit_or-bitwise (omega arith)
bit_or_low (suc a) b = simp bit_or-bitwise (
    omega (
      arith,
      enough_digits (λ y. y) max a (suc a / 2) (suc a / 2) (b / 2) (omega arith) (omega arith),
    ))

pub bit_xor_low : (a b : ℕ) → bit_xor a b ≡ bit_xor (a / 2) (b / 2) * 2 + differ (a % 2) (b % 2)
bit_xor_low zero b = simp bit_xor-bitwise (ground arith)
bit_xor_low (suc a) b = simp bit_xor-bitwise (
    omega (
      arith,
      enough_digits (λ y. y) differ a (suc a / 2) (suc a / 2) (b / 2) (omega arith) (omega arith),
    ))

pub bit-lt-two : (n k : ℕ) → bit n k < 2
bit-lt-two n zero = omega arith
bit-lt-two n (suc k) = bit-lt-two (n / 2) k

pub bit-zero : (k : ℕ) → bit 0 k ≡ 0
bit-zero zero = refl
bit-zero (suc k) = bit-zero k

-- The bits of a conjunction and of a disjunction.
pub bit-bit_and : (k a b : ℕ) → bit (bit_and a b) k ≡ min (bit a k) (bit b k)
bit-bit_and zero a b = omega (arith, bit_and_low a b)
bit-bit_and (suc k) a b =
    let e : bit_and a b / 2 ≡ bit_and (a / 2) (b / 2) = omega (arith, bit_and_low a b) in
    rw e (bit-bit_and k (a / 2) (b / 2))

pub bit-bit_or : (k a b : ℕ) → bit (bit_or a b) k ≡ max (bit a k) (bit b k)
bit-bit_or zero a b = omega (arith, bit_or_low a b)
bit-bit_or (suc k) a b =
    let e : bit_or a b / 2 ≡ bit_or (a / 2) (b / 2) = omega (arith, bit_or_low a b) in
    rw e (bit-bit_or k (a / 2) (b / 2))

pub zero-bit_and : (b : ℕ) → bit_and 0 b ≡ 0
zero-bit_and b = bit_and-bitwise 0 b

pub zero-bit_or : (b : ℕ) → bit_or 0 b ≡ b
zero-bit_or b = bit_or-bitwise 0 b

-- `n` bounds the halvings that take the left operand to 0.
halving-bit_and-zero : (n a : ℕ) → a ≤ n → bit_and a 0 ≡ 0
halving-bit_and-zero n zero h = refl
halving-bit_and-zero zero (suc a) h = elim h [ ]
halving-bit_and-zero (suc n) (suc a) h =
    omega (arith, bit_and_low (suc a) 0, halving-bit_and-zero n (suc a / 2) (omega arith))

pub bit_and-zero : (a : ℕ) → bit_and a 0 ≡ 0
bit_and-zero a = halving-bit_and-zero a a (omega arith)

halving-bit_or-zero : (n a : ℕ) → a ≤ n → bit_or a 0 ≡ a
halving-bit_or-zero n zero h = refl
halving-bit_or-zero zero (suc a) h = elim h [ ]
halving-bit_or-zero (suc n) (suc a) h =
    omega (arith, bit_or_low (suc a) 0, halving-bit_or-zero n (suc a / 2) (omega arith))

pub bit_or-zero : (a : ℕ) → bit_or a 0 ≡ a
bit_or-zero a = halving-bit_or-zero a a (omega arith)

-- A conjunction is below each side, and a disjunction stays within the width.
pub bit_and_le : (w a b : ℕ) → a < 2 ^ w → (bit_and a b ≤ a) × (bit_and a b ≤ b)
bit_and_le zero zero b h = omega (arith, zero-bit_and b)
bit_and_le zero (suc a) b h = absurd (omega arith)
bit_and_le (suc w) a b h =
    omega (
      arith,
      pow-suc 2 w,
      bit_and_low a b,
      bit_and_le w (a / 2) (b / 2) (omega (arith, pow-suc 2 w)),
    )

pub bit_or-lt : (w a b : ℕ) → a < 2 ^ w → b < 2 ^ w → bit_or a b < 2 ^ w
bit_or-lt zero zero b h k = omega (arith, zero-bit_or b)
bit_or-lt zero (suc a) b h k = absurd (omega arith)
bit_or-lt (suc w) a b h k = omega (
  arith,
  pow-suc 2 w,
  bit_or_low a b,
  bit_or-lt w (a / 2) (b / 2) (omega (arith, pow-suc 2 w)) (omega (arith, pow-suc 2 w)),
)

pub bit-bit_not : (w k x : ℕ) → x < 2 ^ w → k < w → bit (bit_not w x) k ≡ 1 - bit x k
bit-bit_not zero k x h l = elim l [ ]
bit-bit_not (suc w) zero x h l = omega (arith, pow-suc 2 w, one-le-pow w 2)
bit-bit_not (suc w) (suc k) x h l =
    let e : bit_not (suc w) x / 2 ≡ bit_not w (x / 2) =
      omega (arith, pow-suc 2 w, one-le-pow w 2) in
    rw e (bit-bit_not w k (x / 2) (omega (arith, pow-suc 2 w)) (omega arith))

-- Words of one width with the same bits are equal.
pub bit_ext : (w a b : ℕ) → a < 2 ^ w → b < 2 ^ w → ((k : ℕ) → k < w → bit a k ≡ bit b k) → a ≡ b
bit_ext zero a b p q h = omega arith
bit_ext (suc w) a b p q h = omega (
  arith,
  h 0 (omega arith),
  bit_ext w (a / 2) (b / 2) (omega (arith, pow-suc 2 w)) (omega (arith, pow-suc 2 w))
      (λ k l. h (suc k) (omega arith)),
)
