-- ===== src/Prelude/Bits.antt =====
-- Masks, fields and single bits of a word, and the operations on a word with itself.
mod Words
pub use Words.*
use Prim.Native.Nat.{
  ℕ, zero, suc, ◌+◌, ◌-◌, ◌*◌, ◌/◌, ◌%◌, ◌^◌, ◌≤◌, ◌<◌, min, max, bit_and, bit_or, bit_xor,
}
use Prim.Native.Nat.{digits, differ, bit_and-bitwise, bit_or-bitwise, bit_xor-bitwise}
use mathlib.Core.Path.{◌≡◌, ◌∙◌, refl, sym, ap, ap₂}
use mathlib.Core.Logic.{◌≢◌}
use native.Mathlib.Nat.{pow-suc, one-le-pow}
use native.Mathlib.Omega.{arith}

half_mod : (a m : ℕ) → 0 < m → a % (m * 2) ≡ a / 2 % m * 2 + a % 2
half_mod a m h = grind arith

-- A mask of `k` low ones keeps the remainder, and `|` of disjoint fields is their sum.
pub bit_and-low_mask : (k a : ℕ) → bit_and a (2 ^ k - 1) ≡ a % 2 ^ k
bit_and-low_mask zero a = omega (arith, bit_and-zero a)
bit_and-low_mask (suc k) a =
    let pos : 0 < 2 ^ k = one-le-pow k 2 (omega arith) in
    let half : (2 ^ k * 2 - 1) / 2 ≡ 2 ^ k - 1 = omega arith in
    let e : bit_and (a / 2) ((2 ^ k * 2 - 1) / 2) ≡ a / 2 % 2 ^ k =
      rw half (bit_and-low_mask k (a / 2)) in
    rw pow-suc (omega (arith, bit_and_low a (2 ^ k * 2 - 1), e, half_mod a (2 ^ k) pos))

pub bit_or_fields : (k q r : ℕ) → r < 2 ^ k → bit_or (q * 2 ^ k) r ≡ q * 2 ^ k + r
bit_or_fields zero q r h = ground (arith, bit_or-zero q)
bit_or_fields (suc k) q r h = ground (
  arith,
  bit_or_low (q * 2 ^ suc k) r,
  ap (λ (t : ℕ). q * t) (pow-suc 2 k),
  bit_or_fields k q (r / 2) (omega (arith, pow-suc 2 k)),
)

-- Bit `k` alone is `2 ^ k`.
pub bit-pow_self : (k : ℕ) → bit (2 ^ k) k ≡ 1
bit-pow_self zero = refl
bit-pow_self (suc k) =
    let e : 2 ^ suc k / 2 ≡ 2 ^ k = omega (arith, pow-suc 2 k) in rw e (bit-pow_self k)

pub bit-pow_ne : (k j : ℕ) → j ≢ k → bit (2 ^ k) j ≡ 0
bit-pow_ne zero zero h = absurd (h refl)
bit-pow_ne zero (suc j) h = bit-zero j
bit-pow_ne (suc k) zero h = omega (arith, pow-suc 2 k)
bit-pow_ne (suc k) (suc j) h =
    let e : 2 ^ suc k / 2 ≡ 2 ^ k = omega (arith, pow-suc 2 k) in
    rw e (bit-pow_ne k j (λ q. h (ap suc q)))

-- `differ` is the distance of two numbers.
pub differ_lem : (x y : ℕ) → differ x y ≡ max x y - min x y
differ_lem zero y = omega arith
differ_lem (suc x) zero = omega arith
differ_lem (suc x) (suc y) = omega (arith, differ_lem x y)

differ_self : (n : ℕ) → differ n n ≡ 0
differ_self zero = refl
differ_self (suc n) = differ_self n

-- A word with itself.
halving_self : (n a : ℕ) → a ≤ n → (bit_and a a ≡ a) × (bit_or a a ≡ a) × (bit_xor a a ≡ 0)
halving_self n zero h = (refl, refl, refl)
halving_self zero (suc a) h = elim h [ ]
halving_self (suc n) (suc a) h =
    let (p, q, r) = halving_self n (suc a / 2) (omega arith) in
    (
      omega (arith, bit_and_low (suc a) (suc a), p),
      omega (arith, bit_or_low (suc a) (suc a), q),
      omega (arith, bit_xor_low (suc a) (suc a), r, differ_self (suc a % 2)),
    )

pub bit_and_self : (a : ℕ) → bit_and a a ≡ a
bit_and_self a = (halving_self a a (omega arith)).0

pub bit_or_self : (a : ℕ) → bit_or a a ≡ a
bit_or_self a = (halving_self a a (omega arith)).1

pub bit_xor_self : (a : ℕ) → bit_xor a a ≡ 0
bit_xor_self a = (halving_self a a (omega arith)).2

-- Words made of two fields are combined field by field.
pub bit_and_fields :
    (k p q r s : ℕ)
    → r < 2 ^ k
    → s < 2 ^ k
    → bit_and (p * 2 ^ k + r) (q * 2 ^ k + s) ≡ bit_and p q * 2 ^ k + bit_and r s
bit_and_fields zero p q zero zero h l =
    let e : p * 1 + 0 ≡ p = omega arith in
    let f : q * 1 + 0 ≡ q = omega arith in rw (e, f) (omega (arith, zero-bit_and 0))
bit_and_fields zero p q (suc r) s h l = absurd (omega arith)
bit_and_fields zero p q zero (suc s) h l = absurd (omega arith)
bit_and_fields (suc k) p q r s h l = ground (
  arith,
  bit_and_low (p * 2 ^ suc k + r) (q * 2 ^ suc k + s),
  bit_and_low r s,
  ap (λ (t : ℕ). p * t) (pow-suc 2 k),
  ap (λ (t : ℕ). q * t) (pow-suc 2 k),
  ap (λ (t : ℕ). bit_and p q * t) (pow-suc 2 k),
  bit_and_fields k p q (r / 2) (s / 2) (omega (arith, pow-suc 2 k)) (omega (arith, pow-suc 2 k)),
)

pub bit_or_both_fields :
    (k p q r s : ℕ)
    → r < 2 ^ k
    → s < 2 ^ k
    → bit_or (p * 2 ^ k + r) (q * 2 ^ k + s) ≡ bit_or p q * 2 ^ k + bit_or r s
bit_or_both_fields zero p q zero zero h l =
    let e : p * 1 + 0 ≡ p = omega arith in
    let f : q * 1 + 0 ≡ q = omega arith in rw (e, f) (omega (arith, zero-bit_or 0))
bit_or_both_fields zero p q (suc r) s h l = absurd (omega arith)
bit_or_both_fields zero p q zero (suc s) h l = absurd (omega arith)
bit_or_both_fields (suc k) p q r s h l = ground (
  arith,
  bit_or_low (p * 2 ^ suc k + r) (q * 2 ^ suc k + s),
  bit_or_low r s,
  ap (λ (t : ℕ). p * t) (pow-suc 2 k),
  ap (λ (t : ℕ). q * t) (pow-suc 2 k),
  ap (λ (t : ℕ). bit_or p q * t) (pow-suc 2 k),
  bit_or_both_fields k p q (r / 2) (s / 2) (omega (arith, pow-suc 2 k))
      (omega (arith, pow-suc 2 k)),
)

-- A field set above a smaller number.
pub bit_or_high : (k q r : ℕ) → r < 2 ^ k → bit_or r (q * 2 ^ k) ≡ q * 2 ^ k + r
bit_or_high k q r h =
    let l : 0 * 2 ^ k + r ≡ r = omega arith in
    let m : q * 2 ^ k + 0 ≡ q * 2 ^ k = omega arith in
    let both : bit_or (0 * 2 ^ k + r) (q * 2 ^ k + 0) ≡ bit_or 0 q * 2 ^ k + bit_or r 0 =
      bit_or_both_fields k 0 q r 0 h (omega arith) in
    ap₂ bit_or (sym l) (sym m) ∙ both ∙ rw (zero-bit_or q, bit_or-zero r)

-- Adding `2 ^ k` to a word whose bit `k` is clear sets that bit, and leaves the others alone.
pub bit-add_pow : (k j c : ℕ) → bit c k ≡ 0 → bit (c + 2 ^ k) j ≡ max (bit c j) (bit (2 ^ k) j)
bit-add_pow zero zero c h = omega arith
bit-add_pow zero (suc j) c h =
    let half : (c + 1) / 2 ≡ c / 2 = omega arith in rw half (omega (arith, bit-zero j))
bit-add_pow (suc k) zero c h = omega (arith, pow-suc 2 k)
bit-add_pow (suc k) (suc j) c h =
    let half : (c + 2 ^ suc k) / 2 ≡ c / 2 + 2 ^ k = omega (arith, pow-suc 2 k) in
    let pow_half : 2 ^ suc k / 2 ≡ 2 ^ k = omega (arith, pow-suc 2 k) in
    rw (half, pow_half) (bit-add_pow k j (c / 2) h)

-- A word with a bit that is set is not 0.
pub ne_zero_of_bit : (k a : ℕ) → bit a k ≡ 1 → a ≢ 0
ne_zero_of_bit k a h e = ground (arith, bit-zero k, ap (λ t. bit t k) e)

-- Each bit of a word below `2 ^ w` lies below `w`.
pub lt-pow_of_bit : (w k a : ℕ) → a < 2 ^ w → w ≤ k → bit a k ≡ 0
lt-pow_of_bit zero k zero h l = bit-zero k
lt-pow_of_bit zero k (suc a) h l = absurd (omega arith)
lt-pow_of_bit (suc w) zero a h l = elim l [ ]
lt-pow_of_bit (suc w) (suc k) a h l =
    lt-pow_of_bit w k (a / 2) (omega (arith, pow-suc 2 w)) (omega arith)

pub pow-lt : (k w : ℕ) → k < w → 2 ^ k < 2 ^ w
pow-lt k zero h = elim h [ ]
pow-lt zero (suc w) h = omega (arith, pow-suc 2 w, one-le-pow w 2)
pow-lt (suc k) (suc w) h = omega (arith, pow-suc 2 w, pow-suc 2 k, pow-lt k w (omega arith))

pub add_pow-lt : (w k c : ℕ) → c < 2 ^ w → k < w → bit c k ≡ 0 → c + 2 ^ k < 2 ^ w
add_pow-lt zero k c h l b = elim l [ ]
add_pow-lt (suc w) zero c h l b = omega (arith, pow-suc 2 w)
add_pow-lt (suc w) (suc k) c h l b = omega (
  arith,
  pow-suc 2 w,
  pow-suc 2 k,
  add_pow-lt w k (c / 2) (omega (arith, pow-suc 2 w)) (omega arith) b,
)
