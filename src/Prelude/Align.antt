-- ===== src/Prelude/Align.antt =====
-- Masks that clear the low bits of a word: rounding down to a multiple of a power of two.
use Prim.Native.Nat.{ℕ, zero, suc, ◌+◌, ◌-◌, ◌*◌, ◌/◌, ◌%◌, ◌^◌, ◌≤◌, ◌<◌, bit_and}
use mathlib.Core.Path.{◌≡◌, ◌∙◌, sym, ap, ap₂}
use native.Mathlib.Nat.{pow-suc, one-le-pow, div-add-mod', mod-lt, div-lt_iff_lt-mul, mod-eq_of_lt}
use native.Mathlib.Omega.{arith}
use cpp_ipc.Prelude.Bits.{bit_not, bit_and_fields, bit_and-low_mask, bit_and-zero}

pub pow_add : (k j w : ℕ) → k + j ≡ w → 2 ^ w ≡ 2 ^ j * 2 ^ k
pow_add k zero w e = let same : w ≡ k = omega arith in rw same (omega arith)
pow_add k (suc j) zero e = absurd (omega arith)
pow_add k (suc j) (suc w) e =
    rw (pow-suc 2 w, pow-suc 2 j, pow_add k j w (omega arith)) (grind arith)

pred_mul : (a b : ℕ) → 1 ≤ a → (a - 1) * b + b ≡ a * b
pred_mul zero b h = absurd (omega arith)
pred_mul (suc a) b h = let e : suc a - 1 ≡ a = omega arith in rw e (grind arith)

-- The mask without the low `k` of `w` bits clears those bits.
pub bit_and-high_mask :
    (k j w x : ℕ) → k + j ≡ w → x < 2 ^ w → bit_and x (bit_not w (2 ^ k - 1)) ≡ x / 2 ^ k * 2 ^ k
bit_and-high_mask k j w x e h =
    let one : 1 ≤ 2 ^ k = one-le-pow k 2 (omega arith) in
    let width : 2 ^ w ≡ 2 ^ j * 2 ^ k = pow_add k j w e in
    let mask : bit_not w (2 ^ k - 1) ≡ (2 ^ j - 1) * 2 ^ k + 0 =
      rw width (omega (arith, pred_mul (2 ^ j) (2 ^ k) (one-le-pow j 2 (omega arith)))) in
    let q : x / 2 ^ k < 2 ^ j = (div-lt_iff_lt-mul one).1 (rw (← width) h) in
    ap₂ bit_and (sym (div-add-mod' x (2 ^ k))) mask
    ∙ bit_and_fields k (x / 2 ^ k) (2 ^ j - 1) (x % 2 ^ k) 0 (mod-lt x one) one
    ∙ omega (
      arith,
      bit_and-low_mask j (x / 2 ^ k),
      mod-eq_of_lt q,
      bit_and-zero (x % 2 ^ k),
      ap (λ (t : ℕ). t * 2 ^ k) (bit_and-low_mask j (x / 2 ^ k)),
      ap (λ (t : ℕ). t * 2 ^ k) (mod-eq_of_lt q),
    )
