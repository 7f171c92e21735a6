-- ===== src/Circ/Broadcast/Count.antt =====
-- `conn_count`: clearing the lowest 1 until none is left counts the ones.
use cpp_ipc.Prelude.{
  ℕ, zero, suc, ◌+◌, ◌-◌, ◌*◌, ◌/◌, ◌%◌, ◌^◌, ◌≤◌, ◌<◌, bit_and, ◌≡◌, ◌≢◌, refl, ap, some, arith,
  ◌==◌, Bool-cases, dec_lt, inl, inr, ◌∙◌,
}
use cpp_ipc.Prelude.Bits.{bit_and_low, bit_and_self, bit_and_le}
use native.Mathlib.Nat.{pow-suc}
use cpp_ipc.Circ.{u32}
use cpp_ipc.Circ.Broadcast.{count_from, conn_count}

-- The number of ones among the lowest `w` bits.
pub ones : ℕ → ℕ → ℕ
ones zero n = 0
ones (suc w) n = n % 2 + ones w (n / 2)

-- `cur & (cur - 1)` has one 1 less.
ones_clear : (w c : ℕ) → c < 2 ^ w → c ≢ 0 → ones w (bit_and c (c - 1)) + 1 ≡ ones w c
unfolding ones
ones_clear zero c h ne = absurd (ne (omega arith))
ones_clear (suc w) c h ne = elim (dec_lt 0 (c % 2)) [
  | yes odd ↦
      let half : (c - 1) / 2 ≡ c / 2 = omega arith in
      let e : bit_and c (c - 1) ≡ c / 2 * 2 =
        omega (arith, bit_and_low c (c - 1), ap (bit_and (c / 2)) half, bit_and_self (c / 2)) in
      let back : c / 2 * 2 / 2 ≡ c / 2 = omega arith in rw (e, back) (omega arith)
  | no even ↦
      let half : (c - 1) / 2 ≡ c / 2 - 1 = omega arith in
      let e : bit_and c (c - 1) ≡ bit_and (c / 2) (c / 2 - 1) * 2 =
        omega (arith, bit_and_low c (c - 1), ap (bit_and (c / 2)) half) in
      let back : bit_and (c / 2) (c / 2 - 1) * 2 / 2 ≡ bit_and (c / 2) (c / 2 - 1) = omega arith in
      rw (e, back)
        (omega (arith, ones_clear w (c / 2) (omega (arith, pow-suc 2 w)) (λ z. ne (omega arith))))
]

ones-le : (w c : ℕ) → ones w c ≤ w
unfolding ones
ones-le zero c = omega arith
ones-le (suc w) c = omega (arith, ones-le w (c / 2))

ones-zero : (w : ℕ) → ones w 0 ≡ 0
unfolding ones
ones-zero zero = refl
ones-zero (suc w) = omega (arith, ones-zero w)

count_from-ones :
    (fuel cur cnt : ℕ)
    → cur < 2 ^ 32
    → ones 32 cur < fuel
    → cnt + ones 32 cur ≤ 32
    → count_from fuel cur cnt ≡ some (cnt + ones 32 cur)
unfolding count_from
count_from-ones zero cur cnt h l c = elim l [ ]
count_from-ones (suc fuel) cur cnt h l c = elim (Bool-cases (cur == 0)) [
  | inl done ↦ let e : cur ≡ 0 = ground arith in rw e (ap some (omega (arith, ones-zero 32)))
  | inr more ↦
      let ne : cur ≢ 0 = ground arith in
      let less = ones_clear 32 cur h ne in
      let fits : u32 (cnt + 1) ≡ cnt + 1 = omega arith in
      let rest =
        count_from-ones fuel (bit_and cur (cur - 1)) (cnt + 1)
          (omega (arith, bit_and_le 32 cur (cur - 1) h)) (omega arith) (omega arith) in
      rw (more, fits) (rest ∙ ap some (omega arith))
]

-- `conn_count` of a 32-bit word ends and returns the number of its bits that are set.
pub conn_count-ones : (cc : ℕ) → cc < 2 ^ 32 → conn_count cc ≡ some (ones 32 cc)
unfolding conn_count
conn_count-ones cc h =
    count_from-ones 33 cc 0 h (omega (arith, ones-le 32 cc)) (omega (arith, ones-le 32 cc))
    ∙ ap some (omega arith)
