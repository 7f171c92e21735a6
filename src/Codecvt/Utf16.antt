-- ===== src/Codecvt/Utf16.antt =====
-- src/libipc/imp/codecvt.cpp: UTF-16.
use cpp_ipc.Prelude.{
  ℕ, ◌+◌, ◌-◌, ◌*◌, ◌/◌, ◌%◌, ◌^◌, ◌≤◌, ◌<◌, bit_and, ◌≡◌, ◌⊎◌, arith, true, false, List, [], ◌∷◌,
  ◌++◌, ltb, leb, ◌==◌, dec_lt,
}
use cpp_ipc.Prelude.Bits.{bit_and-low_mask}
use cpp_ipc.Codecvt.{u16, char32_to_16, char16_to_32}

-- A high and a low surrogate stand for the ten bits of each.
surrogates :
    (c : ℕ) (more : List ℕ)
    → 0xFFFF < c
    → c ≤ 0x10FFFF
    → char16_to_32 ((0xD800 + c / 2 ^ 10 - 0x40) ∷ ((0xDC00 + c % 2 ^ 10) ∷ more)) ≡ (2, c)
unfolding char16_to_32
surrogates c more h l =
    let w1 : ℕ = 0xD800 + c / 2 ^ 10 - 0x40 in
    let w2 : ℕ = 0xDC00 + c % 2 ^ 10 in
    let high : bit_and w1 0x3FF ≡ w1 % 2 ^ 10 = bit_and-low_mask 10 w1 in
    let low : bit_and w2 0x3FF ≡ w2 % 2 ^ 10 = bit_and-low_mask 10 w2 in
    let whole : w2 % 2 ^ 10 + (w1 % 2 ^ 10 + 0x40) * 2 ^ 10 ≡ c = omega arith in
    rw (high, low, whole) (ground arith)

single_unit :
    (c : ℕ) (more : List ℕ) → 0 < c → (c < 0xD800) ⊎ (0xDFFF < c) → char16_to_32 (c ∷ more) ≡ (1, c)
unfolding char16_to_32
single_unit c more z s = ground arith

-- A character from 1 to U+EFFFF that is no surrogate and fits in the destination is read back from
-- its units, whatever follows them.
pub char16_to_32-char32_to_16 :
    (src dlen : ℕ) (more : List ℕ)
    → 0 < src
    → (src < 0xD800) ⊎ (0xDFFF < src)
    → src ≤ 0xEFFFF
    → (char32_to_16 src dlen).0 ≤ dlen
    → char16_to_32 ((char32_to_16 src dlen).1 ++ more) ≡ ((char32_to_16 src dlen).0, src)
unfolding char32_to_16
char16_to_32-char32_to_16 src dlen more z s h l =
    let some_char : (src == 0) ≡ false = ground arith in
    elim (dec_lt 0xFFFF src) [
      | yes a ↦
          let pair : leb src 0xFFFF ≡ false = ground arith in
          let plane : leb src 0xEFFFF ≡ true = ground arith in
          let room : ltb 1 dlen ≡ true = ground (arith, l, some_char, pair, plane) in
          let w1 : u16 (0xD800 + src / 2 ^ 10 - 0x40) ≡ 0xD800 + src / 2 ^ 10 - 0x40 =
            omega arith in
          let w2 : u16 (0xDC00 + bit_and src 0x3FF) ≡ 0xDC00 + src % 2 ^ 10 =
            omega (arith, bit_and-low_mask 10 src) in
          rw (some_char, pair, plane, room, w1, w2) (surrogates src more a (omega arith))
      | no a ↦
          let single : leb src 0xFFFF ≡ true = ground arith in
          let room : (dlen == 0) ≡ false = ground (arith, l, some_char, single) in
          let w1 : u16 src ≡ src = omega arith in
          rw (some_char, single, room, w1) (single_unit src more z s)
    ]

-- Each character from U+F0000 to U+10FFFF has two units from which `cvt_char` reads it, and
-- `cvt_char` does not write it.
pub char32_to_16-refuses :
    (src dlen : ℕ)
    → 0xEFFFF < src
    → src ≤ 0x10FFFF
    → (w1 : ℕ) × (w2 : ℕ) × (char16_to_32 (w1 ∷ (w2 ∷ [])) ≡ (2, src))
      × (char32_to_16 src dlen ≡ (0, []))
unfolding char32_to_16
char32_to_16-refuses src dlen h l = (
  0xD800 + src / 2 ^ 10 - 0x40,
  0xDC00 + src % 2 ^ 10,
  surrogates src [] (omega arith) l,
  ground arith,
)
