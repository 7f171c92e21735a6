-- ===== src/Codecvt/Utf8.antt =====
-- src/libipc/imp/codecvt.cpp: UTF-8.
use cpp_ipc.Prelude.{
  ℕ, zero, suc, ◌+◌, ◌-◌, ◌*◌, ◌/◌, ◌%◌, ◌^◌, ◌≤◌, ◌<◌, bit_and, bit_or, ◌≡◌, refl, ap, ◌∙◌, arith,
  true, false, List, [], ◌∷◌, ◌++◌, length, ltb, ◌==◌, Bool-cases, inl, inr, some, dec_lt,
}
use cpp_ipc.Prelude.Bits.{bit_or_high, bit_or-zero, bit_and-low_mask}
use cpp_ipc.Circ.{u32}
use cpp_ipc.IdPool.{u8}
use cpp_ipc.Codecvt.{utf8_class, utf8_prefix, trail, char32_to_8, follow, char8_tail, char8_to_32}

-- A byte after the first holds six bits.
trail_byte : (s : ℕ) → u8 (bit_or (bit_and s 0x3F) 0x80) ≡ 0x80 + s % 64
trail_byte s =
    let six : bit_and s 0x3F ≡ s % 64 = bit_and-low_mask 6 s in
    rw six (omega (arith, bit_or_high 7 1 (s % 64) (omega arith)))

follow-byte :
    (i s : ℕ) (src : List ℕ)
    → s < 2 ^ 32
    → follow (suc i) (u8 (bit_or (bit_and s 0x3F) 0x80) ∷ src) (s / 2 ^ 6) ≡ follow i src s
unfolding follow
follow-byte i s src h =
    let six : bit_and (0x80 + s % 64) 0x3F ≡ s % 64 =
      omega (arith, bit_and-low_mask 6 (0x80 + s % 64)) in
    let low : ltb (0x80 + s % 64) 0x80 ≡ false = ground arith in
    let high : ltb 0xBF (0x80 + s % 64) ≡ false = ground arith in
    let whole : u32 (s / 2 ^ 6 * 2 ^ 6 + s % 64) ≡ s = omega arith in
    rw (trail_byte s, low, high, six, whole)

-- Reading the bytes that were written gives the character back.
follow-trail :
    (i s : ℕ) (des : List ℕ) (n : ℕ)
    → s < 2 ^ 32
    → follow (i + n) ((trail i s des).1) (trail i s des).0 ≡ follow n des s
unfolding trail
follow-trail zero s des n h = ap (λ m. follow m des s) (omega arith)
follow-trail (suc i) s des n h =
    let b : ℕ = u8 (bit_or (bit_and s 0x3F) 0x80) in
    let sum : suc i + n ≡ i + suc n = omega arith in
    rw (sum, follow-trail i (s / 2 ^ 6) (b ∷ des) (suc n) (omega arith), follow-byte n s des h)

pub length-trail : (i s : ℕ) (des : List ℕ) → length (trail i s des).1 ≡ i + length des
unfolding trail
length-trail zero s des = omega arith
length-trail (suc i) s des =
    omega (arith, length-trail i (s / 2 ^ 6) (u8 (bit_or (bit_and s 0x3F) 0x80) ∷ des))

trail-append :
    (i s : ℕ) (xs ys : List ℕ) → trail i s (xs ++ ys) ≡ ((trail i s xs).0, (trail i s xs).1 ++ ys)
unfolding trail
trail-append zero s xs ys = refl
trail-append (suc i) s xs ys =
    trail-append i (s / 2 ^ 6) (u8 (bit_or (bit_and s 0x3F) 0x80) ∷ xs) ys

tail_lem :
    (i s : ℕ) (more : List ℕ)
    → s < 2 ^ 32
    → char8_tail (suc i) (trail i s []).0 ((trail i s []).1 ++ more) ≡ (suc i, s)
unfolding char8_tail follow
tail_lem i s more h =
    let joined : trail i s more ≡ ((trail i s []).0, (trail i s []).1 ++ more) =
      trail-append i s [] more in
    let bytes : (trail i s more).1 ≡ (trail i s []).1 ++ more = ap (λ t. t.1) joined in
    let left : (trail i s more).0 ≡ (trail i s []).0 = ap (λ t. t.0) joined in
    let enough : ltb (length ((trail i s []).1 ++ more) + 1) (suc i) ≡ false =
      ground (arith, ap length bytes, length-trail i s more) in
    let size : i + 0 ≡ suc i - 1 = omega arith in
    let found : follow (suc i - 1) ((trail i s []).1 ++ more) (trail i s []).0 ≡ some s =
      rw (size, bytes, left) at (follow-trail i s more 0 h) in
    rw (enough, found)

-- The first byte of each length.
first_two :
    (left : ℕ) (src : List ℕ)
    → left < 32
    → char8_to_32 (u8 (bit_or left 0xC0) ∷ src) ≡ char8_tail 2 left src
unfolding char8_to_32
first_two left src h =
    let b : u8 (bit_or left 0xC0) ≡ 0xC0 + left = omega (arith, bit_or_high 5 6 left h) in
    let bits : bit_and (0xC0 + left) 0x1F ≡ left =
      omega (arith, bit_and-low_mask 5 (0xC0 + left)) in
    rw (b, bits) (ground arith)

first_three :
    (left : ℕ) (src : List ℕ)
    → left < 16
    → char8_to_32 (u8 (bit_or left 0xE0) ∷ src) ≡ char8_tail 3 left src
unfolding char8_to_32
first_three left src h =
    let b : u8 (bit_or left 0xE0) ≡ 0xE0 + left = omega (arith, bit_or_high 4 14 left h) in
    let bits : bit_and (0xE0 + left) 0x0F ≡ left =
      omega (arith, bit_and-low_mask 4 (0xE0 + left)) in
    rw (b, bits) (ground arith)

first_four :
    (left : ℕ) (src : List ℕ)
    → left < 8
    → char8_to_32 (u8 (bit_or left 0xF0) ∷ src) ≡ char8_tail 4 left src
unfolding char8_to_32
first_four left src h =
    let b : u8 (bit_or left 0xF0) ≡ 0xF0 + left = omega (arith, bit_or_high 3 30 left h) in
    let bits : bit_and (0xF0 + left) 0x07 ≡ left =
      omega (arith, bit_and-low_mask 3 (0xF0 + left)) in
    rw (b, bits) (ground arith)

first_five :
    (left : ℕ) (src : List ℕ)
    → left < 4
    → char8_to_32 (u8 (bit_or left 0xF8) ∷ src) ≡ char8_tail 5 left src
unfolding char8_to_32
first_five left src h =
    let b : u8 (bit_or left 0xF8) ≡ 0xF8 + left = omega (arith, bit_or_high 2 62 left h) in
    let bits : bit_and (0xF8 + left) 0x03 ≡ left =
      omega (arith, bit_and-low_mask 2 (0xF8 + left)) in
    rw (b, bits) (ground arith)

first_six :
    (left : ℕ) (src : List ℕ)
    → left < 2
    → char8_to_32 (u8 (bit_or left 0xFC) ∷ src) ≡ char8_tail 6 left src
unfolding char8_to_32
first_six left src h =
    let b : u8 (bit_or left 0xFC) ≡ 0xFC + left = omega (arith, bit_or_high 1 126 left h) in
    let bits : bit_and (0xFC + left) 0x01 ≡ left =
      omega (arith, bit_and-low_mask 1 (0xFC + left)) in
    rw (b, bits) (ground arith)

pub class_lem : (src : ℕ) → src < 2 ^ 31 → (i : ℕ) × (utf8_class src ≡ some i)
class_lem src h = elim (dec_lt src 0x80) [
  | yes a ↦ (0, ground arith)
  | no a ↦ elim (dec_lt src 0x800) [
    | yes b ↦ (1, ground arith)
    | no b ↦ elim (dec_lt src 0x10000) [
      | yes c ↦ (2, ground arith)
      | no c ↦ elim (dec_lt src 0x200000) [
        | yes d ↦ (3, ground arith)
        | no d ↦ elim (dec_lt src 0x4000000) [
          | yes e ↦ (4, ground arith)
          | no e ↦ (5, ground arith)
        ]
      ]
    ]
  ]
]

-- A character of `i` bytes after the first is read back if its first byte is read as one.
read_lem :
    (i src dlen : ℕ) (more : List ℕ)
    → 0 < src
    → src < 2 ^ 31
    → utf8_class src ≡ some i
    → (char32_to_8 src dlen).0 ≤ dlen
    → ((rest : List ℕ)
        → char8_to_32 (u8 (bit_or (trail i src []).0 (utf8_prefix i)) ∷ rest)
          ≡ char8_tail (suc i) (trail i src []).0 rest)
    → char8_to_32 ((char32_to_8 src dlen).1 ++ more) ≡ ((char32_to_8 src dlen).0, src)
unfolding char32_to_8
read_lem i src dlen more z h c l first =
    let some_char : (src == 0) ≡ false = ground arith in
    let size : (char32_to_8 src dlen).0 ≡ i + 1 = rw (some_char, c) in
    let room : ltb i dlen ≡ true = ground (arith, size, l) in
    let next : i + 1 ≡ suc i = omega arith in
    rw (some_char, c, room, next)
      (first ((trail i src []).1 ++ more) ∙ tail_lem i src more (omega arith))

one_byte :
    (src dlen : ℕ) (more : List ℕ)
    → 0 < src
    → src < 0x80
    → char8_to_32 ((char32_to_8 src dlen).1 ++ more) ≡ ((char32_to_8 src dlen).0, src)
unfolding char32_to_8 char8_to_32 trail
one_byte src dlen more z h =
    let some_char : (src == 0) ≡ false = ground arith in
    let ascii : ltb src 0x80 ≡ true = ground arith in
    let b : u8 (bit_or src 0) ≡ src = omega (arith, bit_or-zero src) in
    elim (Bool-cases (ltb 0 dlen)) [
      | inl room ↦ rw (some_char, ascii, room, b, some_char, ascii)
      | inr none_left ↦ rw (some_char, ascii, none_left, b, some_char, ascii)
    ]

-- To a destination without room, `cvt_char` writes one byte for any character from 1 to 2^31 - 1.
pub char32_to_8-overrun : (src : ℕ) → 0 < src → src < 2 ^ 31 → length (char32_to_8 src 0).1 ≡ 1
unfolding char32_to_8
char32_to_8-overrun src z h =
    let some_char : (src == 0) ≡ false = ground arith in
    let class : (i : ℕ) × (utf8_class src ≡ some i) = class_lem src h in
    let full : ltb class.0 0 ≡ false = ground arith in rw (some_char, class.1, full)

-- The bytes of a character from 1 to 2^31 - 1 that fit in the destination are read back as the
-- character, with their number, whatever follows them.
pub char8_to_32-char32_to_8 :
    (src dlen : ℕ) (more : List ℕ)
    → 0 < src
    → src < 2 ^ 31
    → (char32_to_8 src dlen).0 ≤ dlen
    → char8_to_32 ((char32_to_8 src dlen).1 ++ more) ≡ ((char32_to_8 src dlen).0, src)
unfolding trail
char8_to_32-char32_to_8 src dlen more z h l = elim (dec_lt src 0x80) [
  | yes a ↦ one_byte src dlen more z a
  | no a ↦ elim (dec_lt src 0x800) [
    | yes b ↦
        read_lem 1 src dlen more z h (ground arith) l (λ r. first_two (src / 64) r (omega arith))
    | no b ↦ elim (dec_lt src 0x10000) [
      | yes c ↦
          read_lem 2 src dlen more z h (ground arith) l
            (λ r. first_three (src / 64 / 64) r (omega arith))
      | no c ↦ elim (dec_lt src 0x200000) [
        | yes d ↦
            read_lem 3 src dlen more z h (ground arith) l
              (λ r. first_four (src / 64 / 64 / 64) r (omega arith))
        | no d ↦ elim (dec_lt src 0x4000000) [
          | yes e ↦
              read_lem 4 src dlen more z h (ground arith) l
                (λ r. first_five (src / 64 / 64 / 64 / 64) r (omega arith))
          | no e ↦
              read_lem 5 src dlen more z h (ground arith) l
                (λ r. first_six (src / 64 / 64 / 64 / 64 / 64) r (omega arith))
        ]
      ]
    ]
  ]
]
