-- ===== src/Codecvt.antt =====
-- src/libipc/imp/codecvt.cpp, `cvt_char`: one character between UTF-8, UTF-16 and UTF-32. A result is
-- the number of units, 0 for a failure, with what is written: the character, or the units from
-- `des[0]` on. The destination is not null.
pub mod Utf8
pub mod Utf16
pub mod Strings
mod Tests
use cpp_ipc.Prelude.{
  ℕ, zero, suc, ◌+◌, ◌-◌, ◌*◌, ◌/◌, ◌%◌, ◌^◌, bit_and, bit_or, Bool, ◌&&◌, ◌||◌, Option, none, some,
  List, [], ◌∷◌, ◌==◌, ltb, leb, if◌then◌else◌, length, get_or,
}
use cpp_ipc.Circ.{u32}
use cpp_ipc.IdPool.{u8}

abbrev pub u16 : ℕ → ℕ
u16 n = n % 2 ^ 16

-- The loop over `codeup`: the number of bytes after the first.
abbrev pub utf8_class : ℕ → Option ℕ
utf8_class src =
    if ltb src 0x80
    then some 0
    else if ltb src 0x800
    then some 1
    else if ltb src 0x10000
    then some 2
    else if ltb src 0x200000
    then some 3
    else if ltb src 0x4000000
    then some 4
    else if ltb src 0x80000000
    then some 5
    else none

-- `prefix`.
abbrev pub utf8_prefix : ℕ → ℕ
utf8_prefix = λ i. get_or (0x00 ∷ 0xC0 ∷ 0xE0 ∷ 0xF0 ∷ 0xF8 ∷ 0xFC ∷ []) i 0

-- The loop that writes `des[i]` down to `des[1]`: what is left of the character, and the bytes.
pub trail : ℕ → ℕ → List ℕ → ℕ × List ℕ
trail zero src des = (src, des)
trail (suc i) src des = trail i (src / 2 ^ 6) (u8 (bit_or (bit_and src 0x3F) 0x80) ∷ des)

-- UTF-32 to UTF-8.
pub char32_to_8 : (src dlen : ℕ) → ℕ × List ℕ
char32_to_8 src dlen = if src == 0 then (0, []) else elim (utf8_class src) [
  | none ↦ (0, [])
  | some i ↦
      let (left, des) = if ltb i dlen then trail i src [] else (src, []) in
      (i + 1, u8 (bit_or left (utf8_prefix i)) ∷ des)
]

-- The loop over the bytes after the first; `none` where one is no such byte, or is missing.
pub follow : ℕ → List ℕ → ℕ → Option ℕ
follow zero src des = some des
follow (suc i) [] des = none
follow (suc i) (b ∷ src) des =
    let rest = follow i src (u32 (des * 2 ^ 6 + bit_and b 0x3F)) in
    if ltb b 0x80 || ltb 0xBF b then none else rest

-- The bytes after the first, with the bits of the first; `none` where `slen` is too small.
pub char8_tail : ℕ → ℕ → List ℕ → ℕ × ℕ
char8_tail len des src =
    if ltb (length src + 1) len
    then (0, des)
    else elim (follow (len - 1) src des) [ none ↦ (0, des) | some c ↦ (len, c) ]

-- UTF-8 to UTF-32; the list holds the `slen` bytes from `src` on. The character is meant only
-- where the length is not 0.
pub char8_to_32 : List ℕ → ℕ × ℕ
char8_to_32 [] = (0, 0)
char8_to_32 (b ∷ src) =
    if b == 0
    then (0, 0)
    else if ltb b 0x80
    then (1, b)
    else if ltb b 0xC0 || ltb 0xFD b
    then (0, 0)
    else if ltb b 0xE0
    then char8_tail 2 (bit_and b 0x1F) src
    else if ltb b 0xF0
    then char8_tail 3 (bit_and b 0x0F) src
    else if ltb b 0xF8
    then char8_tail 4 (bit_and b 0x07) src
    else if ltb b 0xFC
    then char8_tail 5 (bit_and b 0x03) src
    else char8_tail 6 (bit_and b 0x01) src

-- UTF-32 to UTF-16.
pub char32_to_16 : (src dlen : ℕ) → ℕ × List ℕ
char32_to_16 src dlen =
    if src == 0
    then (0, [])
    else if leb src 0xFFFF
    then (1, if dlen == 0 then [] else u16 src ∷ [])
    else if leb src 0xEFFFF
    then (
      2,
      if ltb 1 dlen
          then u16 (0xD800 + src / 2 ^ 10 - 0x40) ∷ (u16 (0xDC00 + bit_and src 0x3FF) ∷ [])
          else [],
    )
    else (0, [])

-- UTF-16 to UTF-32; the list holds the `slen` units from `src` on.
pub char16_to_32 : List ℕ → ℕ × ℕ
char16_to_32 [] = (0, 0)
char16_to_32 (w1 ∷ src) =
    if w1 == 0
    then (0, 0)
    else if leb 0xD800 w1 && leb w1 0xDFFF
    then (if ltb w1 0xDC00
        then elim src [
          | [] ↦ (0, 0)
          | w2 ∷ more ↦
              if leb 0xDC00 w2 && leb w2 0xDFFF
              then (2, bit_and w2 0x3FF + (bit_and w1 0x3FF + 0x40) * 2 ^ 10)
              else (0, 0)
        ]
        else (0, 0))
    else (1, w1)

-- UTF-16 to UTF-8, of one unit.
pub char16_to_8 : (src dlen : ℕ) → ℕ × List ℕ
char16_to_8 src dlen =
    let (len, tmp) = char16_to_32 (src ∷ []) in if len == 1 then char32_to_8 tmp dlen else (0, [])

-- UTF-8 to UTF-16, of one unit.
pub char8_to_16 : List ℕ → ℕ × List ℕ
char8_to_16 src =
    let (len, tmp) = char8_to_32 src in
    let (units, des) = char32_to_16 tmp 1 in
    if len == 0 then (0, []) else if units == 1 then (len, des) else (0, [])
