-- ===== src/Codecvt/Tests.antt =====
-- Characters of several lengths.
use cpp_ipc.Prelude.{List, ℕ, ◌≡◌, refl, inr, [], ◌∷◌, ◌++◌, some, arith}
use cpp_ipc.Codecvt.{
  trail, follow, char8_tail, char32_to_8, char8_to_32, char32_to_16, char16_to_32,
}
use cpp_ipc.Codecvt.Strings.{from32, to32, between}
use cpp_ipc.Codecvt.Strings.Between.{between-to32}
use cpp_ipc.Codecvt.Strings.RoundTrip.{joined}
use cpp_ipc.Codecvt.Utf8.{char8_to_32-char32_to_8}
use cpp_ipc.Codecvt.Utf16.{char16_to_32-char32_to_16, char32_to_16-refuses}

euro_bytes : char32_to_8 0x20AC 3 ≡ (3, 0xE2 ∷ 0x82 ∷ 0xAC ∷ [])
unfolding char32_to_8 trail
euro_bytes = refl

char8_to_32-char32_to_8_example :
    char8_to_32 ((char32_to_8 0x20AC 3).1 ++ (65 ∷ [])) ≡ ((char32_to_8 0x20AC 3).0, 0x20AC)
unfolding char32_to_8 trail
char8_to_32-char32_to_8_example =
    char8_to_32-char32_to_8 0x20AC 3 (65 ∷ []) (omega arith) (omega arith) (omega arith)

char16_to_32-char32_to_16_example :
    char16_to_32 ((char32_to_16 0x1F600 2).1 ++ []) ≡ ((char32_to_16 0x1F600 2).0, 0x1F600)
unfolding char32_to_16
char16_to_32-char32_to_16_example =
    char16_to_32-char32_to_16 0x1F600 2 [] (omega arith) (inr (omega arith)) (omega arith)
      (omega arith)

char32_to_16-refuses_example :
    (w1 : ℕ) × (w2 : ℕ) × (char16_to_32 (w1 ∷ w2 ∷ []) ≡ (2, 0x10FFFF))
    × (char32_to_16 0x10FFFF 2 ≡ (0, []))
char32_to_16-refuses_example = char32_to_16-refuses 0x10FFFF 2 (omega arith) (omega arith)

abbrev written : List (ℕ × List ℕ)
written = (0, 65 ∷ []) ∷ (1, 0xE2 ∷ 0x82 ∷ 0xAC ∷ []) ∷ []

-- A letter and the euro sign, from UTF-8 to UTF-16.
between-to32_example :
    between char8_to_32 char32_to_16 3 0 4 (joined written)
    ≡ some (2, (0, 65 ∷ []) ∷ (1, 0x20AC ∷ []) ∷ [])
unfolding to32 from32 char8_to_32 char8_tail char32_to_16 follow
between-to32_example =
    between-to32 char8_to_32 char32_to_16 3 2 0 4 (joined written) 2 (65 ∷ 0x20AC ∷ []) refl
      (omega arith) (omega arith, (omega arith, tt))
