-- ===== src/Codecvt/Strings/RoundTrip.antt =====
-- src/libipc/imp/codecvt.cpp: strings from UTF-32 to UTF-8 and back.
use cpp_ipc.Prelude.{ℕ, ◌^◌, ◌<◌, Option, List, [], ◌∷◌, ◌++◌, All}

-- What the turns write, one behind the other.
abbrev pub joined : List (ℕ × List ℕ) → List ℕ
joined [] = []
joined ((offset, units) ∷ ws) = units ++ joined ws

-- The characters of a string that are from 1 to 2^31 - 1.
abbrev pub AreChars : List ℕ → Type 0
AreChars = All (λ c. (0 < c) × (c < 2 ^ 31))
