-- ===== src/Codecvt/Strings.antt =====
-- src/libipc/imp/codecvt.cpp, `cvt_cstr_utf`: strings between UTF-32 and an encoding by a loop over
-- `cvt_char`, here a parameter. Both end at a null character; the destination is not null.
pub mod RoundTrip
pub mod Between
use cpp_ipc.Prelude.{
  ℕ, zero, suc, ◌+◌, ◌-◌, Option, none, some, List, [], ◌∷◌, ◌++◌, ◌==◌, ltb, if◌then◌else◌, length,
  drop,
}

-- From UTF-32: the number of units and what each turn writes, with its offset; `none` is the
-- result 0 of a character that is refused.
unfoldable pub from32 :
    (ℕ → ℕ → ℕ × List ℕ) → (offset dlen : ℕ) → List ℕ → Option (ℕ × List (ℕ × List ℕ))
from32 cvt offset dlen [] = some (0, [])
from32 cvt offset dlen (c ∷ src) =
    let (len, units) = cvt c dlen in
    let rest =
      elim (from32 cvt (offset + len) (dlen - len) src) as (λ _. Option (ℕ × List (ℕ × List ℕ))) [
        | none ↦ none
        | some r ↦ some (len + r.0, (offset, units) ∷ r.1)
      ] in
    if c == 0 then some (0, []) else if len == 0 then none else rest

-- To UTF-32: the number of characters, and those that the `dlen` places of the destination take;
-- `none` also after the fuel has run out.
unfoldable pub to32 : (List ℕ → ℕ × ℕ) → (fuel dlen : ℕ) → List ℕ → Option (ℕ × List ℕ)
to32 cvt zero dlen src = none
to32 cvt (suc fuel) dlen [] = some (0, [])
to32 cvt (suc fuel) dlen (u ∷ src) =
    let (len, tmp) = cvt (u ∷ src) in
    let rest = elim (to32 cvt fuel (dlen - 1) (drop len (u ∷ src))) as (λ _. Option (ℕ × List ℕ)) [
      | none ↦ none
      | some r ↦ some (r.0 + 1, if ltb 0 dlen then tmp ∷ r.1 else r.1)
    ] in
    if u == 0 then some (0, []) else if len == 0 then none else rest

-- Between UTF-8 and UTF-16: `into` reads a character and `out` writes it.
pub between :
    (List ℕ → ℕ × ℕ)
    → (ℕ → ℕ → ℕ × List ℕ)
    → (fuel offset dlen : ℕ) → List ℕ
    → Option (ℕ × List (ℕ × List ℕ))
between into out zero offset dlen src = none
between into out (suc fuel) offset dlen [] = some (0, [])
between into out (suc fuel) offset dlen (u ∷ src) =
    let (len, tmp) = into (u ∷ src) in
    let (n, units) = out tmp dlen in
    let rest =
      elim (between into out fuel (offset + n) (dlen - n) (drop len (u ∷ src)))
        as (λ _. Option (ℕ × List (ℕ × List ℕ))) [
          | none ↦ none
          | some r ↦ some (n + r.0, (offset, units) ∷ r.1)
        ] in
    if u == 0 then some (0, []) else if len == 0 then none else if n == 0 then none else rest
