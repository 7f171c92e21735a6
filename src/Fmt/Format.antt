-- ===== src/Fmt/Format.antt =====
-- src/libipc/imp/fmt.cpp: the formats that `to_string` hands to `snprintf`, which are put together in
-- a buffer of 32 bytes of the thread.
pub mod Concat
use cpp_ipc.Prelude.{
  ℕ, zero, suc, ◌+◌, ◌-◌, min, Bool, true, false, ◌||◌, Option, none, some, List, [], ◌∷◌, ◌++◌,
  ◌==◌, if◌then◌else◌, length, take, drop, set, get_elem?,
}
use cpp_ipc.Prelude.Int.{ℤ, pos, negsuc}
use cpp_ipc.Fmt.{Context, normalize, overwrite, sprintf, sprintf_loop, append}

-- `smem_cpy` to the span of `n` bytes from `at` on: the buffer and the number of bytes.
unfoldable pub smem_cpy : (at n : ℕ) → List ℕ → List ℕ → List ℕ × ℕ
smem_cpy at n a buf =
    if n == 0
    then (buf, 0)
    else let str = normalize a in
      let sz = min (n - 1) (length str) in (overwrite at (take sz str) buf, sz)

-- The loop of `sbuf_cat` over its arguments: the buffer and `remain`.
unfoldable pub cat_loop : List (List ℕ) → (remain : ℕ) → List ℕ → List ℕ × ℕ
cat_loop [] remain buf = (buf, remain)
cat_loop (s ∷ args) remain buf =
    let (buf', n) = smem_cpy (length buf - remain) remain s buf in cat_loop args (remain - n) buf'

-- The buffer and the length of the text in it.
unfoldable pub sbuf_cat : List (List ℕ) → List ℕ → List ℕ × ℕ
sbuf_cat args buf =
    let (buf', remain) = cat_loop args (length buf) buf in
    let sz = length buf' - remain in (set buf' sz 0, sz)

unfoldable pub sbuf_cpy : List ℕ → List ℕ → List ℕ × ℕ
sbuf_cpy a buf = let (buf', sz) = smem_cpy 0 (length buf) a buf in (set buf' sz 0, sz)

-- The last byte; `none` is a read in front of an empty span.
unfoldable pub back : List ℕ → Option ℕ
back [] = none
back (x ∷ []) = some x
back (x ∷ y ∷ xs) = back (y ∷ xs)

-- "%", "o", "x", "X", "u", "d", "e", "E", "g", "G" and "f".
abbrev pub percent : ℕ
percent = 37

abbrev pub c_o : ℕ
c_o = 111

abbrev pub c_x : ℕ
c_x = 120

abbrev pub c_X : ℕ
c_X = 88

abbrev pub c_u : ℕ
c_u = 117

abbrev pub c_d : ℕ
c_d = 100

abbrev pub c_e : ℕ
c_e = 101

abbrev pub c_E : ℕ
c_E = 69

abbrev pub c_g : ℕ
c_g = 103

abbrev pub c_G : ℕ
c_G = 71

abbrev pub c_f : ℕ
c_f = 102

-- `fstr.first(fstr.size() - 1)`, `l` and `fstr.last(1)` behind a "%".
abbrev pub move_back : List ℕ → List ℕ → List (List ℕ)
move_back fstr l = let n = length fstr - 1 in (percent ∷ []) ∷ take n fstr ∷ l ∷ drop n fstr ∷ []

-- The pieces of a format, in order.
pub fmt_of : List ℕ → List ℕ → List (List ℕ)
fmt_of fstr s = (percent ∷ []) ∷ fstr ∷ s ∷ []

unfoldable pub fmt_of_unsigned : List ℕ → List ℕ → Option (List (List ℕ))
fmt_of_unsigned [] l = some (fmt_of l (c_u ∷ []))
fmt_of_unsigned (a ∷ rest) l =
    let fstr = normalize (a ∷ rest) in
    elim (back fstr) [
      | none ↦ none
      | some c ↦
          if c == c_o || c == c_x || c == c_X || c == c_u
          then some (move_back fstr l)
          else some ((percent ∷ []) ∷ fstr ∷ l ∷ (c_u ∷ []) ∷ [])
    ]

unfoldable pub fmt_of_signed : List ℕ → List ℕ → Option (List (List ℕ))
fmt_of_signed [] l = some (fmt_of l (c_d ∷ []))
fmt_of_signed (a ∷ rest) l =
    let fstr = normalize (a ∷ rest) in
    elim (back fstr) [
      | none ↦ none
      | some c ↦
          if c == c_o || c == c_x || c == c_X || c == c_u
          then fmt_of_unsigned fstr l
          else some ((percent ∷ []) ∷ fstr ∷ l ∷ (c_d ∷ []) ∷ [])
    ]

pub fmt_of_float : List ℕ → List ℕ → Option (List (List ℕ))
fmt_of_float [] l = some (fmt_of l (c_f ∷ []))
fmt_of_float (a ∷ rest) l =
    let fstr = normalize (a ∷ rest) in
    elim (back fstr) [
      | none ↦ none
      | some c ↦
          if c == c_e || c == c_E || c == c_g || c == c_G
          then some (move_back fstr l)
          else some ((percent ∷ []) ∷ fstr ∷ l ∷ (c_f ∷ []) ∷ [])
    ]

-- The types of the values that `to_string` formats by `sprintf`.
pub data Number : Type 0 where
  signed_short unsigned_short signed_int unsigned_int signed_long unsigned_long : Number
  signed_long_long unsigned_long_long double long_double : Number

unfoldable pub format_of : Number → List ℕ → Option (List (List ℕ))
format_of signed_short fstr = fmt_of_signed fstr (104 ∷ [])
format_of unsigned_short fstr = fmt_of_unsigned fstr (104 ∷ [])
format_of signed_int fstr = fmt_of_signed fstr []
format_of unsigned_int fstr = fmt_of_unsigned fstr []
format_of signed_long fstr = fmt_of_signed fstr (108 ∷ [])
format_of unsigned_long fstr = fmt_of_unsigned fstr (108 ∷ [])
format_of signed_long_long fstr = fmt_of_signed fstr (108 ∷ 108 ∷ [])
format_of unsigned_long_long fstr = fmt_of_unsigned fstr (108 ∷ 108 ∷ [])
format_of double fstr = fmt_of_float fstr []
format_of long_double fstr = fmt_of_float fstr (76 ∷ [])

-- `to_string` of a number: the format, in the buffer of the thread, and `sprintf` with it. `none`
-- is a read in front of a span, or no turn left.
pub to_string :
    (fits : ℕ → Bool) (snprintf : List ℕ → ℕ → ℤ × List ℕ)
    → (fuel : ℕ) → Number
    → (fstr sbuf : List ℕ) → Context
    → Option (Bool × Context)
to_string fits snprintf fuel number fstr sbuf c = elim (format_of number fstr) [
  | none ↦ none
  | some pieces ↦
      let (buf, sz) = sbuf_cat pieces sbuf in
      elim (sprintf fits (snprintf (take sz buf)) fuel c) [
        | none ↦ none
        | some (pos n, c') ↦ some (true, c')
        | some (negsuc n, c') ↦ some (false, c')
      ]
]
