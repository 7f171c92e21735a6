-- ===== src/Fmt/Text.antt =====
-- src/libipc/imp/fmt.cpp: the text of a `fmt_context` and what `buffer` keeps of it.
pub mod Room
use cpp_ipc.Prelude.{
  ℕ, zero, suc, ◌+◌, ◌-◌, ◌*◌, ◌/◌, ◌^◌, ◌≤◌, ◌<◌, bit_and, ◌≡◌, refl, sym, ap, ◌∙◌, arith, Bool,
  true, false, List, [], ◌∷◌, ◌++◌, ltb, leb, if◌then◌else◌, length, take, drop, replicate,
  Bool-cases, inl, inr, lt→ltb, length-append, length-take, length-drop, length-replicate,
  take-append_left, take_add, take_all, append_assoc, dec_lt,
}
use cpp_ipc.Prelude.Bits.{bit_not}
use cpp_ipc.Prelude.Align.{bit_and-high_mask}
use cpp_ipc.Ipc.Chunks.{u64}
use cpp_ipc.Fmt.{
  Context, Span, nowhere, in_sbuf, in_joined, sbuf_size, size, copy_to, overwrite, resize, roundup,
  grow, buffer, expend,
}

-- The text so far.
abbrev pub text : Context → List ℕ
text c = if ltb c.offset sbuf_size then take c.offset c.sbuf else take c.offset c.joined

pub record IsValid (c : Context) : Type 0 where
  pub whole : length c.sbuf ≡ sbuf_size
  pub within : sbuf_size ≤ c.offset → c.offset ≤ length c.joined
  pub small : length c.joined < 2 ^ 63

pub roundup_lem : (n : ℕ) → n < 2 ^ 63 → roundup n ≡ n / 512 * 512 + 512
unfolding roundup
roundup_lem n h = omega (arith, bit_and-high_mask 9 55 64 n refl (omega arith))

module _ {A : Type 0} where
  pub take-append_le : (n : ℕ) (xs ys : List A) → n ≤ length xs → take n (xs ++ ys) ≡ take n xs
  take-append_le zero xs ys h = refl
  take-append_le (suc n) [] ys h = elim h [ ]
  take-append_le (suc n) (x ∷ xs) ys h = ap (λ zs. x ∷ zs) (take-append_le n xs ys (omega arith))

  pub take-take : (n m : ℕ) (xs : List A) → n ≤ m → take n (take m xs) ≡ take n xs
  take-take zero m xs h = refl
  take-take (suc n) zero xs h = elim h [ ]
  take-take (suc n) (suc m) [] h = refl
  take-take (suc n) (suc m) (x ∷ xs) h = ap (λ zs. x ∷ zs) (take-take n m xs (omega arith))

pub length-resize : (n : ℕ) (xs : List ℕ) → length (resize n xs) ≡ n
unfolding resize
length-resize n xs =
    length-append (take n xs) (replicate (n - length xs) 0)
    ∙ omega (arith, length-take n xs, length-replicate (n - length xs) (zero))

pub take-resize : (m n : ℕ) (xs : List ℕ) → m ≤ n → m ≤ length xs → take m (resize n xs) ≡ take m xs
unfolding resize
take-resize m n xs h l =
    take-append_le m (take n xs) (replicate (n - length xs) 0) (omega (arith, length-take n xs))
    ∙ take-take m n xs h
