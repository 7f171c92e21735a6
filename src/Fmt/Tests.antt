-- ===== src/Fmt/Tests.antt =====
-- The formatting on concrete texts.
use cpp_ipc.Prelude.{
  ℕ, ◌+◌, ◌^◌, ◌≤◌, ◌<◌, ◌≡◌, refl, arith, Bool, true, false, ◌⊎◌, some, none, List, [], ◌∷◌, map,
  take, replicate, ltb, ltb→lt, length-replicate,
}
use cpp_ipc.Prelude.Int.{ℤ, pos}
use cpp_ipc.Fmt.{overwrite, Context, sbuf_size, append, normalize, fmt, sprintf, capacity, reset}
use cpp_ipc.Fmt.Text.{IsValid}
use cpp_ipc.Fmt.Print.{printed, Prints, sprintf-ends}
use cpp_ipc.Fmt.Format.{
  sbuf_cat, sbuf_cpy, cat_loop, smem_cpy, back, fmt_of_unsigned, fmt_of_signed, format_of,
  signed_int, unsigned_long, c_x, c_d, percent,
}
use cpp_ipc.Fmt.Format.Concat.{concat}
use cpp_ipc.Fmt.Joined.{total, fmt-concat}

abbrev clear : List ℕ
clear = replicate 32 0

-- A string may have less than 2^40 bytes.
abbrev fits : ℕ → Bool
fits n = ltb n (2 ^ 40)

fits-small : (n : ℕ) → fits n ≡ true → n < 2 ^ 63
fits-small n h = let below : n < 2 ^ 40 = ltb→lt n (2 ^ 40) h in omega arith

abbrev zeros : List ℕ
zeros = replicate sbuf_size 0

abbrev start : Context
start = record { sbuf = zeros; joined = []; offset = 0 }

start-IsValid : IsValid start
start-IsValid = record {
  whole = length-replicate {A = ℕ} sbuf_size 0;
  within = λ h. absurd (omega arith);
  small = omega arith;
}

-- "a" with its zero, "b" and "" are "ab".
fmt-concat_example :
    (fmt fits zeros (append fits (97 ∷ 0 ∷ [])) (map (append fits) ((98 ∷ []) ∷ [] ∷ []))
      ≡ concat ((97 ∷ 0 ∷ []) ∷ (98 ∷ []) ∷ [] ∷ []))
    ⊎ ((fmt fits zeros (append fits (97 ∷ 0 ∷ [])) (map (append fits) ((98 ∷ []) ∷ [] ∷ [])) ≡ [])
        × ((n : ℕ) × (n ≤ total ((97 ∷ 0 ∷ []) ∷ (98 ∷ []) ∷ [] ∷ []) + 512) × (fits n ≡ false)))
unfolding total
fmt-concat_example =
    fmt-concat fits fits-small zeros (97 ∷ 0 ∷ []) ((98 ∷ []) ∷ [] ∷ [])
      (length-replicate {A = ℕ} sbuf_size 0) (omega arith)

ab_runs : concat ((97 ∷ 0 ∷ []) ∷ (98 ∷ []) ∷ [] ∷ []) ≡ 97 ∷ 98 ∷ []
unfolding concat normalize
ab_runs = refl

-- `snprintf` of "42".
abbrev forty_two : ℕ → ℤ × List ℕ
forty_two n = (pos 2, printed (52 ∷ 50 ∷ []) n)

sprintf-ends_example :
    (end : ℤ × Context) × (sprintf fits forty_two 2 start ≡ some end)
    × Prints fits forty_two (52 ∷ 50 ∷ []) start end
sprintf-ends_example =
    sprintf-ends fits forty_two (52 ∷ 50 ∷ []) fits-small (omega arith) (λ n. refl) start
      start-IsValid (omega arith)

-- The letter of the conversion moves behind the length.
hex_runs :
    format_of unsigned_long (48 ∷ 56 ∷ c_x ∷ 0 ∷ [])
    ≡ some ((percent ∷ []) ∷ (48 ∷ 56 ∷ []) ∷ (108 ∷ []) ∷ (c_x ∷ []) ∷ [])
unfolding format_of fmt_of_unsigned normalize back
hex_runs = refl

-- A format that is only a zero is read in front of its first byte.
empty_spec_runs : format_of signed_int (0 ∷ []) ≡ none
unfolding format_of fmt_of_signed normalize back
empty_spec_runs = refl

-- A format of 32 bytes loses the letter of its conversion: 30 digits, a "%" and no "d".
long_spec_runs :
    let (buf, sz) = sbuf_cat ((percent ∷ []) ∷ replicate 30 49 ∷ [] ∷ (c_d ∷ []) ∷ []) (clear) in
    take sz buf ≡ percent ∷ replicate 30 49
unfolding sbuf_cat cat_loop smem_cpy overwrite normalize
long_spec_runs = refl

capacity_runs : capacity (reset (record start { offset = 3000 })) ≡ 2048
unfolding capacity reset
capacity_runs = refl

cpy_runs : (sbuf_cpy (97 ∷ 0 ∷ []) (1 ∷ 2 ∷ 3 ∷ [])) ≡ (97 ∷ 0 ∷ 3 ∷ [], 1)
unfolding sbuf_cpy smem_cpy overwrite normalize
cpy_runs = refl
