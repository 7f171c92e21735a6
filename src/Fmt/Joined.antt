-- ===== src/Fmt/Joined.antt =====
-- include/libipc/imp/fmt.h: the text of a `fmt` of strings.
use cpp_ipc.Prelude.{
  ℕ, ◌+◌, ◌^◌, ◌≤◌, ◌<◌, ◌≡◌, refl, ap, ◌∙◌, arith, Bool, true, false, ◌⊎◌, inl, inr, Bool-cases,
  List, [], ◌∷◌, ◌++◌, map, length, ltb, if◌then◌else◌, length-append, length-take, tests, ltb→ge,
  append_assoc, append_nil,
}
use cpp_ipc.Fmt.{Context, sbuf_size, normalize, append, finish, fmt_to, fmt}
use cpp_ipc.Fmt.Text.{text, IsValid}
use cpp_ipc.Fmt.Append.{Adds, append-Adds, finish-text, length-normalize}
use cpp_ipc.Fmt.Text.Room.{Full}
use cpp_ipc.Fmt.Format.Concat.{concat}

unfoldable pub total : List (List ℕ) → ℕ
total [] = 0
total (s ∷ strs) = length s + total strs

length-text : (c : Context) → IsValid c → length (text c) ≡ c.offset
length-text c v = elim (Bool-cases (ltb c.offset sbuf_size)) [
  | inl short ↦ rw short (omega (tests, short, length-take c.offset c.sbuf, v.whole))
  | inr long ↦ rw long (omega (arith, length-take c.offset c.joined, v.within (ltb→ge _ _ long)))
]

concat-le : (strs : List (List ℕ)) → length (concat strs) ≤ total strs
unfolding concat total
concat-le [] = omega arith
concat-le (s ∷ strs) =
    omega (arith, length-append (normalize s) (concat strs), length-normalize s, concat-le strs)

more : (fits : ℕ → Bool) {a b : ℕ} → a ≤ b → Full fits a → Full fits b
more fits le (n, small, full) = (n, omega arith, full)

module _ (fits : ℕ → Bool) (fits-small : (n : ℕ) → fits n ≡ true → n < 2 ^ 63) where
  -- How a sequence of calls that was to add `xs` ended.
  AddsAll : List ℕ → Context → Context × Bool → Type 0
  AddsAll xs c (c', ok) =
      IsValid c'
      × (((ok ≡ true) × (text c' ≡ text c ++ xs))
          ⊎ ((ok ≡ false)
              × (c'.offset ≤ c.offset + length xs)
              × Full fits (c.offset + length xs + 512)))

  one_Adds :
      (xs : List ℕ) (c : Context) (r : Context × Bool)
      → IsValid c
      → Adds fits xs c r
      → AddsAll xs c r
  unfolding AddsAll
  one_Adds xs c (c', true) v (valid, written) = (valid, inl (refl, written))
  one_Adds xs c (c', false) v (valid, kept, long, full) = (
    valid,
    inr (refl, omega (arith, ap length kept, length-text c v, length-text c' valid), full),
  )

  then_AddsAll :
      (xs ys : List ℕ) (c : Context) (r rest : Context × Bool)
      → IsValid c
      → AddsAll xs c r
      → (IsValid r.0 → r.0.offset ≡ c.offset + length xs → AddsAll ys r.0 rest)
      → AddsAll (xs ++ ys) c (if r.1 then rest else r)
  unfolding AddsAll
  then_AddsAll xs ys c (c', false) rest v (valid, how) f = elim how [
    | inl (e, written) ↦ cc e
    | inr (e, le, full) ↦ (
      valid,
      inr (
        refl,
        omega (arith, length-append xs ys),
        more fits (omega (arith, length-append xs ys)) full,
      ),
    )
  ]
  then_AddsAll xs ys c (c', true) (c'', ok) v (valid, how) f = elim how [
    | inr (e, le, full) ↦ cc e
    | inl (e, written) ↦
        let moved : c'.offset ≡ c.offset + length xs = omega (
          arith,
          length-text c v,
          length-text c' valid,
          ap length written,
          length-append (text c) xs,
        ) in
        let (valid', how') = f valid moved in
        (
          valid',
          elim how' [
            | inl (r, more) ↦
                inl (r, more ∙ ap (λ zs. zs ++ ys) written ∙ append_assoc (text c) xs ys)
            | inr (r, le, full) ↦ inr (
              r,
              omega (arith, length-append xs ys),
              more fits (omega (arith, length-append xs ys)) full,
            )
          ],
        )
  ]

  fmt_to-AddsAll :
      (s : List ℕ) (strs : List (List ℕ)) (c : Context)
      → IsValid c
      → c.offset + total (s ∷ strs) < 2 ^ 62
      → AddsAll (concat (s ∷ strs)) c (fmt_to (append fits s) (map (append fits) strs) c)
  unfolding fmt_to total concat
  fmt_to-AddsAll s [] c v h = rw (append_nil (normalize s)) (
      one_Adds (normalize s) c (append fits s c) v
        (append-Adds fits fits-small s c v (omega arith)))
  fmt_to-AddsAll s (t ∷ strs) c v h =
      then_AddsAll (normalize s) (concat (t ∷ strs)) c (append fits s c) _ v
        (one_Adds (normalize s) c (append fits s c) v
          (append-Adds fits fits-small s c v (omega arith)))
        λ valid moved.
          fmt_to-AddsAll t strs (append fits s c).0 valid (omega (arith, length-normalize s))

  -- `fmt` of one or more strings, of less than 2^62 bytes in all, returns them one behind the
  -- other without a zero at the end of each, or the empty string, the latter only where a string
  -- of some length that is at most 512 more than those bytes cannot be had, where strings of 2^63
  -- bytes or more never can.
  pub fmt-concat :
      (sbuf s : List ℕ) (strs : List (List ℕ))
      → length sbuf ≡ sbuf_size
      → total (s ∷ strs) < 2 ^ 62
      → (fmt fits sbuf (append fits s) (map (append fits) strs) ≡ concat (s ∷ strs))
        ⊎ ((fmt fits sbuf (append fits s) (map (append fits) strs) ≡ [])
            × ((n : ℕ) × (n ≤ total (s ∷ strs) + 512) × (fits n ≡ false)))
  unfolding fmt AddsAll
  fmt-concat sbuf s strs e h =
      let start : Context = record { sbuf = sbuf; joined = []; offset = 0 } in
      let valid : IsValid start = record {
        whole = e;
        within = λ l. absurd (omega arith);
        small = omega arith;
      } in
      let (c, ok) = fmt_to (append fits s) (map (append fits) strs) start in
      let (v, how) = fmt_to-AddsAll s strs start valid (omega arith) in
      elim how [
        | inr (failed, le, full) ↦
            rw failed (inr (refl, more fits (omega (arith, concat-le (s ∷ strs))) full))
        | inl (added, written) ↦
            let short : c.offset < 2 ^ 62 =
              omega (arith, length-text c v, ap length written, concat-le (s ∷ strs)) in
            let (done, joined) = finish-text fits c v short in
            elim (Bool-cases (fits c.offset)) [
              | inl ok ↦
                  let finished : (finish fits c).1 ≡ true = done ∙ ok in
                  rw (added, finished) (inl ((joined finished).0 ∙ written))
              | inr full ↦
                  let refused : (finish fits c).1 ≡ false = done ∙ full in
                  rw (added, refused)
                    (inr (
                      refl,
                      (
                        c.offset,
                        omega (arith, length-text c v, ap length written, concat-le (s ∷ strs)),
                        full,
                      ),
                    ))
            ]
      ]
