-- ===== src/Fmt/Print.antt =====
-- src/libipc/imp/fmt.cpp: the loop of `sprintf`, which asks for room until the text fits.
use mathlib.Core.Path.{subst}
use cpp_ipc.Prelude.{
  ℕ, zero, suc, ◌+◌, ◌-◌, ◌^◌, ◌≤◌, ◌<◌, ◌≡◌, refl, sym, ap, ◌∙◌, arith, Bool, true, false, some,
  List, [], ◌∷◌, ◌++◌, ltb, leb, length, take, Bool-cases, inl, inr, ◌⊎◌, length-append,
  length-take, take_all, tests, ltb→lt, ltb→ge, append_nil,
}
use cpp_ipc.Prelude.Int.{ℤ, pos, negsuc}
use cpp_ipc.Ipc.Chunks.{u64}
use cpp_ipc.Fmt.{
  Context, Span, nowhere, in_sbuf, in_joined, sbuf_size, size, copy_to, buffer, sprintf_loop,
  sprintf, expend, next_room,
}
use cpp_ipc.Fmt.Text.{text, IsValid, take-append_le, take-take}
use cpp_ipc.Fmt.Text.Room.{
  Full, Room, buffer-Room, store-text, refused, beyond, widen, offset-copy_to,
}

-- What `snprintf` leaves in `n` bytes: what fits of the text, and a zero.
abbrev pub printed : List ℕ → ℕ → List ℕ
printed txt zero = []
printed txt (suc n) = take n txt ++ (0 ∷ [])

length-printed : (txt : List ℕ) (n : ℕ) → length (printed txt n) ≤ n
length-printed txt zero = omega arith
length-printed txt (suc n) =
    rw (length-append (take n txt) (0 ∷ [])) (omega (arith, length-take n txt))

take-printed : (txt : List ℕ) (n : ℕ) → length txt < n → take (length txt) (printed txt n) ≡ txt
take-printed txt zero h = elim h [ ]
take-printed txt (suc n) h =
    take-append_le (length txt) (take n txt) (0 ∷ []) (omega (arith, length-take n txt))
    ∙ take-take (length txt) n txt (omega arith)
    ∙ take_all txt (length txt) (omega arith)

room-printed : (txt : List ℕ) (n : ℕ) → length txt < n → length txt ≤ length (printed txt n)
room-printed txt zero h = elim h [ ]
room-printed txt (suc n) h =
    rw (length-append (take n txt) (0 ∷ [])) (omega (arith, length-take n txt))

length-zero : (xs : List ℕ) → length xs ≡ 0 → xs ≡ []
length-zero [] h = refl
length-zero (x ∷ xs) h = absurd (omega arith)

expend-zero : (c : Context) → c.offset < 2 ^ 64 → expend 0 c ≡ c
expend-zero c h = let e : u64 (c.offset + 0) ≡ c.offset = omega arith in rw e refl

module _ (fits : ℕ → Bool) (snprintf : ℕ → ℤ × List ℕ) (txt : List ℕ) where
  -- How `sprintf` ended: with the text, or, for lack of memory, without it.
  abbrev pub Prints : Context → ℤ × Context → Type 0
  Prints c (sz, c') =
      IsValid c'
      × (((sz ≡ pos (length txt)) × (text c' ≡ text c ++ txt))
          ⊎ ((sz ≡ negsuc 0)
              × (text c' ≡ text c)
              × (sbuf_size ≤ c.offset + length txt)
              × Full fits (c.offset + length txt + 513)))

  same_Prints :
      (b c : Context) (end : ℤ × Context)
      → text b ≡ text c
      → b.offset ≡ c.offset
      → Prints b end
      → Prints c end
  same_Prints b c end same at (valid, how) = (
    valid,
    elim how [
      | inl (r, written) ↦ inl (r, written ∙ ap (λ ys. ys ++ txt) same)
      | inr (r, kept, long, full) ↦
          inr (
            r,
            kept ∙ same,
            omega (arith, at),
            subst (λ o. Full fits (o + length txt + 513)) at full,
          )
    ],
  )

  module _ (fits-small : (n : ℕ) → fits n ≡ true → n < 2 ^ 63) (small-int : length txt < 2 ^ 31 - 1)
      (formats : (n : ℕ) → snprintf n ≡ (pos (length txt), printed txt n)) where
    passed_end :
        {c c' : Context} {s : Span}
        → Room fits 0 c c' s
        → size c' s ≤ length txt
        → sbuf_size ≤ c.offset + length txt
    unfolding size
    passed_end {s = nowhere} r h = omega (arith, r.same_offset, r.ready.0)
    passed_end {s = in_sbuf} r h = omega (arith, r.same_offset, r.valid.whole)
    passed_end {s = in_joined} r h = omega (arith, r.same_offset, r.ready.0)

    at_most : (o : ℕ) → Full fits (o + (length txt + 1) + 512) → Full fits (o + length txt + 513)
    at_most o (n, le, full) = (n, omega arith, full)

    next_lem : next_room (length txt) ≡ length txt + 1
    unfolding next_room
    next_lem = ground arith

    -- The turn that has room for the text and a zero.
    last_turn :
        (c : Context)
        → IsValid c
        → 0 < length txt
        → sbuf_size ≤ c.offset + length txt
        → c.offset + (length txt + 1) < 2 ^ 62
        → (end : ℤ × Context) × (sprintf_loop fits snprintf 1 (length txt + 1) c ≡ some end)
          × Prints c end
    unfolding sprintf_loop
    last_turn c v some_text far h =
        let room : ℕ = length txt + 1 in
        let r = buffer-Room fits fits-small room c v h in
        let (c', s) = buffer fits room c in
        let n = size c' s in
        elim (Bool-cases (ltb n room)) [
          | inl short ↦
              let why = refused fits room r (ltb→lt _ _ short) in
              (
                (negsuc 0, c'),
                rw (sprintf_loop, short) refl,
                (r.valid, inr (refl, r.same_text, omega arith, at_most c.offset why.1)),
              )
          | inr enough ↦
              let positive : leb (length txt) 0 ≡ false = ground arith in
              let below : ltb (length txt) n ≡ true = ground arith in
              let (valid, written) =
                store-text fits fits-small room r (printed txt n) (length txt)
                  (length-printed txt n) (room-printed txt n (omega tests)) (omega arith) (λ _. far)
                  h in
              (
                (pos (length txt), expend (length txt) (copy_to c' s (printed txt n))),
                rw (sprintf_loop, enough, formats n, positive, below, formats n) refl,
                (
                  valid,
                  inl (refl, written ∙ ap (λ ys. text c ++ ys) (take-printed txt n (omega tests))),
                ),
              )
        ]

    short_turn :
        (fuel room : ℕ) (c : Context)
        → let (c', s) = buffer fits room c in
          let n = size c' s in
          ltb n room ≡ false
          → leb (length txt) 0 ≡ false
          → ltb (length txt) n ≡ false
          → sprintf_loop fits snprintf (suc fuel) room c
            ≡ sprintf_loop fits snprintf fuel (length txt + 1) (copy_to c' s (printed txt n))
    unfolding sprintf_loop
    short_turn fuel room c enough some_text more =
        let (c', s) = buffer fits room c in
        rw
          (
            sprintf_loop,
            enough,
            formats (size c' s),
            some_text,
            more,
            formats (size c' s),
            next_lem,
          )
          refl

    -- For a text of less than 2^31 - 1 bytes, and of less than 2^62 together with the offset,
    -- where `snprintf` returns the length of the text and writes what fits with a zero behind it,
    -- and strings of 2^63 bytes or more cannot be had, the loop of `sprintf` ends within two
    -- turns: it returns the length and has added the text, or it returns -1 and has kept the text,
    -- the latter only where the text reaches beyond the buffer of the context and a string of some
    -- length that is at most 513 more than the offset and the text cannot be had.
    pub sprintf-ends :
        (c : Context)
        → IsValid c
        → c.offset + length txt + 1 < 2 ^ 62
        → (end : ℤ × Context) × (sprintf fits snprintf 2 c ≡ some end) × Prints c end
    unfolding sprintf_loop
    sprintf-ends c v h =
        let r = buffer-Room fits fits-small 0 c v (omega arith) in
        let (c', s) = buffer fits 0 c in
        let n = size c' s in
        let enough : ltb n 0 ≡ false = ground arith in
        let out = printed txt n in
        let done = copy_to c' s out in
        let stays : c'.offset < 2 ^ 64 = omega (arith, r.same_offset) in
        let same : expend 0 done ≡ done =
          expend-zero done (omega (arith, offset-copy_to c' s out)) in
        let first : IsValid (expend 0 done) × (text (expend 0 done) ≡ text c ++ []) =
          store-text fits fits-small 0 r out 0 (length-printed txt n) (omega arith) (omega arith)
            (beyond fits 0 r) (omega arith) in
        let valid : IsValid done = subst IsValid same first.0 in
        let unchanged : text done ≡ text c =
          subst (λ d. text d ≡ text c ++ []) same first.1 ∙ append_nil (text c) in
        let at : done.offset ≡ c.offset = offset-copy_to c' s out ∙ r.same_offset in
        elim (Bool-cases (leb (length txt) 0)) [
          | inl empty ↦
              let none_left : txt ≡ [] = length-zero txt (ground arith) in
              (
                (pos (length txt), done),
                rw (sprintf_loop, enough, formats n, empty, formats n) refl,
                (
                  valid,
                  inl (
                    refl,
                    unchanged ∙ sym (ap (λ ys. text c ++ ys) none_left ∙ append_nil (text c)),
                  ),
                ),
              )
          | inr some_text ↦ elim (Bool-cases (ltb (length txt) n)) [
            | inl fit ↦
                let wide = widen fits (length txt) r (ltb→lt _ _ fit) in
                let (valid', written) =
                  store-text fits fits-small (length txt) wide out (length txt)
                    (length-printed txt n) (room-printed txt n (ltb→lt _ _ fit)) (omega arith)
                    (beyond fits (length txt) wide) (omega arith) in
                (
                  (pos (length txt), expend (length txt) done),
                  rw (sprintf_loop, enough, formats n, some_text, fit, formats n) refl,
                  (
                    valid',
                    inl (
                      refl,
                      written ∙ ap (λ ys. text c ++ ys) (take-printed txt n (ltb→lt _ _ fit)),
                    ),
                  ),
                )
            | inr more ↦
                let (end, e, p) =
                  last_turn done valid (ground arith)
                    (omega (arith, at, passed_end r (ltb→ge _ _ more))) (omega (arith, at)) in
                (
                  end,
                  short_turn 1 0 c enough some_text more ∙ e,
                  same_Prints done c end unchanged at p,
                )
          ]
        ]
