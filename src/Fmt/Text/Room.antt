-- ===== src/Fmt/Text/Room.antt =====
-- src/libipc/imp/fmt.cpp: the span that `buffer` returns, and a text that is written to it.
use cpp_ipc.Prelude.{
  ℕ, ◌+◌, ◌*◌, ◌/◌, ◌^◌, ◌≤◌, ◌<◌, ◌≡◌, refl, sym, ap, ◌∙◌, arith, Bool, true, false, List, ◌++◌,
  ltb, leb, length, take, drop, Bool-cases, inl, inr, length-append, length-take, length-drop,
  take-append_left, take_add, tests, append_nil, ltb→lt, drop-append_add,
}
use cpp_ipc.Ipc.Chunks.{u64}
use cpp_ipc.Fmt.{
  Context, Span, nowhere, in_sbuf, in_joined, sbuf_size, size, copy_to, overwrite, roundup, grow,
  buffer, expend,
}
use cpp_ipc.Fmt.Text.{
  text, IsValid, roundup_lem, length-resize, take-resize, take-append_le, take-take,
}

pub length-overwrite :
    (at : ℕ) (xs ys : List ℕ) → at + length xs ≤ length ys → length (overwrite at xs ys) ≡ length ys
unfolding overwrite
length-overwrite at xs ys h =
    rw (length-append, length-append)
      (omega (arith, length-take at ys, length-drop (at + length xs) ys))

pub take-overwrite :
    (at n : ℕ) (xs ys : List ℕ)
    → at + length xs ≤ length ys
    → n ≤ length xs
    → take (at + n) (overwrite at xs ys) ≡ take at ys ++ take n xs
unfolding overwrite
take-overwrite at n xs ys h l =
    let front : at ≡ length (take at ys) = omega (arith, length-take at ys) in
    let rest = xs ++ drop (at + length xs) ys in
    take_add (take at ys ++ rest) at n
    ∙ ap (λ zs. zs ++ take n (drop at (take at ys ++ rest)))
        (take-append_left (take at ys) rest at front)
    ∙ ap (λ zs. take at ys ++ take n zs)
        (ap (λ k. drop k (take at ys ++ rest)) (omega arith)
          ∙ drop-append_add (take at ys) rest at 0 front)
    ∙ ap (λ zs. take at ys ++ zs) (take-append_le n xs (drop (at + length xs) ys) l)

module _ (fits : ℕ → Bool) where
  -- A string of some length up to `most` cannot be had.
  abbrev pub Full : (most : ℕ) → Type 0
  Full most = (n : ℕ) × (n ≤ most) × (fits n ≡ false)

  -- What a span of `buffer` promises for `sz` bytes.
  abbrev pub Ready : ℕ → Context → Span → Type 0
  Ready sz c nowhere = (sbuf_size ≤ c.offset + sz) × Full (c.offset + sz + 512)
  Ready sz c in_sbuf = c.offset + sz < sbuf_size
  Ready sz c in_joined =
      (sbuf_size ≤ c.offset + sz)
      × (c.offset + sz < length c.joined)
      × (take c.offset c.joined ≡ text c)

  pub record Room (sz : ℕ) (c c' : Context) (s : Span) : Type 0 where
    pub valid : IsValid c'
    pub same_text : text c' ≡ text c
    pub same_offset : c'.offset ≡ c.offset
    pub ready : Ready sz c' s

  module _ (fits-small : (n : ℕ) → fits n ≡ true → n < 2 ^ 63) where
    grow-Room :
        (sz : ℕ) (c : Context)
        → IsValid c
        → c.offset + sz < 2 ^ 62
        → sbuf_size ≤ c.offset + sz
        → c.offset ≤ length c.joined
        → take c.offset c.joined ≡ text c
        → let (c', s) = grow fits sz c in Room sz c c' s
    unfolding grow
    grow-Room sz c v h l in_string e =
        let n : ℕ = roundup (u64 (c.offset + sz)) in
        let room : n ≡ (c.offset + sz) / 512 * 512 + 512 =
          ap roundup (omega arith) ∙ roundup_lem (c.offset + sz) (omega arith) in
        elim (Bool-cases (fits n)) [
          | inl ok ↦
              rw ok (ground (arith, length-resize n c.joined, take-resize c.offset n c.joined))
          | inr full ↦ rw full (record {
            valid = v;
            same_text = refl;
            same_offset = refl;
            ready = (l, (n, omega (arith, room), full));
          })
        ]

    -- With less than 2^62 bytes `buffer` keeps the text and returns a span for more than the bytes asked for,
    -- in the string where the text with them is not shorter than the buffer.
    pub buffer-Room :
        (sz : ℕ) (c : Context)
        → IsValid c
        → c.offset + sz < 2 ^ 62
        → let (c', s) = buffer fits sz c in Room sz c c' s
    unfolding buffer
    buffer-Room sz c v h =
        let same : u64 (c.offset + sz) ≡ c.offset + sz = omega arith in
        elim (Bool-cases (ltb c.offset sbuf_size)) [
          | inl short ↦ elim (Bool-cases (ltb (c.offset + sz) sbuf_size)) [
            | inl fit ↦
                rw (short, same, fit)
                  (record {
                    valid = v;
                    same_text = refl;
                    same_offset = refl;
                    ready = ltb→lt _ _ fit;
                  })
            | inr more ↦ elim (Bool-cases (fits c.offset)) [
              | inl ok ↦
                  rw (short, same, more, ok)
                    (let c1 = record c { joined = take c.offset c.sbuf } in
                      let valid : IsValid c1 = record {
                        whole = v.whole;
                        within = λ l. absurd (ground arith);
                        small = omega (arith, v.whole, length-take c.offset c.sbuf);
                      } in
                      let r =
                        grow-Room sz c1 valid h (ground arith)
                          (omega (tests, short, v.whole, length-take c.offset c.sbuf))
                          (rw short (take-take c.offset c.offset c.sbuf (omega arith))) in
                      record {
                        valid = r.valid;
                        same_text = r.same_text ∙ rw short refl;
                        same_offset = r.same_offset;
                        ready = r.ready;
                      })
              | inr full ↦
                  rw (short, same, more, full)
                    (record {
                      valid = v;
                      same_text = refl;
                      same_offset = refl;
                      ready = (ground arith, (c.offset, omega arith, full));
                    })
            ]
          ]
          | inr long ↦ elim (Bool-cases (leb (length c.joined) (c.offset + sz))) [
            | inl more ↦
                rw (long, same, more)
                  (grow-Room sz c v h (ground arith) (v.within (ground arith)) (rw long refl))
            | inr fit ↦
                rw (long, same, fit)
                  (record {
                    valid = v;
                    same_text = refl;
                    same_offset = refl;
                    ready = (ground arith, ground arith, rw long refl);
                  })
          ]
        ]

    -- What is written to the span of `buffer` follows the text once the offset has moved on.
    pub store-text :
        (sz : ℕ) {c c' : Context} {s : Span}
        → Room sz c c' s
        → (xs : List ℕ) (n : ℕ) → length xs ≤ size c' s
        → n ≤ length xs
        → n ≤ sz
        → ((s ≡ in_joined) → sbuf_size ≤ c.offset + n)
        → c.offset + sz < 2 ^ 62
        → IsValid (expend n (copy_to c' s xs))
          × (text (expend n (copy_to c' s xs)) ≡ text c ++ take n xs)
    unfolding size copy_to
    store-text sz {c} {c'} {s = nowhere} r xs n fit le less far h =
        let none_written : n ≡ 0 = omega arith in
        let off : u64 (c'.offset + n) ≡ c'.offset = omega (arith, r.same_offset) in
        rw off (
          r.valid,
          r.same_text ∙ sym (ap (λ k. text c ++ take k xs) none_written ∙ append_nil (text c)),
        )
    store-text sz {c} {c'} {s = in_sbuf} r xs n fit le less far h =
        let off : u64 (c'.offset + n) ≡ c'.offset + n = omega (arith, r.same_offset) in
        let here : ltb c'.offset sbuf_size ≡ true = ground (arith, r.ready) in
        let short : ltb (c'.offset + n) sbuf_size ≡ true = ground (arith, r.ready) in
        let inside : c'.offset + length xs ≤ length c'.sbuf =
          omega (arith, r.valid.whole, r.ready) in
        rw (off, short)
          (
            record {
              whole = length-overwrite c'.offset xs c'.sbuf inside ∙ r.valid.whole;
              within = λ l. absurd (omega tests);
              small = r.valid.small;
            },
            take-overwrite c'.offset n xs c'.sbuf inside le
                ∙ ap (λ ys. ys ++ take n xs) (rw here refl ∙ r.same_text),
          )
    store-text sz {c} {c'} {s = in_joined} r xs n fit le less far h =
        let off : u64 (c'.offset + n) ≡ c'.offset + n = omega (arith, r.same_offset) in
        let long : ltb (c'.offset + n) sbuf_size ≡ false =
          ground (arith, far refl, r.same_offset) in
        let inside : c'.offset + length xs ≤ length c'.joined = omega (arith, r.ready.1) in
        let same = length-overwrite c'.offset xs c'.joined inside in
        rw (off, long)
          (
            record {
              whole = r.valid.whole;
              within = λ l. omega (arith, same);
              small = omega (arith, same, r.valid.small);
            },
            take-overwrite c'.offset n xs c'.joined inside le
                ∙ ap (λ ys. ys ++ take n xs) (r.ready.2 ∙ r.same_text),
          )

  pub refused :
      (sz : ℕ) {c c' : Context} {s : Span}
      → Room sz c c' s
      → size c' s < sz
      → (sbuf_size ≤ c.offset + sz) × Full (c.offset + sz + 512)
  unfolding size
  refused sz {s = nowhere} r h =
      let (n, le, full) = r.ready.1 in
      (omega (arith, r.same_offset, r.ready.0), (n, omega (arith, r.same_offset), full))
  refused sz {s = in_sbuf} r h = absurd (omega (arith, r.ready, r.valid.whole))
  refused sz {s = in_joined} r h = absurd (omega (arith, r.ready.1))

  pub beyond :
      (sz : ℕ) {c c' : Context} {s : Span}
      → Room sz c c' s
      → s ≡ in_joined
      → sbuf_size ≤ c.offset + sz
  beyond sz {s = nowhere} r e = cc e
  beyond sz {s = in_sbuf} r e = cc e
  beyond sz {s = in_joined} r e = omega (arith, r.same_offset, r.ready.0)

  -- A span with room for more serves for more.
  pub widen : (k : ℕ) {c c' : Context} {s : Span} → Room 0 c c' s → k < size c' s → Room k c c' s
  unfolding size
  widen k {s = nowhere} r h = elim h [ ]
  widen k {s = in_sbuf} r h = record {
    valid = r.valid;
    same_text = r.same_text;
    same_offset = r.same_offset;
    ready = omega (arith, r.valid.whole);
  }
  widen k {s = in_joined} r h = record {
    valid = r.valid;
    same_text = r.same_text;
    same_offset = r.same_offset;
    ready = (omega (arith, r.ready.0), omega arith, r.ready.2);
  }

pub offset-copy_to : (c : Context) (s : Span) (xs : List ℕ) → (copy_to c s xs).offset ≡ c.offset
unfolding copy_to
offset-copy_to c nowhere xs = refl
offset-copy_to c in_sbuf xs = refl
offset-copy_to c in_joined xs = refl
