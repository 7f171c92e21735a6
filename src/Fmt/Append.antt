-- ===== src/Fmt/Append.antt =====
-- src/libipc/imp/fmt.cpp: `append` and `finish` against the text.
use cpp_ipc.Prelude.{
  ℕ, ◌+◌, ◌^◌, ◌≤◌, ◌<◌, ◌≡◌, refl, sym, ap, ◌∙◌, arith, Bool, true, false, List, [], ◌∷◌, ◌++◌,
  ltb, length, Bool-cases, inl, inr, length-take, take_all, tests, ltb→lt, ltb→ge, append_nil,
}
use cpp_ipc.Fmt.{Context, sbuf_size, size, normalize, resize, buffer, append, finish}
use cpp_ipc.Fmt.Text.{text, IsValid, length-resize, take-resize}
use cpp_ipc.Fmt.Text.Room.{Full, buffer-Room, store-text, refused, beyond}

pub length-normalize : (xs : List ℕ) → length (normalize xs) ≤ length xs
unfolding normalize
length-normalize [] = omega arith
length-normalize (a ∷ []) = ground arith
length-normalize (a ∷ b ∷ xs) = omega (arith, length-normalize (b ∷ xs))

module _ (fits : ℕ → Bool) where
  -- How a call that was to add `xs` to the text of `c` ended.
  abbrev pub Adds : List ℕ → Context → Context × Bool → Type 0
  Adds xs c (c', true) = IsValid c' × (text c' ≡ text c ++ xs)
  Adds xs c (c', false) =
      IsValid c'
      × (text c' ≡ text c)
      × (sbuf_size ≤ c.offset + length xs)
      × Full fits (c.offset + length xs + 512)

  module _ (fits-small : (n : ℕ) → fits n ≡ true → n < 2 ^ 63) where
    pub append-Adds :
        (str : List ℕ) (c : Context)
        → IsValid c
        → c.offset + length str < 2 ^ 62
        → Adds (normalize str) c (append fits str c)
    unfolding append normalize
    append-Adds [] c v h = (v, sym (append_nil (text c)))
    append-Adds (x ∷ xs) c v h =
        let str = normalize (x ∷ xs) in
        let sz = length str in
        let less : sz ≤ length (x ∷ xs) = length-normalize (x ∷ xs) in
        let r = buffer-Room fits fits-small sz c v (omega arith) in
        let (c', s) = buffer fits sz c in
        elim (Bool-cases (ltb (size c' s) sz)) [
          | inl none_left ↦
              let why = refused fits sz r (ltb→lt _ _ none_left) in
              rw none_left (r.valid, r.same_text, why.0, why.1)
          | inr room ↦ rw room (
              let (valid, written) =
                store-text fits fits-small sz r str sz (ltb→ge _ _ room) (omega arith) (omega arith)
                  (beyond fits sz r) (omega arith) in
              (valid, written ∙ ap (λ ys. text c ++ ys) (take_all str sz (omega arith))))
        ]

pub finish-text :
    (fits : ℕ → Bool) (c : Context)
    → IsValid c
    → c.offset < 2 ^ 62
    → let (c', done) = finish fits c in
      (done ≡ fits c.offset)
      × (done ≡ true → (c'.joined ≡ text c) × (c'.offset ≡ c.offset) × IsValid c')
unfolding finish
finish-text fits c v h = elim (Bool-cases (ltb c.offset sbuf_size)) [
  | inl short ↦ elim (Bool-cases (fits c.offset)) [
    | inl ok ↦
        rw (short, ok)
          (
            refl,
            λ _. (
              refl,
              refl,
              record {
                whole = v.whole;
                within = λ l. absurd (omega tests);
                small = omega (arith, length-take c.offset c.sbuf, v.whole);
              },
            ),
          )
    | inr full ↦ rw (short, full) (refl, λ e. cc e)
  ]
  | inr long ↦ elim (Bool-cases (fits c.offset)) [
    | inl ok ↦
        rw (long, ok)
          (
            refl,
            λ _. (
              sym (
                    take_all (resize c.offset c.joined) c.offset
                      (omega (arith, length-resize c.offset c.joined)))
                  ∙ take-resize c.offset c.offset c.joined (omega arith) (v.within (ground arith)),
              refl,
              record {
                whole = v.whole;
                within = λ l. omega (arith, length-resize c.offset c.joined);
                small = omega (arith, length-resize c.offset c.joined);
              },
            ),
          )
    | inr full ↦ rw (long, full) (refl, λ e. cc e)
  ]
]
