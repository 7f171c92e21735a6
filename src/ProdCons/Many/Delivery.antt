-- ===== src/ProdCons/Many/Delivery.antt =====
-- src/libipc/prod_cons.h: what is pushed is what a receiver at that index pops, once.
use cpp_ipc.Prelude.{
  ℕ, ◌+◌, ◌≡◌, refl, arith, bit_and, Bool, true, not, ◌&&◌, some, ◌==◌, Bool-cases, inl, inr, ap,
  ◌∙◌,
}
use cpp_ipc.Prelude.Bits.{bit_not}
use cpp_ipc.Circ.{u32, index_of}
use cpp_ipc.Circ.Broadcast
use cpp_ipc.ProdCons.Many.{
  Elem, Channel, write, push, force_push, pop, rc_mask, inc_rc, ep_mask, ep_incr, u64,
}

module _ {ℓ} {A : Type ℓ} where
  -- A receiver whose index the element's flag names pops the element.
  pop-flagged :
      (id cur : ℕ) (ch : Channel A)
      → ((ch.block (index_of cur)).flag == bit_not 64 cur) ≡ true
      → (last : Bool) × ((pop id cur ch).0 ≡ some ((ch.block (index_of cur)).item, last))
        × ((pop id cur ch).1 ≡ u32 (cur + 1))
  unfolding pop
  pop-flagged id cur ch e = elim (Bool-cases (bit_and (ch.block (index_of cur)).rc rc_mask == 0)) [
    | inl none_left ↦ (true, rw (e, none_left), rw (e, none_left))
    | inr some_left ↦
        let nxt_rc : ℕ = bit_and (inc_rc (ch.block (index_of cur)).rc) (bit_not 64 id) in
        (bit_and nxt_rc rc_mask == 0, rw (e, some_left), rw (e, some_left))
  ]

  written_item :
      (x : A) (cc : ℕ) (ch : Channel A) → ((write x cc ch).block (index_of ch.ct)).item ≡ x
  written_item x cc' ch =
      let same : (index_of ch.ct == index_of ch.ct) ≡ true = ground arith in rw same

  written_flag :
      (x : A) (cc : ℕ) (ch : Channel A)
      → (((write x cc ch).block (index_of ch.ct)).flag == bit_not 64 ch.ct) ≡ true
  written_flag x cc' ch =
      let same : (index_of ch.ct == index_of ch.ct) ≡ true = ground arith in rw same (ground arith)

  pop-write :
      (x : A) (cc id : ℕ) (ch : Channel A)
      → (last : Bool) × ((pop id ch.ct (write x cc ch)).0 ≡ some (x, last))
        × ((pop id ch.ct (write x cc ch)).1 ≡ u32 (ch.ct + 1))
  pop-write x cc' id ch =
      let flag : (((write x cc' ch).block (index_of ch.ct)).flag == bit_not 64 ch.ct) ≡ true =
        written_flag x cc' ch in
      let (last, got, next) = pop-flagged id ch.ct (write x cc' ch) flag in
      (last, got ∙ ap (λ y. some (y, last)) (written_item x cc' ch), next)

  pushed : (x : A) (ch : Channel A) → (push x ch).0 ≡ true → push x ch ≡ (true, write x ch.cc ch)
  unfolding push
  pushed x ch ok =
      let el : Elem A = ch.block (index_of ch.ct) in
      let rem_cc : ℕ = u32 (bit_and el.rc rc_mask) in
      elim (Bool-cases (ch.cc == 0)) [
        | inl a ↦ cc (rw a at ok)
        | inr a ↦
            elim (Bool-cases
              (not (bit_and ch.cc rem_cc == 0) && bit_and el.rc (bit_not 64 ep_mask) == ch.epoch)) [
                | inl b ↦ cc (rw (a, b) at ok)
                | inr b ↦
                    elim (Bool-cases
                      (rem_cc == 0 && (not (el.flag == ch.ct) && not (el.flag == 0)))) [
                        | inl c ↦ cc (rw (a, b, c) at ok)
                        | inr c ↦ rw (a, b, c)
                      ]
              ]
      ]

  forced :
      (x : A) (ch : Channel A)
      → (force_push x ch).0 ≡ true
      → (cc : ℕ) × (ch' : Channel A) × (ch'.ct ≡ ch.ct) × (force_push x ch ≡ (true, write x cc ch'))
  unfolding force_push
  forced x ch ok =
      let next : Channel A = record ch { epoch = u64 (ch.epoch + ep_incr) } in
      let rem_cc : ℕ = u32 (bit_and (ch.block (index_of ch.ct)).rc rc_mask) in
      let left : ℕ = Broadcast.disconnect ch.cc rem_cc in
      elim (Bool-cases (ch.cc == 0)) [
        | inl a ↦ cc (rw a at ok)
        | inr a ↦ elim (Bool-cases (bit_and ch.cc rem_cc == 0)) [
          | inl b ↦ (ch.cc, next, refl, rw (a, b))
          | inr b ↦ elim (Bool-cases (left == 0)) [
            | inl c ↦ cc (rw (a, b, c) at ok)
            | inr c ↦ (left, record next { cc = left }, refl, rw (a, b, c))
          ]
        ]
      ]

  -- With many producers and broadcast, after a `push` that succeeds a receiver whose cursor is
  -- where the commit index was pops the item and moves on by one.
  pub pop-push :
      (x : A) (id : ℕ) (ch : Channel A)
      → (push x ch).0 ≡ true
      → (last : Bool) × ((pop id ch.ct (push x ch).1).0 ≡ some (x, last))
        × ((pop id ch.ct (push x ch).1).1 ≡ u32 (ch.ct + 1))
  pop-push x id ch ok = rw (pushed x ch ok) (pop-write x ch.cc id ch)

  -- With many producers and broadcast, after a `force_push` that succeeds a receiver whose cursor
  -- is where the commit index was pops the item and moves on by one.
  pub pop-force_push :
      (x : A) (id : ℕ) (ch : Channel A)
      → (force_push x ch).0 ≡ true
      → (last : Bool) × ((pop id ch.ct (force_push x ch).1).0 ≡ some (x, last))
        × ((pop id ch.ct (force_push x ch).1).1 ≡ u32 (ch.ct + 1))
  pop-force_push x id ch ok =
      let (c, ch', same, done) = forced x ch ok in rw (done, ← same) (pop-write x c id ch')
