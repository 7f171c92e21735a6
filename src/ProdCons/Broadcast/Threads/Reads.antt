-- ===== src/ProdCons/Broadcast/Threads/Reads.antt =====
-- src/libipc/prod_cons.h: what a receiver's accesses to the broadcast ring give it, and leave the others.
use mathlib.Core.Path.{subst}
use mathlib.Core.List.{append-nil}
use cpp_ipc.Prelude.{
  ℕ, ◌+◌, ◌^◌, ◌<◌, ◌≡◌, ◌≢◌, refl, some, List, [], ◌∷◌, ◌++◌, arith, length, bit_and,
  length-append, get_elem?-append_left, get_elem?-append_last, ap, ◌∙◌, sym, dec_lt, ℕ_discrete,
}
use cpp_ipc.Prelude.Bits.{bit_not}
use cpp_ipc.Circ.{u32, index_of}
use cpp_ipc.ProdCons.{store_self, store_ne}
use cpp_ipc.ProdCons.Broadcast.{Elem}
use cpp_ipc.ProdCons.Broadcast.Counter.{Awaits, clear-Awaits, clear-fits}
use cpp_ipc.ProdCons.Broadcast.Threads.{
  Memory, Producer, called, loaded, marking, writing, written, Receiver, ready, seen, elem,
  write_elem, Pop,
}
use cpp_ipc.ProdCons.Broadcast.Threads.Follows.{
  IsMemory, Producing, at, Local, Follows, awaited_low,
}
use cpp_ipc.ProdCons.Broadcast.Threads.Steps.{written-IsMemory}

module _ {ℓ} {A : Type ℓ} where
  -- The counter of an element is cleared at the bit of the receiver `k`.
  abbrev pub cleared : Memory A → ℕ → ℕ → Memory A
  cleared m k c =
      write_elem m c
        (record { item = (elem m c).item; rc = bit_and (elem m c).rc (bit_not 64 (2 ^ k)) })

  cleared-item : (m : Memory A) (k c j : ℕ) → (elem (cleared m k c) j).item ≡ (elem m j).item
  cleared-item m k c j =
      let e : Elem A = record {
        item = (elem m c).item;
        rc = bit_and (elem m c).rc (bit_not 64 (2 ^ k));
      } in
      elim (ℕ_discrete (index_of c) (index_of j)) [
        | yes same ↦
            ap (λ (a : Elem A). a.item) (store_self m.block e same)
            ∙ ap (λ i. (m.block i).item) same
        | no other ↦ ap (λ (a : Elem A). a.item) (store_ne m.block e other)
      ]

  cleared-Awaits :
      (m : Memory A) (i k c j : ℕ)
      → i < 32
      → k < 32
      → k ≢ i
      → Awaits m.epoch k (elem m j).rc
      → Awaits m.epoch k (elem (cleared m i c) j).rc
  cleared-Awaits m i k c j hi hk ne a =
      let e : Elem A = record {
        item = (elem m c).item;
        rc = bit_and (elem m c).rc (bit_not 64 (2 ^ i));
      } in
      elim (ℕ_discrete (index_of c) (index_of j)) [
        | yes same ↦ rw (store_self m.block e same) (
            clear-Awaits m.epoch k i (elem m c).rc hi hk ne
              (subst (λ s. Awaits m.epoch k (m.block s).rc) (sym same) a))
        | no other ↦ rw (store_ne m.block e other) a
      ]

  cleared-Producing :
      (m : Memory A) (k c : ℕ) (p : Producer A) → Producing m p → Producing (cleared m k c) p
  cleared-Producing m k c Producer.idle h = h
  cleared-Producing m k c (called x) h = h
  cleared-Producing m k c (loaded x cc rc) h = h
  cleared-Producing m k c (marking x cc rc) h = h
  cleared-Producing m k c (writing x) h = h
  cleared-Producing m k c (written x) h = cleared-item m k c m.wt ∙ h

  -- Another receiver clears its bit.
  other-Follows :
      (m : Memory A) (p : Producer A) (i k c : ℕ) (d : Receiver A) (got : List A)
      → i < 32
      → k < 32
      → k ≢ i
      → Follows m p k d got
      → Follows (cleared m i c) p k d got
  other-Follows m p i k c d got hi hk ne f = record {
    given = f.given;
    behind = f.behind;
    bounded = f.bounded;
    agree = f.agree;
    unread = λ j lo hi_j. cleared-Awaits m i k c j hi hk ne (f.unread j lo hi_j);
    stored = λ j lo hi_j. f.stored j lo hi_j ∙ ap some (sym (cleared-item m i c j));
    knows = f.knows;
  }

  pub Pop-others :
      (i : ℕ) {m : Memory A} {r : Receiver A} {m' : Memory A} {r' : Receiver A} {xs : List A}
      → Pop i m r m' r' xs
      → i < 32
      → (p : Producer A) (k : ℕ) (d : Receiver A) (got : List A) → k < 32
      → k ≢ i
      → Follows m p k d got
      → Follows m' p k d got
  Pop-others i (Pop.empty e) hi p k d got hk ne f = f
  Pop-others i (Pop.enter e) hi p k d got hk ne f = f
  Pop-others i Pop.read hi p k d got hk ne f = f
  Pop-others i Pop.load_rc hi p k d got hk ne f = f
  Pop-others i (Pop.all_read z) hi p k d got hk ne f = f
  Pop-others i {m} (Pop.clear {cur} z same) hi p k d got hk ne f =
      rw (sym same) (other-Follows m p i k cur d got hi hk ne f)
  Pop-others i Pop.retry hi p k d got hk ne f = f

  -- A receiver is given its element, and its bit is cleared.
  cleared-Follows :
      (m : Memory A) (p : Producer A) (k c : ℕ) (x : A) (rc : ℕ) (got : List A)
      → IsMemory m
      → length m.sent < 2 ^ 32
      → Follows m p k (seen c x rc) got
      → Follows (cleared m k c) p k (ready (u32 (c + 1))) (got ++ (x ∷ []))
  cleared-Follows m p k c x rc got i l f =
      let e : Elem A = record {
        item = (elem m c).item;
        rc = bit_and (elem m c).rc (bit_not 64 (2 ^ k));
      } in
      let below : c < m.wt = f.knows.0 in
      let fits : u32 (c + 1) ≡ c + 1 = omega (arith, i.wt_eq) in
      rw fits (record {
        given = omega (arith, length-append got (x ∷ []), f.given);
        behind = omega arith;
        bounded = omega (arith, f.bounded);
        agree = λ j lt. elim (dec_lt j c) [
          | yes old ↦ get_elem?-append_left got (x ∷ []) j (omega (arith, f.given)) ∙ f.agree j old
          | no last ↦
              let here : j ≡ c = omega arith in
              rw here (get_elem?-append_last got x c f.given ∙ sym f.knows.1)
        ];
        unread = λ j lo hi.
            rw (store_ne m.block e {i = index_of c} {j = index_of j} (omega (arith, f.bounded)))
              (f.unread j (omega arith) hi);
        stored = λ j lo hi. f.stored j (omega arith) hi ∙ ap some (sym (cleared-item m k c j));
        knows = tt;
      })

  -- A receiver gets on without being given an element.
  going_on :
      {m : Memory A} {p : Producer A} {k : ℕ} {r r' : Receiver A} {got : List A}
      → at r' ≡ at r
      → Local m.wt m.sent r'
      → Follows m p k r got
      → Follows m p k r' (got ++ [])
  going_on {got = got} same knows f = rw (append-nil got) (record {
    given = same ∙ f.given;
    behind = omega (arith, f.behind);
    bounded = omega (arith, f.bounded);
    agree = λ j lt. f.agree j (omega arith);
    unread = λ j lo hi. f.unread j (omega arith) hi;
    stored = λ j lo hi. f.stored j (omega arith) hi;
    knows = knows;
  })

  pub Pop-own :
      (k : ℕ) {m : Memory A} {r : Receiver A} {m' : Memory A} {r' : Receiver A} {xs : List A}
      → Pop k m r m' r' xs
      → IsMemory m
      → length m.sent < 2 ^ 32
      → (p : Producer A) (got : List A) → Follows m p k r got
      → Follows m' p k r' (got ++ xs)
  Pop-own k (Pop.empty e) i l p got f = going_on refl tt f
  Pop-own k {m} (Pop.enter ne) i l p got f = going_on refl (omega (arith, f.behind), tt) f
  Pop-own k {m} (Pop.read {cur}) i l p got f =
      going_on refl (f.knows.0, f.stored cur (omega arith) f.knows.0) f
  Pop-own k {m} (Pop.load_rc {cur}) i l p got f =
      going_on refl
        (
          f.knows.0,
          f.knows.1,
          awaited_low m.epoch k (elem m cur).rc
              (f.unread cur (omega arith) (omega (arith, f.knows.0))),
        )
        f
  Pop-own k (Pop.all_read z) i l p got f = absurd (f.knows.2 z)
  Pop-own k {m} (Pop.clear {cur} {x} {rc} ne same) i l p got f =
      rw (sym same) (cleared-Follows m p k cur x rc got i l f)
  Pop-own k Pop.retry i l p got f = going_on refl (f.knows.0, f.knows.1) f

  pub Pop-IsMemory :
      (k : ℕ) {m : Memory A} {r : Receiver A} {m' : Memory A} {r' : Receiver A} {xs : List A}
      → Pop k m r m' r' xs
      → IsMemory m
      → (p : Producer A) → Producing m p
      → IsMemory m' × Producing m' p × (m'.cc ≡ m.cc) × (m'.sent ≡ m.sent)
  Pop-IsMemory k (Pop.empty e) i p h = (i, h, refl, refl)
  Pop-IsMemory k (Pop.enter ne) i p h = (i, h, refl, refl)
  Pop-IsMemory k Pop.read i p h = (i, h, refl, refl)
  Pop-IsMemory k Pop.load_rc i p h = (i, h, refl, refl)
  Pop-IsMemory k (Pop.all_read z) i p h = (i, h, refl, refl)
  Pop-IsMemory k {m} (Pop.clear {cur} {x} {rc} ne same) i p h = rw (sym same) (
    written-IsMemory m i cur
        (record { item = (elem m cur).item; rc = bit_and (elem m cur).rc (bit_not 64 (2 ^ k)) })
        (clear-fits (elem m cur).rc (2 ^ k) (i.rc_fits (index_of cur))),
    cleared-Producing m k cur p h,
    refl,
    refl,
  )
  Pop-IsMemory k Pop.retry i p h = (i, h, refl, refl)
