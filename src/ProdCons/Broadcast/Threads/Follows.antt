-- ===== src/ProdCons/Broadcast/Threads/Follows.antt =====
-- src/libipc/prod_cons.h: what a receiver of the broadcast ring may rely on while it has yet to read.
use mathlib.Core.Path.{subst}
use cpp_ipc.Prelude.{
  ℕ, ◌+◌, ◌^◌, ◌%◌, ◌≤◌, ◌<◌, ◌≡◌, ◌≢◌, some, List, arith, length, get_elem?, bit_and, bit_or, ap,
  ◌∙◌, sym, dec_lt,
}
use cpp_ipc.Prelude.Bits.{bit, ne_zero_of_bit, bit-bit_and}
use cpp_ipc.Circ.{u32, index_of}
use cpp_ipc.ProdCons.{store_self, store_ne}
use cpp_ipc.ProdCons.Broadcast.{Elem, ep_mask}
use cpp_ipc.ProdCons.Broadcast.Counter.{Awaits, marked-Awaits, rc_low, rc_high, unread_of}
use cpp_ipc.ProdCons.Broadcast.Threads.{
  Memory, Producer, called, loaded, marking, writing, written, Receiver, ready, reading, has, seen,
  elem, write_elem, Busy,
}

pub awaited_low : (e k rc : ℕ) → Awaits e k rc → bit_and rc ep_mask ≢ 0
awaited_low e k rc a z = ne_zero_of_bit k (unread_of rc) a.pending (sym (rc_low rc) ∙ z)

pub awaited-Busy : (e cc k rc : ℕ) → bit cc k ≡ 1 → Awaits e k rc → Busy cc rc e
awaited-Busy e cc k rc on a =
    let low : u32 (bit_and rc ep_mask) ≡ unread_of rc = omega (arith, rc_low rc) in
    let pending : bit (bit_and cc (unread_of rc)) k ≡ 1 =
      omega (arith, bit-bit_and k cc (unread_of rc), a.pending) in
    (rw low (ne_zero_of_bit k (bit_and cc (unread_of rc)) pending), rc_high rc a.fits ∙ a.epoch)

module _ {ℓ} {A : Type ℓ} where
  -- The elements that have their counter and are not published.
  abbrev pub marked : Producer A → ℕ
  marked Producer.idle = 0
  marked (called x) = 0
  marked (loaded x cc rc) = 0
  marked (marking x cc rc) = 0
  marked (writing x) = 1
  marked (written x) = 1

  pub record IsMemory (m : Memory A) : Type ℓ where
    pub wt_eq : m.wt ≡ length m.sent
    pub epoch_fits : m.epoch < 2 ^ 64
    pub epoch_whole : m.epoch % 2 ^ 32 ≡ 0
    pub cc_fits : m.cc < 2 ^ 32
    pub rc_fits : (i : ℕ) → (m.block i).rc < 2 ^ 64

  abbrev pub Producing : Memory A → Producer A → Type ℓ
  Producing m Producer.idle = Unit
  Producing m (called x) = Unit
  Producing m (loaded x cc rc) = (cc ≡ m.cc) × Unit {ℓ}
  Producing m (marking x cc rc) = (cc ≡ m.cc) × (Busy cc rc m.epoch → ⊥) × Unit {ℓ}
  Producing m (writing x) = Unit
  Producing m (written x) = (elem m m.wt).item ≡ x

  -- The index of the element that a receiver reads next, or is reading.
  abbrev pub at : Receiver A → ℕ
  at (ready cur) = cur
  at (reading cur) = cur
  at (has cur x) = cur
  at (seen cur x rc) = cur

  abbrev pub Local : ℕ → List A → Receiver A → Type ℓ
  Local wt sent (ready cur) = Unit
  Local wt sent (reading cur) = (cur < wt) × Unit {ℓ}
  Local wt sent (has cur x) = (cur < wt) × (get_elem? sent cur ≡ some x)
  Local wt sent (seen cur x rc) =
      (cur < wt) × (get_elem? sent cur ≡ some x) × (bit_and rc ep_mask ≢ 0)

  -- What the receiver `k` was given comes first, and the rest waits for it.
  pub record Follows (m : Memory A) (p : Producer A) (k : ℕ) (r : Receiver A) (got : List A)
      : Type ℓ where
    pub given : at r ≡ length got
    pub behind : at r ≤ m.wt
    pub bounded : m.wt + marked p ≤ at r + 256
    pub agree : (j : ℕ) → j < at r → get_elem? got j ≡ get_elem? m.sent j
    pub unread : (j : ℕ) → at r ≤ j → j < m.wt + marked p → Awaits m.epoch k (elem m j).rc
    pub stored : (j : ℕ) → at r ≤ j → j < m.wt → get_elem? m.sent j ≡ some (elem m j).item
    pub knows : Local m.wt m.sent r

  -- The producer gets on without a shared access of its own.
  pub waiting-Follows :
      {m : Memory A} {p p' : Producer A} {k : ℕ} {r : Receiver A} {got : List A}
      → marked p' ≡ marked p
      → Follows m p k r got
      → Follows m p' k r got
  waiting-Follows same f = record {
    given = f.given;
    behind = f.behind;
    bounded = omega (arith, f.bounded);
    agree = f.agree;
    unread = λ j lo hi. f.unread j lo (omega arith);
    stored = f.stored;
    knows = f.knows;
  }

  module _ (m : Memory A) (i : IsMemory m) (k : ℕ) (r : Receiver A) (got : List A) (x : A) where
    -- A receiver that is a whole round behind keeps the counter from being marked again.
    not_full :
        (p : Producer A) (rc : ℕ)
        → bit m.cc k ≡ 1
        → (Busy m.cc rc m.epoch → ⊥)
        → (elem m m.wt).rc ≡ rc
        → Follows m p k r got
        → m.wt ≤ at r + 255
    not_full p rc on free same f = elim (dec_lt m.wt (at r + 256)) [
      | yes room ↦ omega arith
      | no full ↦
          let round : index_of (at r) ≡ index_of m.wt = omega (arith, f.bounded) in
          let awaits : Awaits m.epoch k (elem m (at r)).rc =
            f.unread (at r) (omega arith) (omega arith) in
          let here : (elem m (at r)).rc ≡ rc = ap (λ j. (m.block j).rc) round ∙ same in
          absurd (free (awaited-Busy m.epoch m.cc k rc on (subst (Awaits m.epoch k) here awaits)))
    ]

    other_slot : (j : ℕ) → m.wt ≤ at r + 255 → at r ≤ j → j < m.wt → index_of m.wt ≢ index_of j
    other_slot j room lo hi = omega arith

    pub mark-Follows :
        (rc : ℕ)
        → bit m.cc k ≡ 1
        → (Busy m.cc rc m.epoch → ⊥)
        → (elem m m.wt).rc ≡ rc
        → Follows m (marking x m.cc rc) k r got
        → Follows
            (write_elem m m.wt (record { item = (elem m m.wt).item; rc = bit_or m.epoch m.cc }))
            (writing x)
            k
            r
            got
    mark-Follows rc on free same f =
        let room = not_full (marking x m.cc rc) rc on free same f in
        let e : Elem A = record { item = (elem m m.wt).item; rc = bit_or m.epoch m.cc } in
        record {
          given = f.given;
          behind = f.behind;
          bounded = omega arith;
          agree = f.agree;
          unread = λ j lo hi. elim (dec_lt j m.wt) [
            | yes old ↦
                rw (store_ne m.block e (other_slot j room lo old)) (f.unread j lo (omega arith))
            | no last ↦
                rw (store_self m.block e {i = index_of m.wt} {j = index_of j} (omega arith))
                  (marked-Awaits m.epoch m.cc k i.epoch_fits i.epoch_whole i.cc_fits on)
          ];
          stored = λ j lo hi. rw (store_ne m.block e (other_slot j room lo hi)) (f.stored j lo hi);
          knows = f.knows;
        }

    pub write-Follows :
        Follows m (writing x) k r got
        → Follows
            (write_elem m m.wt (record { item = x; rc = (elem m m.wt).rc }))
            (written x)
            k
            r
            got
    write-Follows f =
        let e : Elem A = record { item = x; rc = (elem m m.wt).rc } in
        let room : m.wt ≤ at r + 255 = omega (arith, f.bounded) in
        record {
          given = f.given;
          behind = f.behind;
          bounded = f.bounded;
          agree = f.agree;
          unread = λ j lo hi. elim (dec_lt j m.wt) [
            | yes old ↦ rw (store_ne m.block e (other_slot j room lo old)) (f.unread j lo hi)
            | no last ↦
                let here : index_of m.wt ≡ index_of j = omega arith in
                rw (store_self m.block e here)
                  (f.unread m.wt (omega (arith, f.behind)) (omega arith))
          ];
          stored = λ j lo hi. rw (store_ne m.block e (other_slot j room lo hi)) (f.stored j lo hi);
          knows = f.knows;
        }
