-- ===== src/ProdCons/Broadcast/Force.antt =====
-- `force_push`: whom it disconnects, and what the epoch that it starts means for the elements before.
use mathlib.Core.Path.{subst}
use cpp_ipc.Prelude.{
  ℕ, ◌+◌, ◌-◌, ◌^◌, ◌<◌, min, bit_and, bit_or, ◌≡◌, ◌≢◌, refl, ap, sym, Bool, true, some, arith,
  ◌==◌, Bool-cases, inl, inr, false, ◌∙◌,
}
use cpp_ipc.Prelude.Bits.{bit, bit_not, ne_zero_of_bit, bit-bit_and, bit-zero, bit-lt-two, bit_ext}
use cpp_ipc.Circ.{u32, index_of}
use cpp_ipc.Circ.Broadcast.{disconnect}
use cpp_ipc.Circ.Broadcast.Connect.{bit-disconnect, disconnect-lt}
use cpp_ipc.ProdCons.{store_self, store_ne}
use cpp_ipc.ProdCons.Broadcast.{Elem, Channel, ep_mask, ep_incr, u64, write, push, force_push, pop}
use cpp_ipc.ProdCons.Broadcast.Counter.{Awaits, epoch_of, unread_of, rc_low, rc_high}
use cpp_ipc.ProdCons.Broadcast.Reader.{IsChannel, push_refused}
use cpp_ipc.ProdCons.Broadcast.Steps.{fresh_counter, write-IsChannel, pop_taken}

-- Disconnecting receivers that are not connected changes nothing.
disconnect_disjoint :
    (conns rem : ℕ)
    → conns < 2 ^ 32
    → rem < 2 ^ 32
    → bit_and conns rem ≡ 0
    → disconnect conns rem ≡ conns
disconnect_disjoint conns rem h hr e =
    bit_ext 32 (disconnect conns rem) conns (disconnect-lt conns rem h) h λ k l. omega (
      arith,
      bit-disconnect conns rem k hr l,
      bit-bit_and k conns rem,
      ap (λ t. bit t k) e,
      bit-zero k,
      bit-lt-two conns k,
      bit-lt-two rem k,
    )

module _ {ℓ} {A : Type ℓ} where
  -- The counter of the element that is written next.
  abbrev pub next_rc : Channel A → ℕ
  next_rc ch = (ch.block (index_of ch.wt)).rc

  -- The receivers that `force_push` leaves connected.
  abbrev left_of : Channel A → ℕ
  left_of ch = disconnect ch.cc (unread_of (next_rc ch))

  abbrev forced : Channel A → Channel A
  forced ch = record ch { epoch = u64 (ch.epoch + ep_incr); cc = left_of ch }

  force_push_form :
      (x : A) (ch : Channel A)
      → IsChannel ch
      → (force_push x ch).0 ≡ true
      → (left_of ch ≢ 0) × (force_push x ch ≡ (true, write x (left_of ch) (forced ch)))
  unfolding force_push
  force_push_form x ch c h =
      let rc : ℕ = next_rc ch in
      let rem : u32 (bit_and rc ep_mask) ≡ unread_of rc = omega (arith, rc_low rc) in
      let h' = rw rem at h in
      rw rem (elim (Bool-cases (bit_and ch.cc (unread_of rc) == 0)) [
        | inl apart ↦
            let e =
              disconnect_disjoint ch.cc (unread_of rc) c.cc_fits (omega arith) (ground arith) in
            rw (apart, e) (ground arith)
        | inr busy ↦ ground arith
      ])

  forced-IsChannel : (ch : Channel A) → IsChannel ch → IsChannel (forced ch)
  forced-IsChannel ch c = record {
    wt_fits = c.wt_fits;
    epoch_fits = omega arith;
    epoch_whole = omega (arith, c.epoch_whole);
    cc_fits = disconnect-lt ch.cc (unread_of (next_rc ch)) c.cc_fits;
    rc_fits = c.rc_fits;
  }

  -- When `force_push` succeeds, the receivers that are connected afterwards are those that were
  -- and had read the overwritten element, at least one is, and each has the new element to read.
  pub force_push-connected :
      (x : A) (ch : Channel A)
      → IsChannel ch
      → (force_push x ch).0 ≡ true
      → let ch' = (force_push x ch).1 in
        (ch'.cc ≢ 0)
        × ((k : ℕ) → k < 32 → bit ch'.cc k ≡ min (bit ch.cc k) (1 - bit (unread_of (next_rc ch)) k))
        × ((ch'.block (index_of ch.wt)).item ≡ x)
        × ((k : ℕ) → bit ch'.cc k ≡ 1 → Awaits ch'.epoch k (ch'.block (index_of ch.wt)).rc)
  force_push-connected x ch c h =
      let (some_left, form) = force_push_form x ch c h in
      let rc : ℕ = next_rc ch in
      let el : Elem A = record { item = x; rc = bit_or (forced ch).epoch (left_of ch) } in
      let own = store_self ch.block el {i = index_of ch.wt} {j = index_of ch.wt} refl in
      rw form (
        some_left,
        (λ k l. bit-disconnect ch.cc (unread_of rc) k (omega arith) l),
        ap (λ r. r.item) own,
        λ k on. rw own (fresh_counter (forced ch) k (forced-IsChannel ch c) on),
      )

  push_stale :
      (x : A) (ch : Channel A) (k : ℕ)
      → IsChannel ch
      → bit ch.cc k ≡ 1
      → epoch_of (next_rc ch) ≢ ch.epoch
      → push x ch ≡ (true, write x ch.cc ch)
  unfolding push
  push_stale x ch k c on stale =
      ground (arith, ne_zero_of_bit k ch.cc on, rc_high (next_rc ch) (c.rc_fits (index_of ch.wt)))

  -- `push` takes an element of another epoch, whoever has yet to read it.
  push_at_stale :
      (x : A) (ch : Channel A) (k cur : ℕ)
      → IsChannel ch
      → bit ch.cc k ≡ 1
      → cur < 2 ^ 32
      → index_of cur ≡ index_of ch.wt
      → bit (unread_of (next_rc ch)) k ≡ 1
      → epoch_of (next_rc ch) ≢ ch.epoch
      → ((push x ch).0 ≡ true)
        × (last : Bool) × ((pop (2 ^ k) cur (push x ch).1).0 ≡ some (x, last))
  push_at_stale x ch k cur c on h at unread stale =
      let el : Elem A = record { item = x; rc = bit_or ch.epoch ch.cc } in
      let own = store_self ch.block el (sym at) in
      let aw = fresh_counter ch k c on in
      let ne : cur ≢ u32 (ch.wt + 1) = omega arith in
      let busy : bit_and (bit_or ch.epoch ch.cc) ep_mask ≢ 0 =
        rw (rc_low (bit_or ch.epoch ch.cc)) (ne_zero_of_bit k _ aw.pending) in
      rw (push_stale x ch k c on stale) (
        refl,
        (bit_and (bit_and (bit_or ch.epoch ch.cc) (bit_not 64 (2 ^ k))) ep_mask == 0),
        rw (pop_taken (2 ^ k) cur (write x ch.cc ch) ne (rw own busy), own) refl,
      )

  pop_waiting :
      (ch : Channel A) (k cur e : ℕ)
      → cur ≢ ch.wt
      → Awaits e k (ch.block (index_of cur)).rc
      → (last : Bool) × ((pop (2 ^ k) cur ch).0 ≡ some ((ch.block (index_of cur)).item, last))
  pop_waiting ch k cur e ne aw =
      let rc : ℕ = (ch.block (index_of cur)).rc in
      let busy : bit_and rc ep_mask ≢ 0 = rw (rc_low rc) (ne_zero_of_bit k _ aw.pending) in
      (_, ap (λ r. r.0) (pop_taken (2 ^ k) cur ch ne busy))

  -- In a channel whose words are in range, where a connected receiver has read the element at the
  -- write index and has yet to read the next one, which is of the current epoch and its oldest,
  -- and a forced push succeeds, then `pop` would return that oldest element to it, and `push` with
  -- the epoch as it was would refuse; but `push` succeeds, and `pop` then returns the newest
  -- element in its place.
  pub push_overwrites_unread :
      (y x : A) (ch : Channel A) (k : ℕ)
      → IsChannel ch
      → k < 32
      → bit ch.cc k ≡ 1
      → bit (unread_of (next_rc ch)) k ≡ 0
      → Awaits ch.epoch k (ch.block (index_of (ch.wt + 1))).rc
      → (force_push y ch).0 ≡ true
      → let ch' = (force_push y ch).1 in
        let cur = u32 (ch.wt + 2 ^ 32 - 255) in
        ((last : Bool) × ((pop (2 ^ k) cur ch').0 ≡ some ((ch.block (index_of cur)).item, last)))
        × ((push x (record ch' { epoch = ch.epoch })).0 ≡ false)
        × ((push x ch').0 ≡ true)
        × ((last : Bool) × ((pop (2 ^ k) cur (push x ch').1).0 ≡ some (x, last)))
  push_overwrites_unread y x ch k c small on read aw h =
      let (some_left, form) = force_push_form y ch c h in
      let cur : ℕ = u32 (ch.wt + 2 ^ 32 - 255) in
      let f : Channel A = forced ch in
      let on' : bit f.cc k ≡ 1 =
        omega (arith, bit-disconnect ch.cc (unread_of (next_rc ch)) k (omega arith) small) in
      let c' = write-IsChannel y f k (forced-IsChannel ch c) on' in
      let ch' : Channel A = write y f.cc f in
      let round : index_of cur ≡ index_of (ch.wt + 1) = omega (arith, c.wt_fits) in
      let round' : index_of cur ≡ index_of ch'.wt = omega (arith, c.wt_fits) in
      let apart : index_of ch.wt ≢ index_of cur = omega (arith, c.wt_fits) in
      let old : ch'.block (index_of cur) ≡ ch.block (index_of cur) = store_ne ch.block _ apart in
      let aw' : Awaits ch.epoch k (ch'.block (index_of cur)).rc = rw (old, round) aw in
      let here : Awaits ch.epoch k (next_rc ch') =
        subst (λ i. Awaits ch.epoch k (ch'.block i).rc) round' aw' in
      let moved : epoch_of (next_rc ch') ≢ ch'.epoch =
        λ same. omega (arith, sym here.epoch ∙ same, c.epoch_fits) in
      let (last, before) = pop_waiting ch' k cur ch.epoch (omega (arith, c.wt_fits)) aw' in
      let (done, last', got) =
        push_at_stale x ch' k cur c' on' (omega arith) round' here.pending moved in
      rw form (
        (last, before ∙ ap (λ (e : Elem A). some (e.item, last)) old),
        ap (λ r. r.0) (push_refused x (record ch' { epoch = ch.epoch }) k on' here),
        done,
        (last', got),
      )
