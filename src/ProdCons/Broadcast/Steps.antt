-- ===== src/ProdCons/Broadcast/Steps.antt =====
-- One `push`, or one `pop` of any receiver, seen by a receiver that is connected.
use cpp_ipc.Prelude.{
  ℕ, ◌+◌, ◌^◌, ◌≤◌, ◌<◌, bit_and, bit_or, ◌≡◌, ◌≢◌, ◌⊎◌, refl, ap, Bool, true, none, some, List, [],
  ◌∷◌, ◌++◌, arith, length, length-append, ◌==◌, inl, inr, ℕ_discrete, dec_lt,
}
use cpp_ipc.Prelude.Bits.{bit, bit_not, ne_zero_of_bit}
use cpp_ipc.Circ.{u32, index_of}
use cpp_ipc.ProdCons.{Block, store, store_self, store_ne}
use cpp_ipc.ProdCons.Broadcast.{Elem, Channel, ep_mask, write, push, pop, cursor}
use cpp_ipc.ProdCons.Broadcast.Counter.{
  Awaits, clear-Awaits, clear-fits, marked-Awaits, unread_of, rc_low,
}
use cpp_ipc.ProdCons.Broadcast.Reader.{
  IsChannel, Reads, Unread-stop, Unread-store, Unread-append, Unread-keep, push_refused, push-write,
}

module _ {ℓ} {A : Type ℓ} where
  pub fresh_counter :
      (ch : Channel A) (k : ℕ)
      → IsChannel ch
      → bit ch.cc k ≡ 1
      → Awaits ch.epoch k (bit_or ch.epoch ch.cc)
  fresh_counter ch k c on = marked-Awaits ch.epoch ch.cc k c.epoch_fits c.epoch_whole c.cc_fits on

  pub write-IsChannel :
      (x : A) (ch : Channel A) (k : ℕ)
      → IsChannel ch
      → bit ch.cc k ≡ 1
      → IsChannel (write x ch.cc ch)
  write-IsChannel x ch k c on = record {
    wt_fits = omega arith;
    epoch_fits = c.epoch_fits;
    epoch_whole = c.epoch_whole;
    cc_fits = c.cc_fits;
    rc_fits = λ i. elim (ℕ_discrete (index_of ch.wt) i) [
      | yes e ↦ rw (store_self ch.block _ e) (fresh_counter ch k c on).fits
      | no ne ↦ rw (store_ne ch.block _ ne) (c.rc_fits i)
    ];
  }

  -- There is room only if `k` has at most 255 elements to read.
  room_left :
      (x : A) (ch : Channel A) (k cur : ℕ) (items : List A)
      → Reads ch k cur items
      → (push x ch).0 ≡ true
      → length items ≤ 255
  room_left x ch k cur [] r h = omega arith
  room_left x ch k cur (y ∷ ys) r h = elim (dec_lt (length ys) 255) [
    | yes few ↦ omega arith
    | no many ↦
        let stop = Unread-stop ch.epoch k ch.block cur ch.wt (y ∷ ys) r.cur_fits r.unread in
        let round : index_of ch.wt ≡ index_of cur = omega (arith, stop, r.bounded) in
        let aw : Awaits ch.epoch k (ch.block (index_of ch.wt)).rc = rw round r.unread.1 in
        cc (ap (λ q. q.0) (push_refused x ch k r.connected aw))
  ]

  -- A `push` that succeeds adds its element for every connected receiver.
  pub push-Reads :
      (x : A) (ch : Channel A) (k cur : ℕ) (items : List A)
      → IsChannel ch
      → Reads ch k cur items
      → (push x ch).0 ≡ true
      → IsChannel (push x ch).1 × Reads (push x ch).1 k cur (items ++ (x ∷ []))
  push-Reads x ch k cur items c r h =
      let few = room_left x ch k cur items r h in
      let stop = Unread-stop ch.epoch k ch.block cur ch.wt items r.cur_fits r.unread in
      let el : Elem A = record { item = x; rc = bit_or ch.epoch ch.cc } in
      let own = store_self ch.block el {i = index_of ch.wt} {j = index_of ch.wt} refl in
      rw (push-write x ch h) (
        write-IsChannel x ch k c r.connected,
        record {
          in_range = r.in_range;
          connected = r.connected;
          cur_fits = r.cur_fits;
          bounded = omega (arith, length-append items (x ∷ []));
          unread =
              Unread-append ch.epoch k (store ch.block (index_of ch.wt) el) cur ch.wt items x
                (Unread-store ch.epoch k ch.block cur ch.wt items (index_of ch.wt) el
                  (λ i l q. omega arith) r.unread)
                (ap (λ r. r.item) own) (rw own (fresh_counter ch k c r.connected));
        },
      )

  -- Clearing the bit of another receiver, or reading where it was clear already.
  abbrev pub clear_at : ℕ → ℕ → Block (Elem A) → Block (Elem A)
  clear_at at id block =
      store block at (record (block at) { rc = bit_and (block at).rc (bit_not 64 id) })

  -- What `pop` does to the array.
  pop_block :
      (id cur : ℕ) (ch : Channel A)
      → (((pop id cur ch).2 ≡ ch)
          ⊎ ((pop id cur ch).2 ≡ record ch { block = clear_at (index_of cur) id ch.block }))
  unfolding pop
  pop_block id cur ch = ground arith

  clear_at-IsChannel :
      (id at : ℕ) (ch : Channel A)
      → IsChannel ch
      → IsChannel (record ch { block = clear_at at id ch.block })
  clear_at-IsChannel id at ch c = record {
    wt_fits = c.wt_fits;
    epoch_fits = c.epoch_fits;
    epoch_whole = c.epoch_whole;
    cc_fits = c.cc_fits;
    rc_fits = λ i. elim (ℕ_discrete at i) [
      | yes e ↦ rw (store_self ch.block _ e) (clear-fits (ch.block at).rc id (c.rc_fits at))
      | no ne ↦ rw (store_ne ch.block _ ne) (c.rc_fits i)
    ];
  }

  pub pop-IsChannel : (id cur : ℕ) (ch : Channel A) → IsChannel ch → IsChannel (pop id cur ch).2
  pop-IsChannel id cur ch c = elim (pop_block id cur ch) [
    | inl same ↦ rw same c
    | inr cleared ↦ rw cleared (clear_at-IsChannel id (index_of cur) ch c)
  ]

  clear_at-Reads :
      (at j : ℕ) (ch : Channel A) (k cur : ℕ) (items : List A)
      → j < 32
      → k ≢ j
      → Reads ch k cur items
      → Reads (record ch { block = clear_at at (2 ^ j) ch.block }) k cur items
  clear_at-Reads at j ch k cur items hj ne r = record {
    in_range = r.in_range;
    connected = r.connected;
    cur_fits = r.cur_fits;
    bounded = r.bounded;
    unread =
        Unread-keep ch.epoch k ch.block (clear_at at (2 ^ j) ch.block) cur ch.wt items
          (λ i. elim (ℕ_discrete at i) [
            | yes e ↦ rw (store_self ch.block _ e) (rw e)
            | no other ↦ rw (store_ne ch.block _ other)
          ])
          (λ i aw. elim (ℕ_discrete at i) [
            | yes e ↦
                rw (store_self ch.block _ e)
                  (rw e (clear-Awaits ch.epoch k j (ch.block i).rc hj r.in_range ne aw))
            | no other ↦ rw (store_ne ch.block _ other) aw
          ])
          r.unread;
  }

  -- A `pop` of another receiver takes nothing from `k`.
  pub pop_other-Reads :
      (j c : ℕ) (ch : Channel A) (k cur : ℕ) (items : List A)
      → j < 32
      → k ≢ j
      → Reads ch k cur items
      → Reads (pop (2 ^ j) c ch).2 k cur items
  pop_other-Reads j c ch k cur items hj ne r = elim (pop_block (2 ^ j) c ch) [
    | inl same ↦ rw same r
    | inr cleared ↦ rw cleared (clear_at-Reads (index_of c) j ch k cur items hj ne r)
  ]

  -- A receiver with nothing to read gets nothing.
  pub pop_empty :
      (id : ℕ) (ch : Channel A) (k cur : ℕ) → Reads ch k cur [] → pop id cur ch ≡ (none, cur, ch)
  unfolding pop cursor
  pop_empty id ch k cur r = ground (arith, r.unread)

  pub pop_taken :
      (id cur : ℕ) (ch : Channel A)
      → cur ≢ ch.wt
      → bit_and (ch.block (index_of cur)).rc ep_mask ≢ 0
      → pop id cur ch ≡ (
        some (
          (ch.block (index_of cur)).item,
          bit_and (bit_and (ch.block (index_of cur)).rc (bit_not 64 id)) ep_mask == 0,
        ),
        u32 (cur + 1),
        record ch { block = clear_at (index_of cur) id ch.block },
      )
  unfolding pop cursor
  pop_taken id cur ch ne busy = ground arith

  -- A receiver with something to read gets the first element, and has the others left.
  pub pop-Reads :
      (ch : Channel A) (k cur : ℕ) (x : A) (xs : List A)
      → Reads ch k cur (x ∷ xs)
      → (last : Bool) × ((pop (2 ^ k) cur ch).0 ≡ some (x, last))
        × ((pop (2 ^ k) cur ch).1 ≡ u32 (cur + 1))
        × Reads (pop (2 ^ k) cur ch).2 k (u32 (cur + 1)) xs
  pop-Reads ch k cur x xs r =
      let rc : ℕ = (ch.block (index_of cur)).rc in
      let stop = Unread-stop ch.epoch k ch.block cur ch.wt (x ∷ xs) r.cur_fits r.unread in
      let ne : cur ≢ ch.wt = omega (arith, stop, r.bounded) in
      let busy : bit_and rc ep_mask ≢ 0 =
        rw (rc_low rc) (ne_zero_of_bit k (unread_of rc) r.unread.1.pending) in
      let last : Bool = bit_and (bit_and rc (bit_not 64 (2 ^ k))) ep_mask == 0 in
      let el : Elem A = record (ch.block (index_of cur)) { rc = bit_and rc (bit_not 64 (2 ^ k)) } in
      rw (pop_taken (2 ^ k) cur ch ne busy) (
        last,
        ap (λ y. some (y, last)) r.unread.0,
        refl,
        record {
          in_range = r.in_range;
          connected = r.connected;
          cur_fits = omega arith;
          bounded = omega (arith, r.bounded);
          unread =
              Unread-store ch.epoch k ch.block (u32 (cur + 1)) ch.wt xs (index_of cur) el
                (λ i l q. omega (arith, r.bounded, r.cur_fits)) r.unread.2;
        },
      )
