-- ===== src/Queue/Receivers.antt =====
-- src/libipc/queue.h, `connect` and `disconnect`: a receiver's place among the connections.
use cpp_ipc.Prelude.{
  ℕ, ◌+◌, ◌-◌, ◌^◌, ◌<◌, Bool, true, false, ◌≡◌, ◌≢◌, refl, arith, [], ◌∷◌, some, Bool-cases, inl,
  inr, ap, sym, bit_or, bit_xor, ◌==◌,
}
use cpp_ipc.Circ.{alone, u32}
use cpp_ipc.Circ.Broadcast
use cpp_ipc.Circ.Unicast
use cpp_ipc.Circ.Broadcast.Connect.{IsTaken, taken, disconnect-IsTaken}
use cpp_ipc.Queue.{
  Mode, Elems, Queue, take_id, give_id, is_connected, connect_receiver, disconnect_receiver,
  connected, connect, disconnect,
}
use native.Mathlib.Nat.{one-le-pow}

-- The mode in which each message goes to many receivers.
abbrev pub broadcasting : Bool → Mode
broadcasting p = record { multi_producer = p; multi_consumer = true; broadcast = true }

taken_alone :
    (c : ℕ)
    → c < 2 ^ 32
    → c ≢ 2 ^ 32 - 1
    → (id : ℕ) × (next : ℕ) × (Broadcast.connect (alone c ∷ []) ≡ some (id, some next))
      × IsTaken c id next
unfolding Broadcast.connect
taken_alone c h ne =
    let t : IsTaken c (bit_xor (bit_or c (u32 (c + 1))) c) (bit_or c (u32 (c + 1))) =
      taken c h ne in
    let free : (bit_or c (u32 (c + 1)) == c) ≡ false =
      ground (arith, t.next_eq, one-le-pow t.slot 2) in
    let same : (c == c) ≡ true = ground arith in
    (bit_xor (bit_or c (u32 (c + 1))) c, bit_or c (u32 (c + 1)), rw (free, same), t)

-- What `connect` does where a bit is free.
connect-free :
    (p : Bool) (q : Queue) (e : Elems) (id next : ℕ)
    → q.opened ≡ true
    → connected (broadcasting p) q e ≡ some false
    → Broadcast.connect (alone e.cc ∷ []) ≡ some (id, some next)
    → Broadcast.connected next id ≡ true
    → connect (broadcasting p) q e
      ≡ (true, record q { connected_ = id; cursor_ = e.head }, record e { cc = next })
unfolding connect connected connect_receiver take_id is_connected
connect-free p q e id next o nc got held =
    let before : Broadcast.connected e.cc q.connected_ ≡ false = ground (arith, o, nc) in
    simp (o, before, got, held)

disconnect-held :
    (p : Bool) (q : Queue) (e : Elems)
    → q.opened ≡ true
    → Broadcast.connected e.cc q.connected_ ≡ true
    → (connected (broadcasting p) q e ≡ some true)
      × (disconnect (broadcasting p) q e ≡ (
        true,
        record q { connected_ = 0 },
        record e { cc = Broadcast.disconnect e.cc q.connected_ },
      ))
unfolding connected disconnect disconnect_receiver give_id is_connected
disconnect-held p q e o held = (simp (o, held), simp (o, held))

-- In broadcast mode with many receivers and a free bit, a handle that is not connected becomes
-- connected at the place of the next message, and disconnecting it gives back the array as it was.
pub disconnect-connect :
    (p : Bool) (q : Queue) (e : Elems)
    → q.opened ≡ true
    → e.cc < 2 ^ 32
    → e.cc ≢ 2 ^ 32 - 1
    → connected (broadcasting p) q e ≡ some false
    → let (ok, q', e') = connect (broadcasting p) q e in
      (ok ≡ true)
      × (q'.cursor_ ≡ e.head)
      × (connected (broadcasting p) q' e' ≡ some true)
      × (disconnect (broadcasting p) q' e' ≡ (true, record q' { connected_ = 0 }, e))
disconnect-connect p q e o h ne nc =
    let (id, next, got, t) = taken_alone e.cc h ne in
    let (back, held) = disconnect-IsTaken h t in
    let q' : Queue = record q { connected_ = id; cursor_ = e.head } in
    let (on, off) = disconnect-held p q' (record e { cc = next }) o held in
    let now : connect (broadcasting p) q e ≡ (true, q', record e { cc = next }) =
      connect-free p q e id next o nc got held in
    rw now (refl, refl, on, rw back at off)

-- A single receiver.
abbrev pub exclusive : Bool → Mode
exclusive p = record { multi_producer = p; multi_consumer = false; broadcast = false }

takes_flag :
    (p : Bool) (q : Queue) (e : Elems)
    → q.opened ≡ true
    → connected (exclusive p) q e ≡ some false
    → (connect (exclusive p) q e).2.receiving ≡ true
unfolding connected connect connect_receiver
takes_flag p q e o nc =
    let before : is_connected (exclusive p) e.cc q.connected_ ≡ false = ground (arith, o, nc) in
    elim (Bool-cases e.receiving) [
      | inl set ↦ elim (Bool-cases (is_connected (exclusive p) e.cc 0)) [
        | inl on ↦ simp (o, before, set, on)
        | inr off ↦ simp (o, before, set, off)
      ]
      | inr clear ↦
          let (id, next) = take_id (exclusive p) e.cc in
          elim (Bool-cases (is_connected (exclusive p) next id)) [
            | inl on ↦ simp (o, before, clear, on)
            | inr off ↦ simp (o, before, clear, off)
          ]
    ]

same_flag : (e : Elems) → e.receiving ≡ true → record e { receiving = true } ≡ e
same_flag e h = ap (λ b. record e { receiving = b }) (sym h)

refused :
    (p : Bool) (r : Queue) (e : Elems)
    → r.opened ≡ true
    → r.connected_ ≡ 0
    → e.receiving ≡ true
    → ((connect (exclusive p) r e).0 ≡ false)
      × ((connect (exclusive p) r e).1.connected_ ≡ 0)
      × ((connect (exclusive p) r e).2 ≡ e)
unfolding connect connect_receiver is_connected Unicast.connected
refused p r e o z h = elim (Bool-cases (e.cc == 0)) [
  | inl empty ↦
      (simp (o, z, h, empty), simp (o, z, h, empty), simp (o, z, h, empty) (same_flag e h))
  | inr others ↦
      (simp (o, z, h, others), simp (o, z, h, others), simp (o, z, h, others) (same_flag e h))
]

-- With a single consumer, once a handle that was not connected has called `connect`, a handle that
-- never connected is refused, stays unconnected and leaves the array as it is.
pub one_receiver :
    (p : Bool) (q r : Queue) (e : Elems)
    → q.opened ≡ true
    → r.opened ≡ true
    → connected (exclusive p) q e ≡ some false
    → r.connected_ ≡ 0
    → let (ok, q', e') = connect (exclusive p) q e in
      let (ok', r', e2) = connect (exclusive p) r e' in
      (ok' ≡ false) × (r'.connected_ ≡ 0) × (e2 ≡ e')
one_receiver p q r e o s nc z =
    refused p r (connect (exclusive p) q e).2 s z (takes_flag p q e o nc)
