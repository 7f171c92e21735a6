-- ===== src/ProdCons/Tests.antt =====
-- Rings and broadcast arrays at concrete states.
use cpp_ipc.Prelude.{
  ℕ, ◌-◌, ◌^◌, ◌≤◌, ◌<◌, ◌≡◌, ◌≢◌, min, refl, Bool, true, false, Option, some, List, [], ◌∷◌, ◌++◌,
  length, get_elem?, ◌==◌, if◌then◌else◌, arith,
}
use cpp_ipc.Prelude.Bits.{bit, bit_not}
use cpp_ipc.Circ.{u32, index_of}
use cpp_ipc.ProdCons.{store}
use cpp_ipc.ProdCons.Single
use cpp_ipc.ProdCons.Single.Queue.{IsRing, contents, enqueue, dequeue, push-enqueue, pop-dequeue}
use cpp_ipc.ProdCons.Shared
use cpp_ipc.ProdCons.Shared.Fifo.{received_prefix}
use cpp_ipc.ProdCons.Broadcast
use cpp_ipc.ProdCons.Broadcast.Counter.{Awaits, unread_of}
use cpp_ipc.ProdCons.Broadcast.Delivery.{Call, send, recv, run, recv_in_order}
use cpp_ipc.ProdCons.Broadcast.Force.{next_rc, force_push-connected, push_overwrites_unread}
use cpp_ipc.ProdCons.Multi
use cpp_ipc.ProdCons.Many
use cpp_ipc.ProdCons.Many.Threads
use cpp_ipc.ProdCons.Many.Threads.Clash.{start, two_claims}

-- A full ring, and one whose write index has wrapped.
abbrev full_ring : Single.Ring ℕ
full_ring = record { rd = 1; wt = 256; block = λ i. i }

abbrev wrapped_ring : Single.Ring ℕ
wrapped_ring = record { rd = 2 ^ 32 - 1; wt = 1; block = λ i. i }

push-enqueue_example :
    IsRing (Single.push 7 full_ring).1
    × (◌≡◌ {A = Bool × List ℕ}
        ((Single.push 7 full_ring).0, contents (Single.push 7 full_ring).1)
        (enqueue 7 (contents full_ring)))
push-enqueue_example =
    push-enqueue 7 {r = full_ring}
      (record { rd_fits = omega arith; wt_fits = omega arith; bounded = omega arith })

pop-dequeue_example :
    IsRing (Single.pop wrapped_ring).1
    × (◌≡◌ {A = Option ℕ × List ℕ}
        ((Single.pop wrapped_ring).0, contents (Single.pop wrapped_ring).1)
        (dequeue (contents wrapped_ring)))
pop-dequeue_example =
    pop-dequeue {r = wrapped_ring}
      (record { rd_fits = omega arith; wt_fits = omega arith; bounded = omega arith })

-- One element is published.
abbrev published : Shared.System ℕ
published = record {
  mem = record { rd = 0; wt = 1; block = store (λ _. 0) 0 9; sent = 9 ∷ []; received = [] };
  producer = Shared.Producer.idle;
  consumer = λ _. Shared.Consumer.idle;
}

received_prefix_example :
    (rest : List ℕ) × (published.mem.sent ≡ published.mem.received ++ rest) × (length rest ≤ 255)
received_prefix_example =
    received_prefix {block = λ _. 0} {s = published}
      (Shared.Reach.next
        (Shared.Reach.next
          (Shared.Reach.next
            (Shared.Reach.next Shared.Reach.begin (Shared.Step.produce (Shared.Push.call 9)))
            (Shared.Step.produce (Shared.Push.room (λ e. ground arith))))
          (Shared.Step.produce Shared.Push.write))
        (Shared.Step.produce Shared.Push.publish))
      (omega arith)

abbrev fresh : Broadcast.Channel ℕ
fresh = record { wt = 0; epoch = 0; block = λ _. record { item = 0; rc = 0 }; cc = 3 }

abbrev calls : List (Call ℕ)
calls = send 5 ∷ recv 0 ∷ send 6 ∷ []

recv_in_order_example :
    let t = run calls (record { chan = fresh; cursors = λ _. 0; accepted = []; got = λ j. [] }) in
    (items : List ℕ) × (t.accepted ≡ t.got 0 ++ items) × (length items ≤ 256)
recv_in_order_example =
    recv_in_order 0 calls fresh (λ _. 0) (omega arith) (tt, (omega arith, (tt, tt)))
      (record {
        wt_fits = omega arith;
        epoch_fits = omega arith;
        epoch_whole = omega arith;
        cc_fits = omega arith;
        rc_fits = λ i. omega arith;
      })
      refl refl

-- Receiver 1 has yet to read each element, and receiver 0 has read all.
abbrev slow : Broadcast.Channel ℕ
slow = record { wt = 0; epoch = 0; block = λ _. record { item = 0; rc = 2 }; cc = 3 }

force_push-connected_example :
    let ch' = (Broadcast.force_push 8 slow).1 in
    (ch'.cc ≢ 0)
    × ((k : ℕ) → k < 32 → bit ch'.cc k ≡ min (bit 3 k) (1 - bit (unread_of (next_rc slow)) k))
    × ((ch'.block (index_of 0)).item ≡ 8)
    × ((k : ℕ) → bit ch'.cc k ≡ 1 → Awaits ch'.epoch k (ch'.block (index_of 0)).rc)
unfolding Broadcast.force_push cpp_ipc.Circ.Broadcast.disconnect
force_push-connected_example =
    force_push-connected 8 slow
      (record {
        wt_fits = omega arith;
        epoch_fits = omega arith;
        epoch_whole = omega arith;
        cc_fits = omega arith;
        rc_fits = λ i. omega arith;
      })
      refl

-- Receiver 1 has read the first element, which receiver 0 has not, and has 255 others to read.
abbrev full : Broadcast.Channel ℕ
full = record {
  wt = 256;
  epoch = 0;
  block = λ i. record { item = i; rc = if i == 0 then 1 else 3 };
  cc = 3;
}

push_overwrites_unread_example :
    let ch' = (Broadcast.force_push 7 full).1 in
    ((last : Bool) × ((Broadcast.pop (2 ^ 1) 1 ch').0 ≡ some (1, last)))
    × ((Broadcast.push 8 (record ch' { epoch = 0 })).0 ≡ false)
    × ((Broadcast.push 8 ch').0 ≡ true)
    × ((last : Bool) × ((Broadcast.pop (2 ^ 1) 1 (Broadcast.push 8 ch').1).0 ≡ some (8, last)))
unfolding Broadcast.force_push cpp_ipc.Circ.Broadcast.disconnect
push_overwrites_unread_example =
    push_overwrites_unread 7 8 full 1
      (record {
        wt_fits = omega arith;
        epoch_fits = omega arith;
        epoch_whole = omega arith;
        cc_fits = omega arith;
        rc_fits = λ i. ground arith;
      })
      (omega arith) refl refl (record { fits = omega arith; epoch = refl; pending = refl }) refl

-- Elements 0 and 1 are committed and `wt_` has not moved.
abbrev two_committed : Multi.Ring ℕ
two_committed = record {
  rd = 0;
  wt = 0;
  ct = 2;
  block = λ i. record { item = i; flag = if i == 2 then 0 else bit_not 64 i };
}

abbrev quiet : Multi.Ring ℕ
quiet = record { rd = 3; wt = 5; ct = 5; block = λ i. record { item = i; flag = 0 } }

abbrev many : Many.Channel ℕ
many = record { ct = 0; epoch = 0; block = λ _. record { item = 0; rc = 0; flag = 0 }; cc = 3 }

-- One receiver, and an element that is free.
abbrev one_receiver : Many.Channel ℕ
one_receiver = record {
  ct = 0;
  epoch = 0;
  block = λ _. record { item = 0; rc = 0; flag = 0 };
  cc = 1;
}

two_claims_example :
    (s : Threads.System ℕ) × Threads.Reach (start one_receiver) s
    × (get_elem? s.producers 0 ≡ some (Threads.counting 8 0))
    × (get_elem? s.producers 1 ≡ some (Threads.counting 9 0))
two_claims_example =
    two_claims one_receiver 8 9 2 3 (omega arith) (omega arith) (omega arith) (omega arith) refl
      refl (record { slot = 1; in_range = omega arith; id_eq = refl; free = refl; next_eq = refl })
