-- ===== src/Queue/Tests.antt =====
-- Handles at concrete states.
use cpp_ipc.Prelude.{◌≡◌, refl, true, false, some, [], ◌∷◌, arith}
use cpp_ipc.Queue.{
  Elems, Queue, connected, connect, disconnect, ready_sending, shut_sending, is_connected,
}
use cpp_ipc.Queue.Senders.{World, calls, OneSender, one_sender, shut_sending_keeps_flag}
use cpp_ipc.Queue.Receivers.{broadcasting, exclusive, disconnect-connect}

abbrev array : Elems
array = record { cc = 5; sending = false; receiving = false; head = 9 }

abbrev empty_array : Elems
empty_array = record array { cc = 0 }

abbrev handle : Queue
handle = record { opened = true; connected_ = 0; cursor_ = 0; sender_flag_ = false }

abbrev world : World
world = record { elems = array; handles = λ _. handle }

one_sender_example : OneSender (calls (exclusive false) (0 ∷ 1 ∷ 0 ∷ []) world)
one_sender_example =
    one_sender (exclusive false) (0 ∷ 1 ∷ 0 ∷ []) world refl
      (record { unique = λ i j a b. ground arith; held = λ i a. ground arith })

abbrev sender_handle : Queue
sender_handle = record handle { sender_flag_ = true }

shut_sending_keeps_flag_example :
    let e1 = shut_sending (exclusive false) sender_handle array in
    let (ok, r2, e2) = ready_sending (exclusive false) handle e1 in
    let (again, q3, e3) = ready_sending (exclusive false) sender_handle e2 in
    (ok ≡ true) × (again ≡ true)
shut_sending_keeps_flag_example =
    shut_sending_keeps_flag (exclusive false) sender_handle handle array refl refl refl refl

disconnect-connect_example :
    let (ok, q', e') = connect (broadcasting false) handle array in
    (ok ≡ true)
    × (q'.cursor_ ≡ 9)
    × (connected (broadcasting false) q' e' ≡ some true)
    × (disconnect (broadcasting false) q' e' ≡ (true, record q' { connected_ = 0 }, array))
unfolding connected is_connected cpp_ipc.Circ.Broadcast.connected
disconnect-connect_example =
    disconnect-connect false handle array refl (omega arith) (λ e. omega arith) refl
