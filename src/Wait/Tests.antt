-- ===== src/Wait/Tests.antt =====
-- Waiters at concrete states.
use cpp_ipc.Prelude.{
  ℕ, ◌-◌, ◌^◌, ◌<◌, ◌≡◌, refl, arith, Bool, true, false, Option, some, none, [], ◌∷◌, if◌then◌else◌,
  ◌==◌, replicate,
}
use cpp_ipc.Ipc.{Msg, data_length}
use cpp_ipc.Ipc.Recv.{recv, message, find}
use cpp_ipc.Wait.{
  Waiter, valid, open_waiter, close_waiter, connection_id, wait_if, yield_for, wait_for, send_piece,
  try_send_piece, next_message,
}
use cpp_ipc.Wait.Quit.{again, recv_zeros, send_loses}

-- The condition wakes as often as the state says; the queue stays empty.
abbrev never : ℕ → Bool × ℕ
never w = (true, w)

abbrev wakes : ℕ → Bool × ℕ
wakes w = if w == 0 then (false, 0) else (true, w - 1)

abbrev stays : ℕ → Bool
stays _ = false

wakes-lt : (w : ℕ) → (wakes w).0 ≡ true → (wakes w).1 < w
wakes-lt w h = ground arith

timed_out : wait_for never wakes stays 4 100 3 ≡ some (false, 0)
unfolding wait_for yield_for wait_if
timed_out = refl

abbrev open_one : Waiter
open_one = record { cond = true; lock = true; quit = false }

open_runs : (open_waiter true true (close_waiter open_one)).0 ≡ open_one
unfolding open_waiter close_waiter
open_runs = refl

open_valid : valid open_one ≡ true
unfolding valid
open_valid = refl

abbrev nothing_popped : ℕ → Option Msg × ℕ
nothing_popped w = (none, w)

none_pending : find 0 [] ≡ none
unfolding find
none_pending = refl

recv_zeros_example :
    (m : Msg) × (next_message nothing_popped
        (λ w. w)
        wakes
        (again {W = ℕ} (λ w. w) wakes open_one open_valid true true)
        1
        100
        3
      ≡ some (some m, 3))
    × ((recv (λ n. replicate n 1) (some 9) (λ _ _. false) (m ∷ []) []).result
        ≡ message (replicate data_length 0))
recv_zeros_example =
    recv_zeros (λ w. w) wakes open_one open_valid true true nothing_popped 3 0 100 refl
      (omega arith) (λ n. replicate n 1) 9 (λ _ _. false) [] refl (omega arith) none_pending

send_loses_example :
    send_piece
      (λ w. (false, w))
      (λ w. (true, w))
      (λ w. w)
      wakes
      (again {W = ℕ} (λ w. w) wakes open_one open_valid true true)
      1
      100
      3
    ≡ some (true, 3)
send_loses_example =
    send_loses (λ w. w) wakes open_one open_valid true true (λ w. (false, w)) (λ w. (true, w)) 3 0
      100 refl (omega arith)

try_send_runs :
    try_send_piece (λ w. (false, w)) (λ w. (true, w)) (λ w. w) wakes stays 4 100 3 ≡ some (false, 0)
unfolding try_send_piece wait_for yield_for wait_if
try_send_runs = refl

-- The counter passes over the id 0.
id_runs : connection_id (2 ^ 32 - 1) ≡ (1, 1)
unfolding connection_id
id_runs = refl
