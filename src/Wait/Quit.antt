-- ===== src/Wait/Quit.antt =====
-- src/libipc/ipc.cpp: `recv` and `send` on a waiter that has quit. A receiver that disconnects makes
-- its waiters quit, and `init` does not open them again when it reconnects.
use cpp_ipc.Prelude.{
  ℕ, zero, suc, ◌≡◌, ◌≢◌, refl, ap, ◌∙◌, arith, Bool, true, false, Option, none, some, List, [],
  ◌∷◌, ◌==◌, replicate, length, drop_all, append_nil, ◌++◌,
}
use cpp_ipc.Prelude.Int.{ℤ, ◌+ℤ◌}
use cpp_ipc.Ipc.{Msg, data_length}
use cpp_ipc.Ipc.Recv.{recv, message, Pending, find}
use cpp_ipc.Ipc.Cache.{make_cache}
use cpp_ipc.Wait.{
  Waiter, valid, init_waiter, quit_waiting, wait_if, yield_for, wait_for, send_piece, next_message,
  blank, no_room, no_message, wait_with,
}

module _ {W : Type 0} (pred : W → Bool × W) (wait : W → Bool × W) (quit : W → Bool) (w : W)
    (stuck : pred w ≡ (true, w)) (gone : quit w ≡ true) where
  yield_for-quit : (turns fuel : ℕ) → yield_for pred wait quit turns (suc fuel) w ≡ some (true, w)
  unfolding yield_for wait_if
  yield_for-quit zero fuel =
      let returns : wait_if pred wait quit (suc fuel) w ≡ some (true, w) =
        rw (wait_if, gone) refl in
      rw (yield_for, stuck, stuck) returns
  yield_for-quit (suc turns) fuel = rw (yield_for, stuck, stuck) (yield_for-quit turns fuel)

  -- A waiter that has quit reports success, though the predicate never became false.
  pub wait_for-quit :
      (fuel tm : ℕ) → tm ≢ 0 → wait_for pred wait quit (suc fuel) tm w ≡ some (true, w)
  unfolding wait_for
  wait_for-quit fuel tm h =
      let timed : (tm == 0) ≡ false = ground arith in rw timed (yield_for-quit 32 fuel)

quit-init :
    (opens_cond opens_lock : Bool) (r : Waiter)
    → valid r ≡ true
    → (init_waiter opens_cond opens_lock (quit_waiting r)).quit ≡ true
unfolding init_waiter quit_waiting valid
quit-init opens_cond opens_lock r v = rw v refl

module _ {W : Type 0} (broadcast : W → W) (wait : W → Bool × W) (r : Waiter)
    (opened : valid r ≡ true) (opens_cond opens_lock : Bool) where
  abbrev pub again : W → Bool
  again _ = (init_waiter opens_cond opens_lock (quit_waiting r)).quit

  -- After a receiver has disconnected and connected again with its waiters still open, `recv` with
  -- a time from an empty queue, whose `pop` fails and changes nothing, gets a message that nobody
  -- sent and returns 64 zeros, where the own connection id is not 0 and no message with id 0 is
  -- pending.
  pub recv_zeros :
      (pop : W → Option Msg × W) (w : W) (fuel tm : ℕ)
      → pop w ≡ (none, w)
      → tm ≢ 0
      → (alloc : ℕ → List ℕ) (own_id : ℕ) (found : ℤ → ℕ → Bool) (p : Pending)
      → length (alloc data_length) ≡ data_length
      → own_id ≢ 0
      → find 0 p ≡ none
      → (m : Msg) × (next_message pop broadcast wait again (suc fuel) tm w
          ≡ some (some m, broadcast w))
        × ((recv alloc (some own_id) found (m ∷ []) p).result ≡ message (replicate data_length 0))
  unfolding next_message recv make_cache ◌+ℤ◌
  recv_zeros pop w fuel tm empty h alloc own_id found p whole own none_pending =
      let stuck : no_message pop broadcast wait again (w, blank) ≡ (true, (w, blank)) =
        rw (no_message, empty, empty) refl in
      let returns =
        wait_for-quit (no_message pop broadcast wait again) (wait_with pop broadcast wait again)
          (λ s. again s.0) (w, blank) stuck (quit-init opens_cond opens_lock r opened) fuel tm h in
      let other : (0 == own_id) ≡ false = ground arith in
      (
        blank,
        rw (next_message, returns) refl,
        rw (recv, other, none_pending)
            (ap message (
              ap (λ xs. replicate data_length 0 ++ xs)
                (drop_all (alloc data_length) data_length (omega arith))
              ∙ append_nil (replicate data_length 0))),
      )

  -- And `send` to a full queue reports success, though it has pushed nothing.
  pub send_loses :
      (push force : W → Bool × W) (w : W) (fuel tm : ℕ)
      → push w ≡ (false, w)
      → tm ≢ 0
      → send_piece push force broadcast wait again (suc fuel) tm w ≡ some (true, broadcast w)
  unfolding send_piece
  send_loses push force w fuel tm full h =
      let stuck : no_room push force broadcast wait again w ≡ (true, w) = rw (no_room, full) refl in
      rw
        (
          send_piece,
          wait_for-quit (no_room push force broadcast wait again) wait again w stuck
              (quit-init opens_cond opens_lock r opened) fuel tm h,
        )
        refl
