-- ===== src/Wait.antt =====
-- src/libipc/waiter.h, `wait_for` of src/libipc/ipc.cpp and `sleep` of include/libipc/rw_lock.h: how a
-- call waits for a queue. `W` is the state of all that the threads share; what other threads do
-- stands in `wait`, which tells whether `cond_.wait` returned before the time was up.
pub mod Ends
pub mod Quit
mod Tests
use cpp_ipc.Prelude.{
  ℕ, zero, suc, ◌+◌, ◌%◌, ◌^◌, Bool, true, false, not, Option, none, some, [], ◌==◌, ltb,
  if◌then◌else◌,
}
use cpp_ipc.Prelude.Int.{pos}
use cpp_ipc.Ipc.{Msg, bytes, padded}

-- The two handles of a waiter; `opens` tells whether `open` of the condition and of the lock succeed.
pub record Waiter : Type 0 where
  pub cond : Bool
  pub lock : Bool
  pub quit : Bool

pub valid : Waiter → Bool
valid w = if w.cond then w.lock else false

pub open_waiter : (opens_cond opens_lock : Bool) → Waiter → Waiter × Bool
open_waiter opens_cond opens_lock w =
    if opens_cond
    then (if opens_lock
        then (record { cond = true; lock = true; quit = false }, true)
        else (record { cond = false; lock = false; quit = false }, false))
    else (record w { cond = false; quit = false }, false)

pub close_waiter : Waiter → Waiter
close_waiter w = record w { cond = false; lock = false }

-- `init` of a connection opens a waiter only where it is not valid.
pub init_waiter : (opens_cond opens_lock : Bool) → Waiter → Waiter
init_waiter opens_cond opens_lock w = if valid w then w else (open_waiter opens_cond opens_lock w).0

pub quit_waiting : Waiter → Waiter
quit_waiting w = record w { quit = true }

-- The id of a connection from the shared counter, and the counter.
pub connection_id : (acc : ℕ) → ℕ × ℕ
connection_id acc =
    let id = (acc + 1) % 2 ^ 32 in
    if id == 0 then ((id + 1) % 2 ^ 32, (id + 1) % 2 ^ 32) else (id, id)

module _ {W : Type 0} (pred : W → Bool × W) (wait : W → Bool × W) (quit : W → Bool) where
  -- The loop of `wait_if`; `none` is no turn left.
  pub wait_if : (fuel : ℕ) → W → Option (Bool × W)
  wait_if zero w = none
  wait_if (suc fuel) w = elim (quit w) [
    | true ↦ some (true, w)
    | false ↦
        let (again, w') = pred w in
        let (woken, w'') = wait w' in
        elim again [
          | false ↦ some (true, w')
          | true ↦ elim woken [ false ↦ some (false, w'') | true ↦ wait_if fuel w'' ]
        ]
  ]

  -- `wait_for` with `turns` left of those that only yield, which are those where k is below 32.
  pub yield_for : (turns fuel : ℕ) → W → Option (Bool × W)
  yield_for zero fuel w =
      let (again, w') = pred w in elim again [ false ↦ some (true, w') | true ↦ wait_if fuel w' ]
  yield_for (suc turns) fuel w =
      let (again, w') = pred w in
      elim again [ false ↦ some (true, w') | true ↦ yield_for turns fuel w' ]

  pub wait_for : (fuel tm : ℕ) → W → Option (Bool × W)
  wait_for fuel tm w =
      if tm == 0 then (let (again, w') = pred w in some (not again, w')) else yield_for 32 fuel w

-- `send` of one fragment with a time-out: a message that finds no room in time is pushed by force.
module _ {W : Type 0} (push force : W → Bool × W) (broadcast : W → W) (wait : W → Bool × W)
    (quit : W → Bool) where
  abbrev pub no_room : W → Bool × W
  no_room w = let (ok, w') = push w in (not ok, w')

  pub send_piece : (fuel tm : ℕ) → W → Option (Bool × W)
  send_piece fuel tm w = elim (wait_for no_room wait quit fuel tm w) [
    | none ↦ none
    | some (true, w') ↦ some (true, broadcast w')
    | some (false, w') ↦
        let (ok, w'') = force w' in some (if ok then (true, broadcast w'') else (false, w''))
  ]

  pub try_send_piece : (fuel tm : ℕ) → W → Option (Bool × W)
  try_send_piece fuel tm w = elim (wait_for no_room wait quit fuel tm w) [
    | none ↦ none
    | some (true, w') ↦ some (true, broadcast w')
    | some (false, w') ↦ some (false, w')
  ]

-- `msg {}` before the first `pop`.
abbrev pub blank : Msg
blank = record { cc_id = 0; id = 0; remain = pos 0; payload = bytes (padded []) }

-- The message that a turn of `recv` gets within the time, where `pop` connects first if need be.
module _ {W : Type 0} (pop : W → Option Msg × W) (broadcast : W → W) (wait : W → Bool × W)
    (quit : W → Bool) where
  abbrev pub no_message : W × Msg → Bool × (W × Msg)
  no_message (w, m) =
      let (r, w') = pop w in elim r [ none ↦ (true, (w', m)) | some m' ↦ (false, (w', m')) ]

  abbrev pub wait_with : W × Msg → Bool × (W × Msg)
  wait_with (w, m) = let (ok, w') = wait w in (ok, (w', m))

  pub next_message : (fuel tm : ℕ) → W → Option (Option Msg × W)
  next_message fuel tm w = elim (wait_for no_message wait_with (λ s. quit s.0) fuel tm (w, blank)) [
    | none ↦ none
    | some (true, (w', m)) ↦ some (some m, broadcast w')
    | some (false, (w', m)) ↦ some (none, w')
  ]
