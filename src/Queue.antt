-- ===== src/Queue.antt =====
-- src/libipc/queue.h and src/libipc/circ/elem_array.h: a process's handle on an element array in
-- shared memory, and how senders and receivers attach to it.
pub mod Receivers
pub mod Senders
mod Tests
use cpp_ipc.Prelude.{
  ℕ, Bool, true, false, not, ◌||◌, Option, none, some, List, [], ◌∷◌, if◌then◌else◌,
}
use cpp_ipc.Circ.{alone}
use cpp_ipc.Circ.Broadcast
use cpp_ipc.Circ.Unicast

-- The policy of an array.
pub record Mode : Type 0 where
  pub multi_producer : Bool
  pub multi_consumer : Bool
  pub broadcast : Bool

-- What handles share: the connections, the flags of the two checkers, and where `head_` writes next.
pub record Elems : Type 0 where
  pub cc : ℕ
  pub sending : Bool
  pub receiving : Bool
  pub head : ℕ

-- A handle. `opened` tells whether `elems_` is not null.
pub record Queue : Type 0 where
  pub opened : Bool
  pub connected_ : ℕ
  pub cursor_ : ℕ
  pub sender_flag_ : Bool

module _ (m : Mode) where
  -- `conn_head::connect` of a thread that is alone: the id, and the connections after it.
  unfoldable pub take_id : ℕ → ℕ × ℕ
  take_id cc =
      if m.broadcast
      then elim (Broadcast.connect (alone cc ∷ [])) [
        | none ↦ (0, cc)
        | some (id, none) ↦ (id, cc)
        | some (id, some next) ↦ (id, next)
      ]
      else (Unicast.connect cc, Unicast.connect cc)

  unfoldable pub give_id : ℕ → ℕ → ℕ
  give_id cc id = if m.broadcast then Broadcast.disconnect cc id else Unicast.disconnect cc id

  unfoldable pub is_connected : ℕ → ℕ → Bool
  is_connected cc id = if m.broadcast then Broadcast.connected cc id else Unicast.connected cc id

  -- elem_array.h.
  unfoldable pub connect_sender : Elems → Bool × Elems
  connect_sender e =
      if m.multi_producer then (true, e) else (not e.sending, record e { sending = true })

  unfoldable pub disconnect_sender : Elems → Elems
  disconnect_sender e = if m.multi_producer then e else record e { sending = false }

  unfoldable pub connect_receiver : Elems → ℕ × Elems
  connect_receiver e =
      let (id, next) = take_id e.cc in
      let held = record e { receiving = true } in
      if m.multi_consumer
      then (id, record e { cc = next })
      else if e.receiving
      then (0, held)
      else (id, record held { cc = next })

  unfoldable pub disconnect_receiver : ℕ → Elems → Elems
  disconnect_receiver id e =
      let released = if m.multi_consumer then e else record e { receiving = false } in
      record released { cc = give_id e.cc id }

  -- queue.h. On a handle that is not open the source reads `elems_` through a null pointer.
  unfoldable pub connected : Queue → Elems → Option Bool
  connected q e = if q.opened then some (is_connected e.cc q.connected_) else none

  unfoldable pub connect : Queue → Elems → Bool × Queue × Elems
  connect q e =
      let (id, e') = connect_receiver e in
      let q' = record q { connected_ = id } in
      if not q.opened
      then (false, q, e)
      else if is_connected e.cc q.connected_
      then (true, q, e)
      else if is_connected e'.cc id
      then (true, record q' { cursor_ = e'.head }, e')
      else (false, q', e')

  unfoldable pub disconnect : Queue → Elems → Bool × Queue × Elems
  disconnect q e =
      if not q.opened
      then (false, q, e)
      else if is_connected e.cc q.connected_
      then (true, record q { connected_ = 0 }, disconnect_receiver q.connected_ e)
      else (false, q, e)

  unfoldable pub ready_sending : Queue → Elems → Bool × Queue × Elems
  ready_sending q e =
      let (ok, e') = connect_sender e in
      if not q.opened
      then (false, q, e)
      else if q.sender_flag_
      then (true, q, e)
      else (ok, record q { sender_flag_ = ok }, e')

  unfoldable pub shut_sending : Queue → Elems → Elems
  shut_sending q e = if not q.opened || not q.sender_flag_ then e else disconnect_sender e

  -- ipc.cpp. `reopen` tells whether `open` succeeds where the handle is not open.
  unfoldable pub reconnect :
      (start_to_recv reopen : Bool) → Queue → Elems → Option (Bool × Queue × Elems)
  reconnect start_to_recv reopen q e =
      let o = record q { opened = q.opened || reopen } in
      let (left, q', e') = disconnect o e in
      if start_to_recv then some (connect o (shut_sending o e)) else elim (connected o e) [
        | none ↦ none
        | some true ↦ some (ready_sending q' e')
        | some false ↦ some (ready_sending o e)
      ]

  unfoldable pub close : Queue → Elems → Bool × Queue × Elems
  close q e = disconnect q (shut_sending q e)
