-- ===== src/Ipc/Send.antt =====
-- src/libipc/ipc.cpp, `detail_impl::send`: the checks before a message, and its fragments.
use cpp_ipc.Prelude.{
  ℕ, zero, suc, ◌+◌, ◌/◌, ◌%◌, ◌^◌, Bool, true, false, not, ◌||◌, Option, none, some, List, ◌==◌,
  ltb, if◌then◌else◌, length, take, drop,
}
use cpp_ipc.Prelude.Int.{ℤ, pos, ◌-ℤ◌, ltb_ℤ, pos_part}
use cpp_ipc.Ipc.{data_length, large_msg_limit, to_i32, Payload, bytes, storage, padded}

-- What `send` finds of its handle: whether the queue is open and the sender may send, the
-- connections of the queue, and the shared counter of message ids, if it is mapped.
pub record Sender : Type 0 where
  pub opened : Bool
  pub ready : Bool
  pub conns : ℕ
  pub acc : Option ℕ

-- `S` is the state of the queue and of the chunk storage.
module _ {S : Type 0} (try_push : ℤ → Payload → S → Bool × S) (data' : List ℕ) where
  abbrev pub piece : ℕ → ℕ → Payload
  piece offset size = bytes (padded (take size (drop offset data')))

  -- The last fragment, if bytes remain.
  unfoldable pub push_last : ℕ → S → Bool × S
  push_last offset s =
      let remain = to_i32 (length data') -ℤ pos offset in
      if ltb_ℤ (pos 0) remain
      then try_push (remain -ℤ pos data_length) (piece offset (pos_part remain)) s
      else (true, s)

  -- The fragments of 64 bytes that are left, then the last one.
  unfoldable pub push_from : ℕ → ℕ → S → Bool × S
  push_from zero offset s = push_last offset s
  push_from (suc rounds) offset s =
      let (ok, s') =
        try_push (to_i32 (length data') -ℤ pos offset -ℤ pos data_length) (piece offset data_length)
          s in
      let rest = push_from rounds (offset + data_length) s' in if ok then rest else (false, s')

  unfoldable pub push_fragments : S → Bool × S
  push_fragments s = push_from (pos_part (to_i32 (length data' / data_length))) 0 s

-- `acquire` is `acquire_storage` with the copy into the chunk: the chunk's number, if there is one.
module _ {S : Type 0} (try_push : ℕ → ℤ → Payload → S → Bool × S)
    (acquire : List ℕ → S → Option ℤ × S) where
  -- The result, the sender's handle with the next message id, and the state.
  unfoldable pub send : List ℕ → Sender → S → Bool × Sender × S
  send data' h s = elim h.acc [
    | none ↦ (false, h, s)
    | some msg_id ↦
        if length data' == 0 || (not h.opened || (not h.ready || h.conns == 0))
        then (false, h, s)
        else let h' = record h { acc = some ((msg_id + 1) % 2 ^ 32) } in
          let (chunk, s') = acquire data' s in
          let whole : Bool × S = elim chunk [
            | none ↦ push_fragments (try_push msg_id) data' s'
            | some id ↦ try_push msg_id (to_i32 (length data') -ℤ pos data_length) (storage id) s'
          ] in
          let small = push_fragments (try_push msg_id) data' s in
          let (ok, last) = if ltb large_msg_limit (length data') then whole else small in
          (ok, h', last)
  ]
