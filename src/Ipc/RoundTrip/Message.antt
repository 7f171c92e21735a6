-- ===== src/Ipc/RoundTrip/Message.antt =====
-- src/libipc/ipc.cpp: a message that `send` has pushed in fragments is what `recv` returns.
use cpp_ipc.Prelude.{
  ℕ, zero, suc, ◌+◌, ◌-◌, ◌/◌, ◌%◌, ◌^◌, ◌≤◌, ◌<◌, List, ◌∷◌, ◌++◌, ◌≡◌, refl, ◌≢◌, sym, Option,
  none, some, Bool, true, false, ltb, leb, if◌then◌else◌, length, take, drop, arith, inl, inr,
  Bool-cases, ◌==◌,
}
use cpp_ipc.Prelude.Int.{ℤ, pos}
use cpp_ipc.Ipc.{data_length, to_i32, Msg, padded}
use cpp_ipc.Ipc.Recv.{Pending, find, collect, message, recv}
use cpp_ipc.Ipc.Send.{Sender, push_fragments, send}
use cpp_ipc.Ipc.RoundTrip.Buffer.{part-make_cache, part-all}
use cpp_ipc.Ipc.RoundTrip.Steps.{recv-only, recv-first}
use cpp_ipc.Ipc.RoundTrip.Fragments.{
  accept, cut, fragments, filled, to_i32_lem, push_from-fragments, recv-fragments,
}

-- No chunk of shared memory is to be had.
abbrev pub no_chunk : List ℕ → List Msg → Option ℤ × List Msg
no_chunk data' q = (none, q)

-- A handle that may send, with receivers, whose next message id is `id`.
abbrev pub sender : ℕ → ℕ → Sender
sender id others = record { opened = true; ready = true; conns = suc others; acc = some id }

abbrev pub pushed : ℕ → ℕ → List ℕ → List Msg
pushed cc id data' = fragments cc id data' (length data' / data_length) 0

push_fragments-pushed :
    (cc id : ℕ) (data' : List ℕ) (q : List Msg)
    → length data' < 2 ^ 31
    → push_fragments (accept cc id) data' q ≡ (true, q ++ pushed cc id data')
unfolding push_fragments
push_fragments-pushed cc id data' q h =
    let rounds : to_i32 (length data' / data_length) ≡ pos (length data' / data_length) =
      to_i32_lem (length data' / data_length) (omega arith) in
    rw (rounds, push_from-fragments cc id data' (length data' / data_length) 0 q h (omega arith))

send-pushed :
    (cc id others : ℕ) (data' : List ℕ) (q : List Msg)
    → 0 < length data'
    → length data' < 2 ^ 31
    → send (accept cc) no_chunk data' (sender id others) q
      ≡ (true, sender ((id + 1) % 2 ^ 32) others, q ++ pushed cc id data')
unfolding send
send-pushed cc id others data' q h l =
    let some_bytes : (length data' == 0) ≡ false = ground arith in
    let listening : (suc others == 0) ≡ false = ground arith in
    elim (Bool-cases (ltb data_length (length data'))) [
      | inl e ↦ rw (some_bytes, listening, push_fragments-pushed cc id data' q l, e)
      | inr e ↦ rw (some_bytes, listening, push_fragments-pushed cc id data' q l, e)
    ]

module _ (alloc : ℕ → List ℕ) (own : Option ℕ) (found : ℤ → ℕ → Bool) (cc id : ℕ)
    (other : own ≢ some cc) (data' : List ℕ)
    (same : length (alloc (length data')) ≡ length data') where
  recv-small :
      (n : ℕ) (ms : List Msg) (p : Pending)
      → 0 < length data'
      → length data' ≤ data_length
      → find id p ≡ none
      → n ≡ length data'
      → recv alloc own found (cut cc id data' 0 n ∷ ms) p
        ≡ record { result = message data'; pending = p; queue = ms }
  recv-small n ms p h l fresh e =
      let src : List ℕ = padded (take n (drop 0 data')) in
      let left : length data' - 0 ≡ length data' = omega arith in
      rw (
        left,
        recv-only alloc own found cc id other (length data') src ms p h l fresh,
        part-make_cache data' (alloc (length data')) same alloc n refl (omega arith),
        e,
        part-all data' (alloc (length data')) same,
      )

  recv-large :
      (ms : List Msg) (p : Pending)
      → data_length < length data'
      → find id p ≡ none
      → recv alloc own found (cut cc id data' 0 data_length ∷ ms) p
        ≡ recv alloc own found ms
            ((id, filled alloc own found cc id other data' same data_length) ∷ collect id p)
  recv-large ms p l fresh =
      let src : List ℕ = padded (take data_length (drop 0 data')) in
      let left : length data' - 0 ≡ length data' = omega arith in
      rw (
        left,
        recv-first alloc own found cc id other (length data') src ms p l fresh,
        part-make_cache data' (alloc (length data')) same alloc data_length refl (omega arith),
      )

  recv-rounds :
      (rounds : ℕ) (more : List Msg) (p : Pending)
      → 0 < length data'
      → rounds ≡ length data' / data_length
      → find id p ≡ none
      → recv alloc own found (fragments cc id data' rounds 0 ++ more) p ≡ record {
        result = message data';
        pending = if leb (length data') data_length then p else collect id p;
        queue = more;
      }
  recv-rounds zero more p h e fresh =
      let some_left : ltb 0 (length data' - 0) ≡ true = ground arith in
      let small : leb (length data') data_length ≡ true = ground arith in
      rw
        (some_left, small, recv-small (length data' - 0) more p h (omega arith) fresh (omega arith))
  recv-rounds (suc rounds) more p h e fresh =
      let next : 0 + data_length ≡ data_length = omega arith in
      elim (Bool-cases (leb (length data') data_length)) [
        | inl small ↦
            let full : length data' ≡ data_length = ground arith in
            let end : rounds ≡ 0 = ground arith in
            let none_left : ltb 0 (length data' - (0 + data_length)) ≡ false = ground arith in
            rw (
              small,
              end,
              none_left,
              recv-small data_length more p h (omega arith) fresh (sym full),
            )
        | inr large ↦ rw (
          large,
          recv-large (fragments cc id data' rounds (0 + data_length) ++ more) p (ground arith)
              fresh,
          next,
          recv-fragments alloc own found cc id other data' same rounds 63 more (collect id p)
              (ground arith) (ground arith) (omega arith),
        )
      ]

-- For a message of 1 to 2^31 - 1 bytes, `send` without a chunk to a queue with room puts fragments
-- behind those of the queue so that `recv` of another connection, with no such message id pending,
-- returns the bytes that were sent.
pub recv-send :
    (alloc : ℕ → List ℕ) (own : Option ℕ) (found : ℤ → ℕ → Bool) (cc id others : ℕ) (data' : List ℕ)
    (q more : List Msg) (p : Pending)
    → own ≢ some cc
    → length (alloc (length data')) ≡ length data'
    → find id p ≡ none
    → 0 < length data'
    → length data' < 2 ^ 31
    → (ms : List Msg) × (send (accept cc) no_chunk data' (sender id others) q
        ≡ (true, sender ((id + 1) % 2 ^ 32) others, q ++ ms))
      × (recv alloc own found (ms ++ more) p ≡ record {
        result = message data';
        pending = if leb (length data') data_length then p else collect id p;
        queue = more;
      })
recv-send alloc own found cc id others data' q more p other same fresh h l = (
  pushed cc id data',
  send-pushed cc id others data' q h l,
  recv-rounds alloc own found cc id other data' same (length data' / data_length) more p h refl
      fresh,
)
