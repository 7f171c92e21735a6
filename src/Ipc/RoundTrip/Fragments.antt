-- ===== src/Ipc/RoundTrip/Fragments.antt =====
-- src/libipc/ipc.cpp: the fragments of a message, as `send` cuts them and as `recv` joins them.
use cpp_ipc.Prelude.{
  ℕ, zero, suc, ◌+◌, ◌-◌, ◌*◌, ◌^◌, ◌≤◌, ◌<◌, List, [], ◌∷◌, ◌++◌, ◌≡◌, ◌≢◌, ap, ◌∙◌, Option, some,
  Bool, true, false, ltb, if◌then◌else◌, length, take, drop, arith, append_assoc, append_nil, inl,
  inr, Bool-cases,
}
use cpp_ipc.Prelude.Int.{ℤ, pos, ◌-ℤ◌, int_laws, ltb_ℤ}
use cpp_ipc.Ipc.{data_length, to_i32, Payload, Msg, padded}
use cpp_ipc.Ipc.Cache.{Cache, append}
use cpp_ipc.Ipc.Recv.{Pending, message, recv}
use cpp_ipc.Ipc.Send.{push_last, push_from}
use cpp_ipc.Ipc.RoundTrip.Buffer.{part, part-append, part-all}
use cpp_ipc.Ipc.RoundTrip.Steps.{fragment, recv-more, recv-last}

-- A queue that has room for each message.
abbrev pub accept : ℕ → ℕ → ℤ → Payload → List Msg → Bool × List Msg
accept cc id remain payload q =
    (true, q ++ (record { cc_id = cc; id = id; remain = remain; payload = payload } ∷ []))

pub to_i32_lem : (n : ℕ) → n < 2 ^ 31 → to_i32 n ≡ pos n
to_i32_lem n h = ground arith

left_lem : (n off : ℕ) → n < 2 ^ 31 → off ≤ n → to_i32 n -ℤ pos off ≡ pos (n - off)
left_lem n off h l =
    let diff : pos n -ℤ pos off ≡ pos (n - off) = omega int_laws in rw (to_i32_lem n h, diff)

module _ (cc id : ℕ) (data' : List ℕ) where
  abbrev pub cut : ℕ → ℕ → Msg
  cut off n = fragment cc id (length data' - off) (padded (take n (drop off data')))

  -- The fragments from `off` on: full ones, then what is left.
  abbrev pub fragments : ℕ → ℕ → List Msg
  fragments zero off = if ltb 0 (length data' - off) then cut off (length data' - off) ∷ [] else []
  fragments (suc rounds) off = cut off data_length ∷ fragments rounds (off + data_length)

  push_last-fragments :
      (off : ℕ) (q : List Msg)
      → length data' < 2 ^ 31
      → off ≤ length data'
      → push_last (accept cc id) data' off q ≡ (true, q ++ fragments 0 off)
  unfolding push_last
  push_last-fragments off q h l =
      let left : to_i32 (length data') -ℤ pos off ≡ pos (length data' - off) =
        left_lem (length data') off h l in
      elim (Bool-cases (ltb 0 (length data' - off))) [
        | inl e ↦
            let more : ltb_ℤ (pos 0) (pos (length data' - off)) ≡ true = ground arith in
            rw (left, more, e)
        | inr e ↦
            let no_more : ltb_ℤ (pos 0) (pos (length data' - off)) ≡ false = ground arith in
            rw (left, no_more, e, append_nil q)
      ]

  pub push_from-fragments :
      (rounds off : ℕ) (q : List Msg)
      → length data' < 2 ^ 31
      → off + data_length * rounds ≤ length data'
      → push_from (accept cc id) data' rounds off q ≡ (true, q ++ fragments rounds off)
  unfolding push_from
  push_from-fragments zero off q h l = push_last-fragments off q h (omega arith)
  push_from-fragments (suc rounds) off q h l =
      let left : to_i32 (length data') -ℤ pos off ≡ pos (length data' - off) =
        left_lem (length data') off h (omega arith) in
      let q' : List Msg = q ++ (cut off data_length ∷ []) in
      let rest : push_from (accept cc id) data' rounds (off + data_length) q'
          ≡ (true, q' ++ fragments rounds (off + data_length)) =
        push_from-fragments rounds (off + data_length) q' h (omega arith) in
      rw (
        left,
        rest,
        append_assoc q (cut off data_length ∷ []) (fragments rounds (off + data_length)),
      )

module _ (alloc : ℕ → List ℕ) (own : Option ℕ) (found : ℤ → ℕ → Bool) (cc id : ℕ)
    (other : own ≢ some cc) (data' : List ℕ)
    (same : length (alloc (length data')) ≡ length data') where
  abbrev pub filled : ℕ → Cache
  filled off = record { fill = off; buff = part data' (alloc (length data')) same off }

  last-filled :
      (off n : ℕ) (ms : List Msg) (p : Pending)
      → 0 < n
      → suc off + n ≡ length data'
      → n ≤ data_length
      → recv alloc own found (cut cc id data' (suc off) n ∷ ms) ((id, filled (suc off)) ∷ p)
        ≡ record { result = message data'; pending = p; queue = ms }
  last-filled off zero ms p z e l = absurd (omega arith)
  last-filled off (suc n) ms p z e l =
      let left : length data' - suc off ≡ suc n = omega arith in
      let src : List ℕ = padded (take (suc n) (drop (suc off) data')) in
      rw (
        left,
        recv-last alloc own found cc id other (suc n) src ms (filled (suc off)) p z l,
        part-append data' (alloc (length data')) same off n (omega arith),
        e,
        part-all data' (alloc (length data')) same,
      )

  more-filled :
      (off : ℕ) (ms : List Msg) (p : Pending)
      → suc off + data_length < length data'
      → recv alloc own found
          (cut cc id data' (suc off) data_length ∷ ms)
          ((id, filled (suc off)) ∷ p)
        ≡ recv alloc own found ms ((id, filled (suc off + data_length)) ∷ p)
  more-filled off ms p l =
      let src : List ℕ = padded (take data_length (drop (suc off) data')) in
      let next : recv alloc own found (cut cc id data' (suc off) data_length ∷ ms)
            ((id, filled (suc off)) ∷ p)
          ≡ recv alloc own found ms ((id, append src data_length (filled (suc off))) ∷ p) =
        recv-more alloc own found cc id other (length data' - suc off) src ms (filled (suc off)) p
          (omega arith) in
      next
      ∙ ap (λ c. recv alloc own found ms ((id, c) ∷ p))
          (part-append data' (alloc (length data')) same off 63 (omega arith))

  -- With the first `suc off` bytes in the cache, the fragments that follow give the message.
  pub recv-fragments :
      (rounds off : ℕ) (more : List Msg) (p : Pending)
      → suc off < length data'
      → suc off + data_length * rounds ≤ length data'
      → length data' < suc off + data_length * rounds + data_length
      → recv alloc own found
          (fragments cc id data' rounds (suc off) ++ more)
          ((id, filled (suc off)) ∷ p)
        ≡ record { result = message data'; pending = p; queue = more }
  recv-fragments zero off more p h l u =
      let some_left : ltb 0 (length data' - suc off) ≡ true = ground arith in
      rw (
        some_left,
        last-filled off (length data' - suc off) more p (omega arith) (omega arith) (omega arith),
      )
  recv-fragments (suc rounds) off more p h l u =
      elim (Bool-cases (ltb (suc off + data_length) (length data'))) [
        | inl e ↦
            let next : suc off + data_length ≡ suc (off + data_length) = omega arith in
            more-filled off (fragments cc id data' rounds (suc off + data_length) ++ more) p
              (ground arith)
            ∙ rw (
              next,
              recv-fragments rounds (off + data_length) more p (ground arith) (omega arith)
                  (omega arith),
            )
        | inr e ↦
            let end : rounds ≡ 0 = ground arith in
            let none_left : ltb 0 (length data' - (suc off + data_length)) ≡ false = ground arith in
            rw (
              end,
              none_left,
              last-filled off data_length more p (omega arith) (ground arith) (omega arith),
            )
      ]
