-- ===== src/Ipc/Recv.antt =====
-- src/libipc/ipc.cpp, `detail_impl::recv`: the loop over the messages that are popped.
use cpp_ipc.Prelude.{
  ℕ, zero, suc, ◌-◌, max, min, Bool, false, Option, none, some, List, [], ◌∷◌, ◌==◌, ltb, leb,
  if◌then◌else◌, length,
}
use cpp_ipc.Prelude.Int.{ℤ, pos, negsuc, ◌+ℤ◌, ltb_ℤ}
use cpp_ipc.Ipc.{data_length, bytes, storage, Msg}
use cpp_ipc.Ipc.Cache.{Cache, append, make_cache}

-- `recv_cache()`: the messages that are not yet whole, by message id.
abbrev pub Pending : Type 0
Pending = List (ℕ × Cache)

unfoldable pub find : ℕ → Pending → Option Cache
find id [] = none
find id ((j, c) ∷ rest) = if j == id then some c else find id rest

unfoldable pub erase : ℕ → Pending → Pending
erase id [] = []
erase id ((j, c) ∷ rest) = if j == id then rest else (j, c) ∷ erase id rest

unfoldable pub put : ℕ → Cache → Pending → Pending
put id c [] = []
put id c ((j, d) ∷ rest) = if j == id then (j, c) ∷ rest else (j, d) ∷ put id c rest

-- The messages whose ids are more than 8192 away are dropped when more than 1024 are pending.
pub keep_near : ℕ → Pending → Pending
keep_near id [] = []
keep_near id ((j, c) ∷ rest) =
    if ltb 8192 (max id j - min id j) then keep_near id rest else (j, c) ∷ keep_near id rest

pub collect : ℕ → Pending → Pending
collect id p = if ltb 1024 (length p) then keep_near id p else p

-- What `recv` returns: nothing (no message came in time, or one was malformed), the bytes of a
-- message, or a chunk with its size.
pub data Received : Type 0 where
  nothing : Received
  message : List ℕ → Received
  chunk : (id : ℤ) (size : ℕ) → Received

pub record Outcome : Type 0 where
  pub result : Received
  pub pending : Pending
  pub queue : List Msg

-- `own_id` is the receiver's own connection id, if the shared counter is mapped; `found` tells whether
-- `find_storage` finds a chunk.
module _ (alloc : ℕ → List ℕ) (own_id : Option ℕ) (found : ℤ → ℕ → Bool) where
  abbrev pub is_own : Msg → Bool
  is_own m = elim own_id [ none ↦ false | some i ↦ m.cc_id == i ]

  -- The messages that are popped, in order; at the end of the list `pop` fails until the time is up.
  unfoldable pub recv : List Msg → Pending → Outcome
  recv [] p = record { result = nothing; pending = p; queue = [] }
  recv (m ∷ ms) p =
      let again = recv ms p in
      let r_size = pos data_length +ℤ m.remain in
      if is_own m then again else elim r_size [
        | negsuc n ↦ record { result = nothing; pending = p; queue = ms }
        | pos zero ↦ record { result = nothing; pending = p; queue = ms }
        | pos (suc n) ↦ elim m.payload [
          | storage id ↦
              if found id (suc n)
              then record { result = chunk id (suc n); pending = p; queue = ms }
              else again
          | bytes src ↦ elim (find m.id p) [
            | none ↦
                let later = recv ms (
                  (m.id, record { fill = data_length; buff = make_cache alloc src (suc n) })
                  ∷ collect m.id p) in
                if leb (suc n) data_length
                then record {
                  result = message (make_cache alloc src (suc n));
                  pending = p;
                  queue = ms;
                }
                else later
            | some c ↦
                let later = recv ms (put m.id (append src data_length c) p) in
                if ltb_ℤ (pos 0) m.remain then later else record {
                  result = message (append src (suc n) c).buff;
                  pending = erase m.id p;
                  queue = ms;
                }
          ]
        ]
      ]
