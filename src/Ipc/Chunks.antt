-- ===== src/Ipc/Chunks.antt =====
-- src/libipc/ipc.cpp: the chunks of shared memory for large messages. Chunks of one size lie one behind
-- the other after a pool of their numbers; each starts with the connections that have yet to read it.
pub mod Layout
pub mod Recycle
use cpp_ipc.Prelude.{
  ℕ, ◌+◌, ◌-◌, ◌*◌, ◌/◌, ◌%◌, ◌^◌, bit_and, Bool, true, false, Option, none, some, List, [], ◌∷◌,
  ◌==◌, ltb, if◌then◌else◌,
}
use cpp_ipc.Prelude.Bits.{bit_not}
use cpp_ipc.Prelude.Int.{ℤ, pos, negsuc, ◌+ℤ◌}
use cpp_ipc.Circ.{Attempt, exchanges, alone}
use cpp_ipc.IdPool.{IdPool, max_count, prepare, acquire, release}
use cpp_ipc.Ipc.{data_length, Payload, bytes, storage, Msg}

-- `size_t` arithmetic.
abbrev pub u64 : ℕ → ℕ
u64 n = n % 2 ^ 64

-- utility.h; `align` is a power of two.
abbrev pub make_align : ℕ → ℕ → ℕ
make_align align size = bit_and (u64 (size + align - 1)) (bit_not 64 (align - 1))

abbrev pub large_msg_align : ℕ
large_msg_align = 1024

abbrev pub align_chunk_size : ℕ → ℕ
align_chunk_size size = u64 ((u64 (size + 2 ^ 64 - 1) / large_msg_align + 1) * large_msg_align)

-- The place of a chunk's bytes: 4 bytes of connections, aligned for `max_align_t`.
abbrev pub data_offset : ℕ
data_offset = 16

abbrev pub calc_chunk_size : ℕ → ℕ
calc_chunk_size size = make_align 16 (align_chunk_size (u64 (data_offset + size)))

-- The place of a chunk behind the `chunk_info_t`, and of its bytes.
abbrev pub at : ℕ → ℤ → Option ℕ
at chunk_size (pos id) = some (u64 (chunk_size * id))
at chunk_size (negsuc n) = none

abbrev pub chunks_mem_size : ℕ → ℕ
chunks_mem_size chunk_size = u64 (max_count * chunk_size)

-- `chunk_info_t` with the connections of each chunk.
pub record Chunks : Type 0 where
  pub pool : IdPool
  pub conns : ℕ → ℕ

-- `info` is what `chunk_storage_info` finds for the size: none, if the shared memory fails.
unfoldable pub acquire_storage : ℕ → Option Chunks → Option ℕ × Option Chunks
acquire_storage conns none = (none, none)
acquire_storage conns (some info) =
    let (id, pool') = acquire (prepare info.pool) in
    elim id [
      | negsuc n ↦ (none, some (record info { pool = pool' }))
      | pos i ↦ (
        some i,
        some (record { pool = pool'; conns = λ j. if j == i then conns else info.conns j }),
      )
    ]

-- The place of the bytes of a chunk for a message of `size` bytes.
unfoldable pub find_storage : ℤ → ℕ → Option Chunks → Option ℕ
find_storage id size none = none
find_storage id size (some info) = elim (at (calc_chunk_size size) id) [
  | none ↦ none
  | some offset ↦ some (offset + data_offset)
]

unfoldable pub release_storage : ℤ → Option Chunks → Option Chunks
release_storage (negsuc n) info = info
release_storage (pos id) none = none
release_storage (pos id) (some info) =
    let (ok, pool') = release info.pool (pos id) in some (record info { pool = pool' })

-- The loop of `sub_rc` in broadcast mode: whether no connection is left, and the new connections.
unfoldable pub sub_rc : List Attempt → ℕ → ℕ → Option (Bool × ℕ)
sub_rc [] curr_conns conn_id = none
sub_rc (a ∷ more) curr_conns conn_id =
    let rest = sub_rc more curr_conns conn_id in
    let last_conns = bit_and curr_conns (bit_not 32 conn_id) in
    if exchanges a then some (bit_and a.seen last_conns == 0, bit_and a.seen last_conns) else rest

-- A receiver is done with a chunk. `broadcast` is the mode; in unicast mode `sub_rc` is true at once.
unfoldable pub recycle_storage : (broadcast : Bool) → ℤ → ℕ → ℕ → Option Chunks → Option Chunks
recycle_storage broadcast (negsuc n) curr_conns conn_id info = info
recycle_storage broadcast (pos id) curr_conns conn_id none = none
recycle_storage broadcast (pos id) curr_conns conn_id (some info) =
    let left = elim (sub_rc (alone (info.conns id) ∷ []) curr_conns conn_id) as (λ _. Bool × ℕ) [
      | none ↦ (false, info.conns id)
      | some r ↦ r
    ] in
    let info' = record info { conns = λ j. if j == id then left.1 else info.conns j } in
    if broadcast
    then (if left.0 then release_storage (pos id) (some info') else some info')
    else release_storage (pos id) (some info)

-- What `force_push` does with a message that it overwrites.
unfoldable pub clear_message : Msg → Option Chunks → Option Chunks
clear_message m info = elim m.payload [
  | bytes src ↦ info
  | storage id ↦ elim (pos data_length +ℤ m.remain) [
    | negsuc n ↦ info
    | pos r_size ↦ if r_size == 0 then info else release_storage id info
  ]
]
