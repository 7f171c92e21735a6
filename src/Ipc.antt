-- ===== src/Ipc.antt =====
-- src/libipc/ipc.cpp: messages over a queue. A message is cut into fragments of 64 bytes, or kept in
-- a chunk of shared memory whose number is sent; the receiver puts the fragments together again.
pub mod Send
pub mod Cache
pub mod Recv
pub mod RoundTrip
pub mod Chunks
mod Tests
use cpp_ipc.Prelude.{
  ℕ, ◌+◌, ◌-◌, ◌%◌, ◌^◌, Bool, List, ◌++◌, ltb, if◌then◌else◌, length, take, replicate,
}
use cpp_ipc.Prelude.Int.{ℤ, pos, negsuc}

-- def.h: `data_length` and `large_msg_limit`.
abbrev pub data_length : ℕ
data_length = 64

abbrev pub large_msg_limit : ℕ
large_msg_limit = data_length

-- `static_cast<std::int32_t>` of a size.
abbrev pub to_i32 : ℕ → ℤ
to_i32 n = let w = n % 2 ^ 32 in if ltb w (2 ^ 31) then pos w else negsuc (2 ^ 32 - w - 1)

-- `data_` of a message: 64 bytes, or the number of a chunk where `storage_` is set.
pub data Payload : Type 0 where
  bytes : List ℕ → Payload
  storage : ℤ → Payload

pub record Msg : Type 0 where
  pub cc_id : ℕ  -- uint32_t
  pub id : ℕ  -- uint32_t
  pub remain : ℤ  -- int32_t
  pub payload : Payload

-- The constructor of `msg_t` copies `size` bytes into storage that is zero before.
abbrev pub padded : List ℕ → List ℕ
padded xs = xs ++ replicate (data_length - length xs) 0
