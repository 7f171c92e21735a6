-- ===== src/Mem/Sizes.antt =====
-- src/libipc/mem/new.cpp: the pool of each size, with what `alloc` and `free` do on the pools of a
-- thread.
pub mod Fits
pub mod Reuse
mod Tests
use cpp_ipc.Prelude.{
  ℕ, ◌+◌, ◌-◌, ◌%◌, ◌^◌, Option, none, some, Bool, true, false, ◌||◌, List, [], ◌∷◌, ◌==◌, leb,
  if◌then◌else◌,
}
use cpp_ipc.Mem.Monotonic.{round_up}
use cpp_ipc.Mem.Cache.{update}
use cpp_ipc.Mem.Pool
use cpp_ipc.Mem.Pool.{Pool}

pub regular_level : ℕ → ℕ
regular_level s =
    if leb s 128
    then 0
    else if leb s 1024
    then 1
    else if leb s 8192
    then 2
    else if leb s 65536
    then 3
    else 4

-- A pool of blocks of one size, or `block_resource_base<0, 0>`.
pub data Collector : Type 0 where
  block_pool_resource : (block_size expansion : ℕ) → Collector
  new_delete : Collector

abbrev pub elem : ℕ → List ℕ → Bool
elem x [] = false
elem x (y ∷ ys) = x == y || elem x ys

-- A `switch` with these cases, each of which returns the pool of blocks of that size.
abbrev pub cases : (expansion size : ℕ) → List ℕ → Collector
cases expansion size sizes =
    if elem size sizes then block_pool_resource size expansion else new_delete

pub get_regular_resource : ℕ → Collector
get_regular_resource s =
    let l = regular_level s in
    if l == 0
    then cases 512 (round_up s 16) (16 ∷ 32 ∷ 48 ∷ 64 ∷ 80 ∷ 96 ∷ 112 ∷ 128 ∷ [])
    else if l == 1
    then cases 256 (round_up s 128) (256 ∷ 384 ∷ 512 ∷ 640 ∷ 768 ∷ 896 ∷ 1024 ∷ [])
    else if l == 2
    then cases 128 (round_up s 1024) (2048 ∷ 3072 ∷ 4096 ∷ 5120 ∷ 6144 ∷ 7168 ∷ 8192 ∷ [])
    else if l == 3
    then cases 64 (round_up s 8192) (16384 ∷ 24576 ∷ 32768 ∷ 40960 ∷ 49152 ∷ 57344 ∷ 65536 ∷ [])
    else new_delete

-- The pools of a thread by the size of their blocks.
abbrev pub Pools : Type 0
Pools = ℕ → Pool

abbrev pub set_pool : Pools → ℕ → Pool → Pools
set_pool pools b s k = if b == k then s else pools k

-- `alloc`, where `chunk` is what memory a new chunk would get, and `fresh` what `new` would return.
pub alloc : (bytes chunk fresh : ℕ) → Pools → Pools × ℕ
alloc bytes chunk fresh pools = elim (get_regular_resource bytes) [
  | block_pool_resource b e ↦
      let (s, p) = Pool.allocate b e chunk (pools b) in (set_pool pools b s, p)
  | new_delete ↦ (pools, fresh)
]

pub free : (p bytes : ℕ) → Pools → Pools
free p bytes pools = elim (get_regular_resource bytes) [
  | block_pool_resource b e ↦ set_pool pools b (Pool.deallocate p (pools b))
  | new_delete ↦ pools
]

-- What `$new` and `$delete` use; `size` is the word at an address in front of what was given.
pub record Heap : Type 0 where
  pub pools : Pools
  pub size : ℕ → ℕ

abbrev pub recycler_size : ℕ
recycler_size = 8

abbrev pub regular_head_size : ℕ
regular_head_size = 16

-- `do_allocate<void>::apply`, which `$new<void>` calls; `none` where the header would be written at a
-- null pointer. The other word of the header is the function that `delete` calls.
pub apply : (bytes chunk fresh : ℕ) → Heap → Option (Heap × ℕ)
apply bytes chunk fresh h =
    let rbz = (regular_head_size + bytes) % 2 ^ 64 in
    let (pools, b) = alloc rbz chunk fresh h.pools in
    if bytes == 0
    then some (h, 0)
    else if b == 0
    then none
    else some (
      record { pools = pools; size = update h.size (b + recycler_size) rbz },
      b + regular_head_size,
    )

-- `$delete` of what `$new<void>` returned.
pub delete : (p : ℕ) → Heap → Heap
delete p h =
    let b = p - regular_head_size in
    if p == 0 then h else record h { pools = free b (h.size (b + recycler_size)) h.pools }
