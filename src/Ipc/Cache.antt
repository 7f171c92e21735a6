-- ===== src/Ipc/Cache.antt =====
-- src/libipc/ipc.cpp, `cache_t` and `make_cache`: the buffer in which a message is put together.
use cpp_ipc.Prelude.{
  ℕ, ◌+◌, ◌-◌, min, List, ◌++◌, ◌||◌, ◌==◌, leb, if◌then◌else◌, length, take, drop,
}
use cpp_ipc.Ipc.{data_length}

pub record Cache : Type 0 where
  pub fill : ℕ
  pub buff : List ℕ

-- `memcpy` of `n` bytes to position `at` of a buffer.
abbrev pub copy_to : List ℕ → ℕ → List ℕ → ℕ → List ℕ
copy_to buff at src n = take at buff ++ (take n src ++ drop (at + n) buff)

unfoldable pub append : List ℕ → ℕ → Cache → Cache
append src size c =
    let new_fill = min (c.fill + size) (length c.buff) in
    if leb (length c.buff) c.fill || size == 0
    then c
    else record c { fill = new_fill; buff = copy_to c.buff c.fill src (new_fill - c.fill) }

-- `alloc n` is what the allocator's block of `n` bytes holds before it is written.
unfoldable pub make_cache : (ℕ → List ℕ) → List ℕ → ℕ → List ℕ
make_cache alloc src size = copy_to (alloc size) 0 src (min data_length size)
