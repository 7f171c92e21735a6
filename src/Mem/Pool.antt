-- ===== src/Mem/Pool.antt =====
-- include/libipc/mem/block_pool.h: the blocks of a thread, linked through their first word.
pub mod Chain
use cpp_ipc.Prelude.{ℕ, zero, suc, ◌+◌, ◌==◌, if◌then◌else◌}
use cpp_ipc.Mem.Cache.{Cache, aqueire, release, update}

-- `cursor_` is the first free block, 0 if there is none; `next` are the links of all blocks.
pub record Pool : Type 0 where
  pub cursor : ℕ
  pub next : ℕ → ℕ
  pub central : Cache

module _ (block_size expansion : ℕ) where
  -- `expand`, where `chunk` is what memory a new chunk would get.
  pub expand : (chunk : ℕ) → Pool → Pool
  expand chunk s =
      let (c, next, p) = aqueire block_size expansion chunk s.central s.next in
      record { cursor = p; next = next; central = c }

  -- The block, 0 if there is none.
  unfoldable pub allocate : (chunk : ℕ) → Pool → Pool × ℕ
  allocate chunk s =
      let s' = if s.cursor == 0 then expand chunk s else s in
      if s'.cursor == 0 then (s', 0) else (record s' { cursor = s'.next s'.cursor }, s'.cursor)

pub deallocate : (p : ℕ) → Pool → Pool
deallocate p s = if p == 0 then s else record s { next = update s.next p s.cursor; cursor = p }

-- The destructor, where `node` is the node that `release` constructs if need be.
pub destroy : (node : ℕ) → Pool → Cache
destroy node s = release node s.cursor s.central
