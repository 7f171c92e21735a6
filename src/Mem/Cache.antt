-- ===== src/Mem/Cache.antt =====
-- include/libipc/mem/central_cache_pool.h: lists of blocks that threads leave for each other. A list
-- stands in a node of `cached_`; nodes without one stand in `aqueired_`. The two stacks are lists of
-- nodes, the top first.
pub mod Alone
pub mod Threads
use cpp_ipc.Prelude.{
  ℕ, zero, suc, ◌+◌, ◌-◌, ◌*◌, Option, none, some, List, [], ◌∷◌, ◌==◌, if◌then◌else◌,
}

pub record Cache : Type 0 where
  pub cached : List ℕ
  pub aqueired : List ℕ
  pub value : ℕ → ℕ  -- `value` of each node

abbrev pub update : (ℕ → ℕ) → ℕ → ℕ → ℕ → ℕ
update f k v j = if k == j then v else f j

-- `aqueire` where the pool does not allocate: the first block of a list, or 0.
pub aqueire_cached : Cache → Cache × ℕ
aqueire_cached c = elim c.cached [
  | [] ↦ (c, 0)
  | n ∷ rest ↦ (record c { cached = rest; aqueired = n ∷ c.aqueired }, c.value n)
]

-- `release`, where `node` is the node that is constructed if need be, 0 if memory does not suffice.
pub release : (node p : ℕ) → Cache → Cache
release node p c = if p == 0 then c else elim c.aqueired [
  | a ∷ rest ↦ record { cached = a ∷ c.cached; aqueired = rest; value = update c.value a p }
  | [] ↦
      if node == 0 then c else record c { cached = node ∷ c.cached; value = update c.value node p }
]

-- The loop over the blocks of a chunk: block `i` lies `i * block_size` behind the first.
unfoldable pub link_chunk : (block_size count first : ℕ) → (ℕ → ℕ) → ℕ → ℕ
link_chunk block_size zero first next = next
link_chunk block_size (suc zero) first next = update next first 0
link_chunk block_size (suc (suc n)) first next =
    link_chunk block_size (suc n) (first + block_size) (update next first (first + block_size))

-- `aqueire`, where `chunk` is the chunk that is constructed if need be, 0 if memory does not suffice,
-- and `next` the links of the blocks.
unfoldable pub aqueire : (block_size expansion chunk : ℕ) → Cache → (ℕ → ℕ) → Cache × (ℕ → ℕ) × ℕ
aqueire block_size expansion chunk c next = elim c.cached [
  | n ∷ rest ↦ (record c { cached = rest; aqueired = n ∷ c.aqueired }, next, c.value n)
  | [] ↦ if chunk == 0 then (c, next, 0) else (c, link_chunk block_size expansion chunk next, chunk)
]
