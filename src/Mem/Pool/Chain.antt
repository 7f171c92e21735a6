-- ===== src/Mem/Pool/Chain.antt =====
-- include/libipc/mem/block_pool.h: the free blocks of a pool as a list.
use cpp_ipc.Prelude.{
  ℕ, zero, suc, ◌+◌, ◌<◌, ◌≡◌, ◌≢◌, refl, sym, ◌∙◌, arith, List, [], ◌∷◌, All, Distinct, ◌==◌,
  if◌then◌else◌, false, true, Bool-cases, inl, inr,
}
use cpp_ipc.Mem.Cache.{aqueire, link_chunk, update}
use cpp_ipc.Mem.Pool.{Pool, expand, allocate, deallocate}

-- From `p` on, the links go through these blocks and end.
unfoldable pub Chain : (ℕ → ℕ) → ℕ → List ℕ → Type 0
Chain next p [] = p ≡ 0
Chain next p (x ∷ xs) = (p ≡ x) × (p ≢ 0) × Chain next (next p) xs

-- The free blocks, none of them twice.
pub record Holds (s : Pool) (blocks : List ℕ) : Type 0 where
  pub linked : Chain s.next s.cursor blocks
  pub distinct : Distinct blocks

pub update_ne : (f : ℕ → ℕ) (k v j : ℕ) → j ≢ k → update f k v j ≡ f j
update_ne f k v j h = let other : (k == j) ≡ false = ground arith in rw other refl

pub update_same : (f : ℕ → ℕ) (k v : ℕ) → update f k v k ≡ v
update_same f k v = let same : (k == k) ≡ true = ground arith in rw same refl

-- A block that is in no link leaves the links as they are.
pub Chain-update :
    (next : ℕ → ℕ) (k v p : ℕ) (xs : List ℕ)
    → All (λ x. x ≢ k) xs
    → Chain next p xs
    → Chain (update next k v) p xs
unfolding Chain
Chain-update next k v p [] h c = c
Chain-update next k v p (x ∷ xs) (h, hs) (e, full, c) =
    let other : update next k v p ≡ next p = update_ne next k v p (λ d. h (sym e ∙ d)) in
    (e, full, rw other (Chain-update next k v (next p) xs hs c))

-- The blocks of a chunk.
pub chunk_blocks : (block_size count first : ℕ) → List ℕ
chunk_blocks block_size zero first = []
chunk_blocks block_size (suc n) first = first ∷ chunk_blocks block_size n (first + block_size)

later : (block_size n first k : ℕ) → k < first → All (λ x. x ≢ k) (chunk_blocks block_size n first)
unfolding chunk_blocks
later block_size zero first k h = tt
later block_size (suc n) first k h =
    ((omega arith), later block_size n (first + block_size) k (omega arith))

chunk-Distinct :
    (block_size n first : ℕ) → 0 < block_size → Distinct (chunk_blocks block_size n first)
unfolding chunk_blocks
chunk-Distinct block_size zero first h = tt
chunk-Distinct block_size (suc n) first h = (
  later block_size n (first + block_size) first (omega arith),
  chunk-Distinct block_size n (first + block_size) h,
)

-- The link of a block in front of the chunk stays.
link_chunk-before :
    (block_size n first k : ℕ) (next : ℕ → ℕ)
    → k < first
    → link_chunk block_size n first next k ≡ next k
unfolding link_chunk
link_chunk-before block_size zero first k next h = refl
link_chunk-before block_size (suc zero) first k next h = update_ne next first 0 k (omega arith)
link_chunk-before block_size (suc (suc n)) first k next h =
    link_chunk-before block_size (suc n) (first + block_size) k _ (omega arith)
    ∙ update_ne next first (first + block_size) k (omega arith)

link_chunk-Chain :
    (block_size n first : ℕ) (next : ℕ → ℕ)
    → 0 < block_size
    → 0 < first
    → 0 < n
    → Chain (link_chunk block_size n first next) first (chunk_blocks block_size n first)
unfolding link_chunk Chain chunk_blocks
link_chunk-Chain block_size zero first next h l some_blocks = absurd (omega arith)
link_chunk-Chain block_size (suc zero) first next h l some_blocks =
    (refl, (omega arith), update_same next first 0)
link_chunk-Chain block_size (suc (suc n)) first next h l some_blocks =
    let linked : link_chunk block_size (suc (suc n)) first next first ≡ first + block_size =
      link_chunk-before block_size (suc n) (first + block_size) first _ (omega arith)
      ∙ update_same next first (first + block_size) in
    (
      refl,
      (omega arith),
      rw linked (
          link_chunk-Chain block_size (suc n) (first + block_size) _ h (omega arith) (omega arith)),
    )

-- A block that is freed is the next one.
pub allocate-deallocate :
    (b e chunk p : ℕ) (s : Pool) → p ≢ 0 → (allocate b e chunk (deallocate p s)).1 ≡ p
unfolding allocate deallocate
allocate-deallocate b e chunk p s full =
    let given : (p == 0) ≡ false = ground arith in
    let linked : deallocate p s ≡ record s { next = update s.next p s.cursor; cursor = p } =
      rw given refl in
    rw linked (rw given (rw given refl))

-- A block that is not free goes in front of the free ones.
pub deallocate-Holds :
    (p : ℕ) (s : Pool) (blocks : List ℕ)
    → p ≢ 0
    → All (λ x. x ≢ p) blocks
    → Holds s blocks
    → Holds (deallocate p s) (p ∷ blocks)
unfolding deallocate Chain
deallocate-Holds p s blocks full apart h =
    let given : (p == 0) ≡ false = ground arith in
    rw given (record {
      linked = (
        refl,
        full,
        rw (update_same s.next p s.cursor)
            (Chain-update s.next p s.cursor s.cursor blocks apart h.linked),
      );
      distinct = (apart, h.distinct);
    })

-- What `allocate` returns and leaves, from the blocks that were free or came with a chunk.
abbrev pub Gives : List ℕ → Pool × ℕ → Type 0
Gives [] (s, p) = Holds s [] × (p ≡ 0)
Gives (x ∷ xs) (s, p) = Holds s xs × (p ≡ x)

take_first :
    (block_size expansion chunk : ℕ) (s : Pool) (x : ℕ) (xs : List ℕ)
    → Holds s (x ∷ xs)
    → Gives (x ∷ xs) (allocate block_size expansion chunk s)
unfolding allocate Chain
take_first block_size expansion chunk s x xs h =
    let there : (s.cursor == 0) ≡ false = ground (arith, h.linked.1) in
    rw (there, there) (record { linked = h.linked.2; distinct = h.distinct.1 }, h.linked.0)

-- The free blocks once the pool has asked for a chunk where it has none.
abbrev pub refilled : (block_size expansion chunk : ℕ) → List ℕ → List ℕ
refilled block_size expansion chunk [] =
    if chunk == 0 then [] else chunk_blocks block_size expansion chunk
refilled block_size expansion chunk (x ∷ xs) = x ∷ xs

-- While no other pool has left blocks, `allocate` of a valid pool returns its first free block, or
-- the first block of a new chunk where it has none, and the other free blocks stay linked, each
-- once; it returns 0 where there is no memory.
pub allocate-Gives :
    (block_size expansion chunk : ℕ) (s : Pool) (blocks : List ℕ)
    → 0 < block_size
    → s.central.cached ≡ []
    → Holds s blocks
    → Gives
        (refilled block_size (suc expansion) chunk blocks)
        (allocate block_size (suc expansion) chunk s)
unfolding allocate expand aqueire Chain chunk_blocks
allocate-Gives block_size expansion chunk s (x ∷ xs) h none_left held =
    take_first block_size (suc expansion) chunk s x xs held
allocate-Gives block_size expansion chunk s [] h none_left held =
    let empty : (s.cursor == 0) ≡ true = ground (arith, held.linked) in
    elim (Bool-cases (chunk == 0)) [
      | inl no_memory ↦
          rw (empty, none_left, no_memory) (record { linked = refl; distinct = tt }, refl)
      | inr memory ↦
          let linked =
            link_chunk-Chain block_size (suc expansion) chunk s.next h (ground arith)
              (omega arith) in
          let apart = chunk-Distinct block_size (suc expansion) chunk h in
          rw (empty, none_left, memory, memory)
            (record { linked = linked.2; distinct = apart.1 }, refl)
    ]
