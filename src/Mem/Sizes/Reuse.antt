-- ===== src/Mem/Sizes/Reuse.antt =====
-- src/libipc/mem/new.cpp and include/libipc/mem/new.h: memory that is given back is used again.
use mathlib.Core.Option.{some-injective, none-ne-some}
use cpp_ipc.Prelude.{
  ℕ, ◌+◌, ◌-◌, ◌%◌, ◌^◌, ◌≤◌, ◌<◌, ◌≡◌, ◌≢◌, refl, sym, ap, ◌∙◌, arith, true, false, some, ◌==◌,
  Bool-cases, inl, inr,
}
use cpp_ipc.Mem.Cache.{update}
use cpp_ipc.Mem.Pool.Chain.{update_same, allocate-deallocate}
use cpp_ipc.Mem.Sizes.{
  block_pool_resource, get_regular_resource, Pools, alloc, free, Heap, apply, delete,
}
use cpp_ipc.Mem.Sizes.Fits.{get_regular_resource-Fits}

-- A block that is freed is the next one for a size of the same pool.
alloc-free :
    (bytes bytes' b e p chunk fresh : ℕ) (pools : Pools)
    → p ≢ 0
    → get_regular_resource bytes ≡ block_pool_resource b e
    → get_regular_resource bytes' ≡ block_pool_resource b e
    → (alloc bytes' chunk fresh (free p bytes pools)).1 ≡ p
unfolding alloc free
alloc-free bytes bytes' b e p chunk fresh pools full here there =
    let same : (b == b) ≡ true = ground arith in
    rw (alloc, there, free, here, same) (allocate-deallocate b e chunk p (pools b) full)

-- What `apply` returns lies behind a header with the size.
apply-Head :
    (bytes chunk fresh p : ℕ) (h h' : Heap)
    → 1 ≤ bytes
    → apply bytes chunk fresh h ≡ some (h', p)
    → (16 < p) × (h'.size (p - 16 + 8) ≡ (16 + bytes) % 2 ^ 64)
unfolding apply
apply-Head bytes chunk fresh p h h' some_bytes e =
    let none_yet : (bytes == 0) ≡ false = ground arith in
    elim (Bool-cases ((alloc ((16 + bytes) % 2 ^ 64) chunk fresh h.pools).1 == 0)) [
      | inl failed ↦ absurd (none-ne-some (h', p) (rw (apply, none_yet, failed) at e))
      | inr given ↦
          let both = some-injective _ _ (rw (apply, none_yet, given) at e) in
          let place = ap (λ (r : Heap × ℕ). r.1) both in
          let b = (alloc ((16 + bytes) % 2 ^ 64) chunk fresh h.pools).1 in
          let at : p - 16 + 8 ≡ b + 8 = omega (arith, place) in
          (
            ground (arith, place),
            ap (λ (r : Heap × ℕ). r.0.size (p - 16 + 8)) (sym both)
                ∙ rw at (update_same h.size (b + 8) ((16 + bytes) % 2 ^ 64)),
          )
    ]

-- It succeeds where it is given memory.
apply-given :
    (bytes chunk fresh q : ℕ) (h : Heap)
    → 1 ≤ bytes
    → 16 + bytes < 2 ^ 64
    → q ≢ 0
    → (alloc (16 + bytes) chunk fresh h.pools).1 ≡ q
    → (h' : Heap) × (apply bytes chunk fresh h ≡ some (h', q + 16))
unfolding apply
apply-given bytes chunk fresh q h some_bytes small full at =
    let none_yet : (bytes == 0) ≡ false = ground arith in
    let whole : (16 + bytes) % 2 ^ 64 ≡ 16 + bytes = omega arith in
    let given : (q == 0) ≡ false = ground arith in
    (
      record {
        pools = (alloc (16 + bytes) chunk fresh h.pools).0;
        size = update h.size (q + 8) (16 + bytes);
      },
      rw (apply, none_yet, whole, at, given) refl,
    )

-- Where `$new` of 1 to 65520 bytes returned a pointer, after `$delete` of it `$new` returns it
-- again for any size from 1 to 65536 that together with the header has the same pool as the first
-- size with its header.
pub apply-delete :
    (bytes bytes' chunk chunk' fresh fresh' p : ℕ) (h h' : Heap)
    → 1 ≤ bytes
    → 16 + bytes ≤ 65536
    → 1 ≤ bytes'
    → bytes' ≤ 65536
    → get_regular_resource (16 + bytes') ≡ get_regular_resource (16 + bytes)
    → apply bytes chunk fresh h ≡ some (h', p)
    → (h'' : Heap) × (apply bytes' chunk' fresh' (delete p h') ≡ some (h'', p))
unfolding apply delete
apply-delete bytes bytes' chunk chunk' fresh fresh' p h h' some_bytes small some_bytes' small' same
      e =
    let (b, e', pool, own, holds, below) =
      get_regular_resource-Fits (16 + bytes) (omega arith) small in
    let (behind, head) = apply-Head bytes chunk fresh p h h' some_bytes e in
    let given : (p == 0) ≡ false = ground (arith, behind) in
    let size : h'.size (p - 16 + 8) ≡ 16 + bytes = omega (arith, head) in
    let again =
      alloc-free (16 + bytes) (16 + bytes') b e' (p - 16) chunk' fresh' h'.pools
        (omega (arith, behind)) pool (same ∙ pool) in
    let place : p - 16 + 16 ≡ p = omega (arith, behind) in
    let left : (delete p h').pools ≡ free (p - 16) (16 + bytes) h'.pools =
      rw (delete, given, size) refl in
    let (h'', done) =
      apply-given bytes' chunk' fresh' (p - 16) (delete p h') some_bytes' (omega arith)
        (omega (arith, behind))
        (ap (λ (g : Pools). (alloc (16 + bytes') chunk' fresh' g).1) left ∙ again) in
    (h'', done ∙ ap (λ q. some (h'', q)) place)
