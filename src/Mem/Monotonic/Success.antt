-- ===== src/Mem/Monotonic/Success.antt =====
-- src/libipc/mem/monotonic_buffer_resource.cpp: when `allocate` succeeds.
use cpp_ipc.Prelude.{
  ℕ, ◌+◌, ◌-◌, ◌%◌, ◌^◌, max, ◌≤◌, ◌<◌, ◌≡◌, refl, arith, some, inl, inr, Option-cases, ◌==◌, false,
}
use native.Mathlib.Nat.{one-le-pow}
use cpp_ipc.Ipc.Chunks.{u64}
use cpp_ipc.Mem.Monotonic.{Resource, node_size, round_up, align, make_node, try_again, allocate}
use cpp_ipc.Mem.Monotonic.Aligned.{align-mod, align-some, pad-round_up}

-- `allocate` of at least a byte with an alignment that is a power of two below 2^64 returns an
-- aligned block where the upstream resource has a block at a multiple of 16 and the sizes do not
-- wrap.
pub allocate-succeeds :
    (k bytes place : ℕ) (r : Resource)
    → k < 64
    → 0 < bytes
    → round_up node_size (2 ^ k) + max r.next_size bytes < 2 ^ 64
    → place % 16 ≡ 0
    → (p : ℕ) × ((allocate (some place) bytes (2 ^ k) r).1 ≡ some p) × (p % 2 ^ k ≡ 0)
unfolding allocate try_again make_node
allocate-succeeds k bytes place r h l fits sixteen =
    let a : ℕ = 2 ^ k in
    let positive : 1 ≤ 2 ^ k = one-le-pow k 2 (omega arith) in
    let asked : (bytes == 0) ≡ false = ground arith in
    elim (Option-cases (align (2 ^ k) bytes r.head (u64 (r.tail + 2 ^ 64 - r.head)))) [
      | inr ((p, s), e) ↦ (p, rw (asked, e) refl, align-mod (2 ^ k) bytes r.head _ p s positive e)
      | inl full ↦
          let space : ℕ =
            u64 (u64 (round_up node_size (2 ^ k) + max r.next_size bytes) + 2 ^ 64 - node_size) in
          let room = pad-round_up k place h sixteen in
          let e = align-some (2 ^ k) bytes (place + node_size) space (omega arith) in
          (
            _,
            rw (asked, full, make_node, try_again, e) refl,
            align-mod (2 ^ k) bytes (place + node_size) space _ _ positive e,
          )
    ]
