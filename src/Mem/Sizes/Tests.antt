-- ===== src/Mem/Sizes/Tests.antt =====
-- Memory of several sizes.
use cpp_ipc.Prelude.{ℕ, ◌+◌, ◌≤◌, ◌<◌, ◌≡◌, refl, arith, some, [], max}
use cpp_ipc.Mem.Cache.{update}
use cpp_ipc.Mem.Monotonic.{round_up}
use cpp_ipc.Mem.Pool
use cpp_ipc.Mem.Pool.{Pool}
use cpp_ipc.Mem.Sizes.{
  regular_level, block_pool_resource, new_delete, get_regular_resource, Pools, set_pool, alloc,
  Heap, apply, delete,
}
use cpp_ipc.Mem.Sizes.Fits.{get_regular_resource-Fits}
use cpp_ipc.Mem.Sizes.Reuse.{apply-delete}

get_regular_resource-Fits_example :
    (b : ℕ) × (e : ℕ) × (get_regular_resource 1000 ≡ block_pool_resource b e)
    × (get_regular_resource b ≡ block_pool_resource b e)
    × (1000 ≤ b)
    × (b < 1000 + max 16 1000)
get_regular_resource-Fits_example = get_regular_resource-Fits 1000 (omega arith) (omega arith)

-- No bytes and more than 64 KB come from `new`.
outside : (get_regular_resource 0 ≡ new_delete) × (get_regular_resource 65537 ≡ new_delete)
unfolding get_regular_resource regular_level round_up
outside = (refl, refl)

-- One block of each size is free, at 4096.
abbrev pools : Pools
pools _ = record {
  cursor = 4096;
  next = λ _. 0;
  central = record { cached = []; aqueired = []; value = λ _. 0 };
}

abbrev heap : Heap
heap = record { pools = pools; size = λ _. 0 }

-- 24 bytes and their header take the block of 48 bytes.
abbrev taken : Heap
taken = record {
  pools = set_pool pools 48 (record (pools 48) { cursor = 0 });
  size = update (λ _. 0) 4104 40;
}

heap-taken : apply 24 0 0 heap ≡ some (taken, 4112)
unfolding apply alloc get_regular_resource regular_level round_up Pool.allocate
heap-taken = refl

same_pool : get_regular_resource (16 + 30) ≡ get_regular_resource (16 + 24)
unfolding get_regular_resource regular_level round_up
same_pool = refl

apply-delete_example : (h : Heap) × (apply 30 0 0 (delete 4112 taken) ≡ some (h, 4112))
apply-delete_example =
    apply-delete 24 30 0 0 0 0 4112 heap taken (omega arith) (omega arith) (omega arith)
      (omega arith) same_pool heap-taken
