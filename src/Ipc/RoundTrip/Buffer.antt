-- ===== src/Ipc/RoundTrip/Buffer.antt =====
-- src/libipc/ipc.cpp, `cache_t`: a buffer that is filled with the bytes of a message from its front.
use cpp_ipc.Prelude.{
  ℕ, suc, ◌+◌, ◌-◌, ◌≤◌, min, List, ◌++◌, ◌≡◌, sym, length, take, drop, replicate, arith,
  length-take, length-drop, length-append, take-append_left, drop-append_add, drop-drop, take_add,
  take_all, append_assoc, append_nil, drop_all, ◌==◌, leb, false,
}
use cpp_ipc.Ipc.{data_length, padded}
use cpp_ipc.Ipc.Cache.{append, make_cache, copy_to}

module _ (msg blk : List ℕ) (same : length blk ≡ length msg) where
  -- The first `f` bytes of the message, then what the block held.
  abbrev pub part : ℕ → List ℕ
  part f = take f msg ++ drop f blk

  pub length-part : (f : ℕ) → f ≤ length msg → length (part f) ≡ length msg
  length-part f h =
      omega
        (arith, length-append (take f msg) (drop f blk), length-take f msg, length-drop f blk, same)

  part-copy_to :
      (f n : ℕ)
      → f + n ≤ length msg
      → copy_to (part f) f (padded (take n (drop f msg))) n ≡ part (f + n)
  part-copy_to f n h =
      let len : length (take f msg) ≡ f = omega (arith, length-take f msg) in
      let len' : length (take n (drop f msg)) ≡ n =
        omega (arith, length-take n (drop f msg), length-drop f msg) in
      rw (
        take-append_left (take f msg) (drop f blk) f (sym len),
        take-append_left (take n (drop f msg))
            (replicate (data_length - length (take n (drop f msg))) 0) n (sym len'),
        drop-append_add (take f msg) (drop f blk) f n (sym len),
        drop-drop blk f n,
        take_add msg f n,
        append_assoc (take f msg) (take n (drop f msg)) (drop (f + n) blk),
      )

  pub part-append :
      (f n : ℕ)
      → suc f + suc n ≤ length msg
      → append
          (padded (take (suc n) (drop (suc f) msg)))
          (suc n)
          (record { fill = suc f; buff = part (suc f) })
        ≡ record { fill = suc f + suc n; buff = part (suc f + suc n) }
  unfolding append
  part-append f n h =
      let full : leb (length (part (suc f))) (suc f) ≡ false =
        ground (arith, length-part (suc f) (omega arith)) in
      let size : min (suc f + suc n) (length (part (suc f))) ≡ suc f + suc n =
        omega (arith, length-part (suc f) (omega arith)) in
      let rest : suc f + suc n - suc f ≡ suc n = omega arith in
      let some_bytes : (suc n == 0) ≡ false = ground arith in
      rw (full, some_bytes, size, rest, part-copy_to (suc f) (suc n) h)

  pub part-all : part (length msg) ≡ msg
  part-all = rw (
    take_all msg (length msg) (omega arith),
    drop_all blk (length msg) (omega arith),
    append_nil msg,
  )

  -- The buffer that is made for the first fragment.
  pub part-make_cache :
      (alloc : ℕ → List ℕ) (n : ℕ)
      → alloc (length msg) ≡ blk
      → n ≡ min data_length (length msg)
      → make_cache alloc (padded (take n (drop 0 msg))) (length msg) ≡ part n
  unfolding make_cache
  part-make_cache alloc n fresh e =
      let start : 0 + n ≡ n = omega arith in
      let copied : copy_to (part 0) 0 (padded (take n (drop 0 msg))) n ≡ part (0 + n) =
        part-copy_to 0 n (omega arith) in
      rw (fresh, sym e, copied, start)
