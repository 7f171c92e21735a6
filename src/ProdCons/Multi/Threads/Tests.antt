-- ===== src/ProdCons/Multi/Threads/Tests.antt =====
-- Runs of the ring of many producers, an access at a time.
use cpp_ipc.Prelude.{
  ℕ, ◌+◌, ◌-◌, ◌^◌, ◌≤◌, ◌<◌, ◌≡◌, ◌≢◌, refl, List, [], ◌∷◌, ◌++◌, length, arith, Bool-cases, inl,
  inr, ◌==◌,
}
use cpp_ipc.Circ.{u32, index_of}
use cpp_ipc.ProdCons.Multi.Threads.{Memory, Thread, System, Access, Reach, begin, next, step}
use cpp_ipc.ProdCons.Multi.Threads.Fifo.{popped_prefix, one_writer}
use cpp_ipc.ProdCons.Multi.Threads.Alone.{Run}
use cpp_ipc.ProdCons.Multi.Threads.Progress.{pop_delivers}

has_room : index_of (u32 (0 + 1)) ≢ index_of 0
has_room = omega arith

still_room : index_of (u32 (1 + 1)) ≢ index_of 0
still_room = omega arith

-- Two threads have each claimed an index.
abbrev two_claims : (s : System ℕ) × Reach (λ _. 0) s
two_claims =
    let first =
      next
        (next (next (next begin (step 0 (Access.call 7))) (step 0 Access.load_ct))
          (step 0 (Access.not_full has_room)))
        (step 0 (Access.claim refl)) in
    (
      _,
      next
          (next (next (next first (step 1 (Access.call 8))) (step 1 Access.load_ct))
            (step 1 (Access.not_full still_room)))
          (step 1 (Access.claim refl)),
    )

popped_prefix_example : (rest : List ℕ) × (7 ∷ 8 ∷ [] ≡ [] ++ rest) × (length rest ≤ 255)
popped_prefix_example = popped_prefix {s = two_claims.0} two_claims.1 (omega arith)

one_writer_example : (index_of 0 ≢ index_of 1) × (0 ≤ 0) × (0 < 2) × (2 ≤ 0 + 255)
one_writer_example =
    one_writer {s = two_claims.0} 0 1 0 1 two_claims.1 (omega arith) (omega arith) refl refl

-- A push by one thread, which has ended.
abbrev pushed : (s : System ℕ) × Reach (λ _. 0) s
pushed =
    let filled =
      next
        (next
          (next (next (next begin (step 0 (Access.call 7))) (step 0 Access.load_ct))
            (step 0 (Access.not_full has_room)))
          (step 0 (Access.claim refl)))
        (step 0 Access.fill) in
    let advanced =
      next
        (next
          (next
            (next (next (next filled (step 0 Access.commit)) (step 0 Access.load_flag))
              (step 0 (Access.at_wt refl)))
            (step 0 (Access.committed {c = 0} {f = 2 ^ 64 - 1} refl)))
          (step 0 (Access.take_flag refl)))
        (step 0 Access.advance) in
    (
      _,
      next (next (next advanced (step 0 Access.load_flag)) (step 0 (Access.at_wt refl)))
          (step 0 (Access.not_committed {c = 1} {f = 0} (omega arith))),
    )

all_idle : (j : ℕ) → pushed.0.thread j ≡ Thread.idle
all_idle j = elim (Bool-cases (0 == j)) [ inl same ↦ rw same refl | inr other ↦ rw other refl ]

pop_delivers_example :
    (m' : Memory ℕ) × Run pushed.0.mem Thread.popping m' Thread.idle
    × (m'.received ≡ [] ++ (7 ∷ []))
    × (m'.sent ≡ 7 ∷ [])
    × ((m'' : Memory ℕ)
        → Run pushed.0.mem Thread.popping m'' Thread.idle
        → (m''.received ≡ [] ++ (7 ∷ [])) × (m''.sent ≡ 7 ∷ []))
pop_delivers_example = pop_delivers 7 pushed.1 (omega arith) all_idle refl
