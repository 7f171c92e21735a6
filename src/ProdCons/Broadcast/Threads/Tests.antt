-- ===== src/ProdCons/Broadcast/Threads/Tests.antt =====
-- A run of the broadcast ring, an access at a time.
use cpp_ipc.Prelude.{ℕ, ◌≤◌, ◌≡◌, refl, List, [], ◌∷◌, ◌++◌, length, arith}
use cpp_ipc.ProdCons.Broadcast.Threads.{System, Push, Pop, Reach, begin, next, produce, receive}
use cpp_ipc.ProdCons.Broadcast.Threads.Order.{each_receives}

-- Two receivers; the first reads the element while the second has not begun.
abbrev one_read : (s : System ℕ) × Reach 3 (λ _. 0) s
one_read =
    let marked =
      next
        (next (next (next begin (produce (Push.call 7))) (produce (Push.load (omega arith))))
          (produce (Push.finished (λ b. b.0 refl))))
        (produce (Push.mark refl)) in
    let published = next (next marked (produce Push.write)) (produce Push.publish) in
    (
      _,
      next
          (next
            (next (next published (receive 0 (omega arith) (Pop.enter (omega arith))))
              (receive 0 (omega arith) Pop.read))
            (receive 0 (omega arith) Pop.load_rc))
          (receive 0 (omega arith) (Pop.clear (omega arith) refl)),
    )

each_receives_example : (rest : List ℕ) × (7 ∷ [] ≡ [] ++ rest) × (length rest ≤ 256)
each_receives_example =
    each_receives 3 {s = one_read.0} 1 (omega arith) one_read.1 (omega arith) (omega arith) refl
