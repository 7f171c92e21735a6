-- ===== src/IdPool/Tests.antt =====
-- The pool of chunk numbers at concrete states.
use cpp_ipc.Prelude.{◌<◌, ◌≡◌, refl, [], ◌∷◌}
use cpp_ipc.IdPool.{max_count, prepare, acquire}
use cpp_ipc.IdPool.Clients.{Usage, start, Step, Reach, count, acquire_exclusive}

-- After chunk 0 is taken.
abbrev one_held : Usage
one_held = record { pool = (acquire start.pool).1; held = 0 ∷ [] }

acquire_exclusive_example : (1 < max_count) × (count 1 one_held.held ≡ 0)
unfolding acquire prepare
acquire_exclusive_example =
    acquire_exclusive {s = one_held} 1 (Reach.next Reach.begin (Step.take 0 refl)) refl
