-- ===== src/RwLock/Tests.antt =====
-- The locks at concrete states.
use cpp_ipc.Prelude.{ℕ, ◌≢◌, refl, [], ◌∷◌, some, get_elem?, arith, bit_or}
use cpp_ipc.RwLock.{w_flag, idle, writing, reading, Access, System, Reach, Step}
use cpp_ipc.RwLock.Exclusion.{writer_alone}
use cpp_ipc.RwLock.Spin
use cpp_ipc.RwLock.Spin.{holder_alone}

-- The first of two threads has the lock.
abbrev one_writes : System
one_writes = record { word = bit_or 0 w_flag; threads = writing ∷ idle ∷ [] }

writer_alone_example :
    (get_elem? one_writes.threads 1 ≢ some reading)
    × (◌≢◌ {A = ℕ} 0 1 → get_elem? one_writes.threads 1 ≢ some writing)
writer_alone_example =
    writer_alone 2 one_writes 0 1 (omega arith)
      (Reach.after (Reach.after Reach.here (Step.access 0 refl Access.lock))
        (Step.access 0 refl (Access.locked refl)))
      refl

abbrev one_reads : System
one_reads = record { word = 1; threads = reading ∷ idle ∷ [] }

abbrev one_holds : Spin.Spinners
one_holds = record { word = 1; threads = Spin.holding ∷ Spin.idle ∷ [] }
