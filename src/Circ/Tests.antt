-- ===== src/Circ/Tests.antt =====
-- Connections at concrete values.
use cpp_ipc.Prelude.{ℕ, ◌≡◌, refl, false, some, List, [], ◌∷◌, get_elem?, arith}
use cpp_ipc.Circ.{Attempt, alone}
use cpp_ipc.Circ.Broadcast.{connect}
use cpp_ipc.Circ.Broadcast.Connect.{IsTaken, connect-IsTaken}

-- Another receiver takes bit 1 first; the second turn takes bit 2.
abbrev turns : List Attempt
turns = record { seen = 1; now = 3; spurious = false } ∷ alone 3 ∷ []

connect-IsTaken_example : (i : ℕ) × (a : Attempt) × (get_elem? turns i ≡ some a) × IsTaken a.now 4 7
unfolding connect
connect-IsTaken_example = connect-IsTaken turns 4 7 (omega arith, (omega arith, tt)) refl
