-- ===== src/Buffer/Tests.antt =====
-- Buffers that are made, moved and destroyed.
use cpp_ipc.Prelude.{ℕ, ◌+◌, ◌≡◌, refl, [], ◌∷◌, ◌==◌, if◌then◌else◌, true, false}
use cpp_ipc.RwLock.Tally.{tally}
use cpp_ipc.Buffer.{Call, Buffer, Program, destroy, make, assign, swap_out, is_empty, equals}
use cpp_ipc.Buffer.Owned.{Reach, start, made, assigned, freed_once}

-- A message in a larger block, which is freed in its place.
abbrev message : Buffer
message = record { p = 104; s = 8; a = 100; d = 7 }

abbrev other_message : Buffer
other_message = record { p = 200; s = 64; a = 0; d = 7 }

-- One message is assigned to the other, whose memory is freed.
abbrev replaced : Program
replaced = record {
  buffers = record { p = 0; s = 0; a = 0; d = 0 } ∷ message ∷ [];
  calls = record { destructor = 7; memory = 200; size = 64 } ∷ [];
}

replaced-Reach : Reach replaced (
    record { destructor = 7; memory = 100; size = 8 }
    ∷ record { destructor = 7; memory = 200; size = 64 }
    ∷ [])
unfolding make destroy assign swap_out
replaced-Reach = assigned 1 0 (made message (made other_message start)) refl

abbrev of_block : Call → ℕ
of_block c = if c.memory == 100 then 1 else 0

freed_once_example :
    tally (λ b. tally of_block (destroy b)) replaced.buffers + tally of_block replaced.calls ≡ 1
freed_once_example = freed_once of_block replaced-Reach

-- An empty buffer is not equal to one that has bytes, whatever `memcmp` says.
other_size : equals (λ _ _ _. true) message other_message ≡ false
unfolding equals
other_size = refl

no_bytes : is_empty (record { p = 104; s = 0; a = 0; d = 0 }) ≡ true
unfolding is_empty
no_bytes = refl
